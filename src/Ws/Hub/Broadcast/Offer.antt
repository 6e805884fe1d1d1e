-- ===== src/Ws/Hub/Broadcast/Offer.antt =====
-- One send of cmd/server/internal/ws/hub.go, `select { case c.send <- msg: default: kick }`.
use chattui.Common.{
  ℕ, ℤ, Bool, true, false, none, some, ◌≡◌, ◌∙◌, [], ◌∷◌, ◌++◌, arith, if◌then◌else◌, ◌==◌, ◌&&◌,
  int_key, nat_key, int_eq_iff, nat_eq_iff, inl, inr, lookup, Bool-cases, length, ltb, not,
}
use chattui.Ws.Message.{Message}
use chattui.Ws.Presence.{present}
use chattui.Ws.Hub.{Hub, Client, ok, update, send_capacity, send_or_kick}
use chattui.Ws.Hub.Invariant.{Inv, update_self, buffers-Inv}
use chattui.Ws.Hub.Removal.{
  removed, removed-Inv, unregister_client-eq_removed, kick_client-eq_unregister_client,
  lookup-removed, present-removed, heap-removed,
}

-- There is room in the client's channel.
abbrev pub fits : Client → Bool
fits c = ltb (length c.send.buffer) send_capacity

-- The client that a message was offered to: it has the message last in its channel, or the channel
-- was full and is closed.
unfoldable pub received : Message → Client → Client
received m c =
    if fits c
    then (record c { send = record (c.send) { buffer = c.send.buffer ++ m ∷ [] } })
    else (record c { send = record (c.send) { closed = true } })

abbrev with_message : Message → ℕ → Hub → Hub
with_message m p h = record h {
  heap = update h.heap p (record (h.heap p) {
    send = record (h.heap p).send { buffer = (h.heap p).send.buffer ++ m ∷ [] };
  });
}

pub offered : Message → ℕ → Hub → Hub
offered m p h = if fits (h.heap p) then with_message m p h else removed p h

pub send_or_kick-eq_offered :
    (m : Message) (p : ℕ) (h : Hub)
    → (h.heap p).send.closed ≡ false
    → send_or_kick m p h ≡ ok (offered m p h)
unfolding send_or_kick offered
send_or_kick-eq_offered m p h e = elim (Bool-cases (fits (h.heap p))) [
  | inl t ↦ rw e (rw t)
  | inr f ↦ rw e (rw f (kick_client-eq_unregister_client p h ∙ unregister_client-eq_removed p h e))
]

pub heap-offered_self :
    (m : Message) (p : ℕ) (h : Hub) → (offered m p h).heap p ≡ received m (h.heap p)
unfolding offered received removed
heap-offered_self m p h = elim (Bool-cases (fits (h.heap p))) [
  | inl t ↦ rw t (update_self h.heap p _)
  | inr f ↦ rw f (update_self h.heap p _)
]

pub heap-offered_other :
    (m : Message) (p q : ℕ) (h : Hub) → ¬ (p ≡ q) → (offered m p h).heap q ≡ h.heap q
unfolding offered update
heap-offered_other m p q h n = ground (arith, heap-removed p q h, nat_eq_iff p q)

pub lookup-offered :
    (m : Message) (p : ℕ) (h : Hub) (u : ℤ)
    → lookup u (offered m p h).clients
      ≡ (if not (fits (h.heap p)) && (h.heap p).user_id == u then none else lookup u h.clients)
unfolding offered
lookup-offered m p h u = ground (arith, lookup-removed p h u)

pub present-offered :
    (m : Message) (p : ℕ) (h : Hub) (r u : ℤ)
    → ¬ ((h.heap p).user_id ≡ u)
    → present (offered m p h).rooms r u ≡ present h.rooms r u
unfolding offered
present-offered m p h r u other =
    ground (arith, present-removed p h r u, int_eq_iff (h.heap p).user_id u)

pub offered-Inv :
    (m : Message) (p : ℕ) (h : Hub)
    → Inv h
    → lookup (h.heap p).user_id h.clients ≡ some p
    → Inv (offered m p h)
unfolding offered update
offered-Inv m p h v reg = elim (Bool-cases (fits (h.heap p))) [
  | inl t ↦ rw t (buffers-Inv h (with_message m p h).heap same v)
  | inr f ↦ rw f (removed-Inv p h v reg)
]
  where
    same :
        (q : ℕ)
        → (((with_message m p h).heap q).user_id ≡ (h.heap q).user_id)
          × (((with_message m p h).heap q).send.closed ≡ (h.heap q).send.closed)
          × (((with_message m p h).heap q).room_ids ≡ (h.heap q).room_ids)
    same q = (
      ground (arith, nat_eq_iff p q),
      ground (arith, nat_eq_iff p q),
      ground (arith, nat_eq_iff p q),
    )

pub received-user_id : (m : Message) (c : Client) → (received m c).user_id ≡ c.user_id
unfolding received
received-user_id m c = ground arith
