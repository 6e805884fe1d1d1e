-- ===== src/Ws/Hub/Removal.antt =====
-- `unregisterClient` and `kickClient` of cmd/server/internal/ws/hub.go: both take a connection out
-- of the hub and close its channel.
use chattui.Common.{
  ℕ, ℤ, Bool, true, false, none, some, ◌≡◌, sym, ◌∙◌, ap, arith, if◌then◌else◌, ◌==◌, ◌&&◌, int_key,
  nat_key, nat_eq_refl, eqb_refl, eqb-cases, inl, inr, has, lookup, lookup-delete, Bool-cases, ◌≢◌,
}
use chattui.Ws.Presence.{present, present-leave_rooms}
use chattui.Ws.Hub.{Hub, ok, update, forget, unregister_client, kick_client}
use chattui.Ws.Hub.Invariant.{Inv}

-- The hub without the connection `p`, whose channel is closed.
unfoldable pub removed : ℕ → Hub → Hub
unfolding forget update
removed p h = record (forget p h) {
  heap = update h.heap p (record (h.heap p) { send = record (h.heap p).send { closed = true } });
}

pub unregister_client-eq_removed :
    (p : ℕ) (h : Hub) → (h.heap p).send.closed ≡ false → unregister_client p h ≡ ok (removed p h)
unfolding unregister_client removed
unregister_client-eq_removed p h e = rw e

-- `kickClient` and `unregisterClient` do the same in another order.
pub kick_client-eq_unregister_client : (p : ℕ) (h : Hub) → kick_client p h ≡ unregister_client p h
unfolding kick_client unregister_client
kick_client-eq_unregister_client p h = elim (Bool-cases (h.heap p).send.closed) [
  | inl e ↦ rw e
  | inr e ↦ rw e (rw (nat_eq_refl p))
]

-- Who is still connected after `removed`.
pub lookup-removed :
    (p : ℕ) (h : Hub) (u : ℤ)
    → lookup u (removed p h).clients
      ≡ (if (h.heap p).user_id == u then none else lookup u h.clients)
unfolding removed
lookup-removed p h u = lookup-delete (h.heap p).user_id u h.clients

pub present-removed :
    (p : ℕ) (h : Hub) (r u : ℤ)
    → present (removed p h).rooms r u
      ≡ (if has r (h.heap p).room_ids && (h.heap p).user_id == u then none else present h.rooms r u)
unfolding removed
present-removed p h r u = present-leave_rooms (h.heap p).user_id (h.heap p).room_ids h.rooms r u

pub heap-removed : (p q : ℕ) (h : Hub) → ¬ (p ≡ q) → (removed p h).heap q ≡ h.heap q
unfolding removed
heap-removed p q h n = ground arith

-- A user who is still connected has another connection than the one removed.
kept :
    (p : ℕ) (h : Hub) (u : ℤ) (q : ℕ)
    → Inv h
    → lookup u (removed p h).clients ≡ some q
    → (¬ (p ≡ q)) × (¬ ((h.heap p).user_id ≡ u)) × (lookup u h.clients ≡ some q)
kept p h u q v e = elim (eqb-cases (h.heap p).user_id u) [
  | inl (t, same) ↦ cc (gone t)
  | inr (f, other) ↦
      (λ eq. other (ap (λ x. (h.heap x).user_id) eq ∙ v.owner u q (stays f)), other, stays f)
]
  where
    gone : ((h.heap p).user_id == u) ≡ true → lookup u (removed p h).clients ≡ none
    gone t = lookup-removed p h u ∙ rw t

    stays : ((h.heap p).user_id == u) ≡ false → lookup u h.clients ≡ some q
    stays f = sym (lookup-removed p h u ∙ rw f) ∙ e

-- The presence of the removed user is gone.
present-removed_self :
    (p : ℕ) (h : Hub) (r : ℤ) (b : Bool)
    → Inv h
    → lookup (h.heap p).user_id h.clients ≡ some p
    → present (removed p h).rooms r (h.heap p).user_id ≢ some b
present-removed_self p h r b v reg e = elim (Bool-cases (has r (h.heap p).room_ids)) [
  | inl t ↦
      let gone : present (removed p h).rooms r uid ≡ none =
        present-removed p h r uid ∙ rw (t, eqb_refl uid) in
      cc gone
  | inr f ↦
      let (q, lq, hq) = v.known r uid b (sym (present-removed p h r uid ∙ rw f) ∙ e) in
      let same : some p ≡ some q = sym reg ∙ lq in ground (arith, same)
]
  where
    uid : ℤ
    uid = (h.heap p).user_id

pub removed-Inv :
    (p : ℕ) (h : Hub) → Inv h → lookup (h.heap p).user_id h.clients ≡ some p → Inv (removed p h)
removed-Inv p h v reg = record {
  owner = λ u q e. let k = kept p h u q v e in rw (heap-removed p q h k.0) (v.owner u q k.2);
  live = λ u q e. let k = kept p h u q v e in rw (heap-removed p q h k.0) (v.live u q k.2);
  known = λ r u b e. elim (eqb-cases (h.heap p).user_id u) [
    | inl (t, same) ↦ absurd (present-removed_self p h r b v reg (rw same e))
    | inr (f, other) ↦
        let before : present h.rooms r u ≡ some b =
          sym (present-removed p h r u ∙ ground arith) ∙ e in
        let (q, lq, hq) = v.known r u b before in
        let now : lookup u (removed p h).clients ≡ some q = lookup-removed p h u ∙ rw f lq in
        (q, now, rw (heap-removed p q h (kept p h u q v now).0) hq)
  ];
}

pub unregister_client-Inv :
    (p : ℕ) (h : Hub)
    → Inv h
    → lookup (h.heap p).user_id h.clients ≡ some p
    → (h' : Hub) × (unregister_client p h ≡ ok h') × Inv h'
unregister_client-Inv p h v reg =
    (removed p h, unregister_client-eq_removed p h (v.live _ p reg), removed-Inv p h v reg)
