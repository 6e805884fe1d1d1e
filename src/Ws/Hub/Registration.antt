-- ===== src/Ws/Hub/Registration.antt =====
-- `registerClient` of cmd/server/internal/ws/hub.go.
use chattui.Common.{
  ℕ, ℤ, Bool, true, false, none, some, ◌≡◌, ◌∙◌, arith, ◌==◌, int_key, nat_key, int_eq_iff,
  eqb_refl, inl, inr, has, Distinct, lookup, lookup-insert, ◌⊎◌, subst,
}
use chattui.Ws.Presence.{present, present-enter_rooms}
use chattui.Ws.Hub.{Hub, register_client}
use chattui.Ws.Hub.Invariant.{Inv}

-- A connection in the map after `registerClient` is the new one, or it was there.
registered :
    (p : ℕ) (h : Hub) (u : ℤ) (q : ℕ)
    → lookup u (register_client p h).clients ≡ some q
    → ((p ≡ q) × ((h.heap p).user_id ≡ u))
      ⊎ (((h.heap p).user_id == u) ≡ false) × (lookup u h.clients ≡ some q)
unfolding register_client
registered p h u q e =
    ground (arith, lookup-insert (h.heap p).user_id u p h.clients, int_eq_iff (h.heap p).user_id u)

-- A presence after `registerClient` is one of the new connection's rooms, or it was there.
entered :
    (p : ℕ) (h : Hub) (r u : ℤ) (b : Bool)
    → Distinct (h.heap p).room_ids
    → present (register_client p h).rooms r u ≡ some b
    → (((h.heap p).user_id ≡ u) × (has r (h.heap p).room_ids ≡ true))
      ⊎ (present h.rooms r u ≡ some b)
unfolding register_client
entered p h r u b d e = ground (
  arith,
  present-enter_rooms (h.heap p).user_id (h.heap p).room_ids h.rooms r u d,
  int_eq_iff (h.heap p).user_id u,
)

lookup-register_client_self :
    (p : ℕ) (h : Hub) → lookup (h.heap p).user_id (register_client p h).clients ≡ some p
unfolding register_client
lookup-register_client_self p h =
    lookup-insert (h.heap p).user_id (h.heap p).user_id p h.clients
    ∙ rw (eqb_refl (h.heap p).user_id)

lookup-register_client_other :
    (p : ℕ) (h : Hub) (u : ℤ) (q : ℕ)
    → lookup (h.heap p).user_id h.clients ≡ none
    → lookup u h.clients ≡ some q
    → lookup u (register_client p h).clients ≡ some q
unfolding register_client
lookup-register_client_other p h u q fresh e =
    ground (arith, lookup-insert (h.heap p).user_id u p h.clients, int_eq_iff (h.heap p).user_id u)

-- A first connection of a user keeps the invariant.
pub register_client-Inv :
    (p : ℕ) (h : Hub)
    → Inv h
    → Distinct (h.heap p).room_ids
    → lookup (h.heap p).user_id h.clients ≡ none
    → (h.heap p).send.closed ≡ false
    → Inv (register_client p h)
register_client-Inv p h v d fresh open_ = record {
  owner = λ u q e. elim (registered p h u q e) [
    | inl (same, mine) ↦
        subst (λ x. ((register_client p h).heap x).user_id ≡ u) same
          (unfold register_client in mine)
    | inr (_, old) ↦ unfold register_client in v.owner u q old
  ];
  live = λ u q e. elim (registered p h u q e) [
    | inl (same, mine) ↦
        subst (λ x. ((register_client p h).heap x).send.closed ≡ false) same
          (unfold register_client in open_)
    | inr (_, old) ↦ unfold register_client in v.live u q old
  ];
  known = λ r u b e. elim (entered p h r u b d e) [
    | inl (mine, member) ↦ (
      p,
      subst (λ x. lookup x (register_client p h).clients ≡ some p) mine
          (lookup-register_client_self p h),
      unfold register_client in member,
    )
    | inr old ↦
        let (q, lq, hq) = v.known r u b old in
        (q, lookup-register_client_other p h u q fresh lq, unfold register_client in hq)
  ];
}
