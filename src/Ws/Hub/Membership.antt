-- ===== src/Ws/Hub/Membership.antt =====
-- `updateUserPresenceInRoom` of cmd/server/internal/ws/hub.go.
use chattui.Common.{
  ℕ, ℤ, Bool, true, some, Option-cases, ◌≡◌, sym, ◌∙◌, ap, arith, if◌then◌else◌, ◌==◌, int_key,
  nat_key, int_eq_iff, nat_eq_iff, inl, inr, Map, has, lookup, insert, delete, lookup-insert,
  lookup-delete, Bool-cases, ◌⊎◌, subst,
}
use chattui.Ws.Presence.{present, enter_room, leave_room, present-enter_room, present-leave_room}
use chattui.Ws.Hub.{Hub, Client, Chan, update, UserRoomPresent, update_user_presence_in_room}
use chattui.Ws.Hub.Invariant.{Inv}

-- A connection whose own list of rooms changes.
retitle : ℕ → Map ℤ Bool → (ℕ → Client) → ℕ → Client
unfolding update
retitle p ids heap = update heap p (record (heap p) { room_ids = ids })

retitle-user_id :
    (p : ℕ) (ids : Map ℤ Bool) (heap : ℕ → Client) (q : ℕ)
    → (retitle p ids heap q).user_id ≡ (heap q).user_id
unfolding retitle
retitle-user_id p ids heap q = ground (arith, nat_eq_iff p q)

retitle-send :
    (p : ℕ) (ids : Map ℤ Bool) (heap : ℕ → Client) (q : ℕ)
    → (retitle p ids heap q).send ≡ (heap q).send
unfolding retitle
retitle-send p ids heap q = ground (arith, nat_eq_iff p q)

retitle-room_ids :
    (p : ℕ) (ids : Map ℤ Bool) (heap : ℕ → Client) (q : ℕ)
    → (retitle p ids heap q).room_ids ≡ (if p == q then ids else (heap q).room_ids)
unfolding retitle
retitle-room_ids p ids heap q = ground (arith, nat_eq_iff p q)

-- The two changes of `updateUserPresenceInRoom`, at a user who is connected by `p`.
joined : ℤ → ℤ → ℕ → Hub → Hub
joined u r p h = record h {
  rooms = enter_room u true r h.rooms;
  heap = retitle p (insert r true (h.heap p).room_ids) h.heap;
}

left : ℤ → ℤ → ℕ → Hub → Hub
left u r p h = record h {
  rooms = leave_room u r h.rooms;
  heap = retitle p (delete r (h.heap p).room_ids) h.heap;
}

has-joined_self :
    (r s : ℤ) (p : ℕ) (h : Hub)
    → r ≡ s
    → has s (retitle p (insert r true (h.heap p).room_ids) h.heap p).room_ids ≡ true
has-joined_self r s p h same = ground (
  arith,
  retitle-room_ids p (insert r true (h.heap p).room_ids) h.heap p,
  lookup-insert r s true (h.heap p).room_ids,
  nat_eq_iff p p,
  int_eq_iff r s,
)

has-joined :
    (r s : ℤ) (p q : ℕ) (h : Hub)
    → has s (h.heap q).room_ids ≡ true
    → has s (retitle p (insert r true (h.heap p).room_ids) h.heap q).room_ids ≡ true
has-joined r s p q h e = ground (
  arith,
  retitle-room_ids p (insert r true (h.heap p).room_ids) h.heap q,
  lookup-insert r s true (h.heap p).room_ids,
  nat_eq_iff p q,
  int_eq_iff r s,
)

has-left :
    (r s : ℤ) (p q : ℕ) (h : Hub)
    → (p ≡ q → ¬ (r ≡ s))
    → has s (h.heap q).room_ids ≡ true
    → has s (retitle p (delete r (h.heap p).room_ids) h.heap q).room_ids ≡ true
has-left r s p q h apart e = ground (
  arith,
  retitle-room_ids p (delete r (h.heap p).room_ids) h.heap q,
  lookup-delete r s (h.heap p).room_ids,
  nat_eq_iff p q,
  int_eq_iff r s,
)

joined-Inv :
    (u r : ℤ) (p : ℕ) (h : Hub) → Inv h → lookup u h.clients ≡ some p → Inv (joined u r p h)
unfolding joined
joined-Inv u r p h v reg = record {
  owner = λ x q e. retitle-user_id p _ h.heap q ∙ v.owner x q e;
  live = λ x q e. ap (λ (c : Chan). c.closed) (retitle-send p _ h.heap q) ∙ v.live x q e;
  known = λ s x b e. elim (joined_cases s x b e) [
    | inl (room, user) ↦
        (p, subst (λ y. lookup y h.clients ≡ some p) user reg, has-joined_self r s p h room)
    | inr old ↦ let (q, lq, hq) = v.known s x b old in (q, lq, has-joined r s p q h hq)
  ];
}
  where
    joined_cases :
        (s x : ℤ) (b : Bool)
        → present (enter_room u true r h.rooms) s x ≡ some b
        → ((r ≡ s) × (u ≡ x)) ⊎ (present h.rooms s x ≡ some b)
    joined_cases s x b e =
        ground (arith, present-enter_room u true r h.rooms s x, int_eq_iff r s, int_eq_iff u x)

left-Inv : (u r : ℤ) (p : ℕ) (h : Hub) → Inv h → lookup u h.clients ≡ some p → Inv (left u r p h)
unfolding left
left-Inv u r p h v reg = record {
  owner = λ x q e. retitle-user_id p _ h.heap q ∙ v.owner x q e;
  live = λ x q e. ap (λ (c : Chan). c.closed) (retitle-send p _ h.heap q) ∙ v.live x q e;
  known = λ s x b e.
      let (old, other) = left_cases s x b e in
      let (q, lq, hq) = v.known s x b old in
      (
        q,
        lq,
        has-left r s p q h
            (λ same room.
              other
                (room, sym (v.owner u p reg) ∙ ap (λ y. (h.heap y).user_id) same ∙ v.owner x q lq))
            hq,
      );
}
  where
    left_cases :
        (s x : ℤ) (b : Bool)
        → present (leave_room u r h.rooms) s x ≡ some b
        → (present h.rooms s x ≡ some b) × ¬ ((r ≡ s) × (u ≡ x))
    left_cases s x b e =
        ground (arith, present-leave_room u r h.rooms s x, int_eq_iff r s, int_eq_iff u x)

pub update_user_presence_in_room-Inv :
    (u : UserRoomPresent) (h : Hub) → Inv h → Inv (update_user_presence_in_room u h)
unfolding update_user_presence_in_room joined left retitle
update_user_presence_in_room-Inv u h v = elim (Option-cases (lookup u.user_id h.clients)) [
  | inl e ↦ rw (e, update_user_presence_in_room) v
  | inr (p, e) ↦ elim (Bool-cases u.present) [
    | inl t ↦ rw (e, update_user_presence_in_room) (rw t (joined-Inv u.user_id u.room_id p h v e))
    | inr f ↦ elim (Option-cases (lookup u.room_id h.rooms)) [
      | inl none_ ↦ rw (e, update_user_presence_in_room) (rw f (rw none_ v))
      | inr (ms, some_) ↦
          rw (e, update_user_presence_in_room)
            (rw f (rw some_ (left-Inv u.user_id u.room_id p h v e)))
    ]
  ]
]
