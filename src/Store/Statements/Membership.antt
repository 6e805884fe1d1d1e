-- ===== src/Store/Statements/Membership.antt =====
-- The memberships of rooms, as cmd/server/internal/store/room_members.sql.go keeps them.
use chattui.Common.{
  ℤ, Bool, true, false, not, List, [], ◌∷◌, ◌==◌, ◌&&◌, ◌||◌, int_key, eqb-cases, eqb_refl,
  eqb_comm, eqb-eq_true, and_left, and_right, string_key, ◌≡◌, refl, sym, ap, ◌∙◌, arith,
  Bool-cases, inl, inr,
}
use mathlib.Core.Path.{fun_ext}
use mathlib.Core.Bool.{or-true, or-false}
use chattui.Errs.{ok}
use chattui.Store.Models.{Room, User}
use chattui.Store.Params.{JoinRoomParams, LeaveRoomParams}
use chattui.Store.Relations.{
  any, order_by, join_on, any-append, any-order_by, any-those, any-join_on, any-and,
}
use chattui.Store.Database.{Member, Database, has_user, has_room}
use chattui.Store.RoomMembers as RoomMembers
use chattui.Store.RoomMembers.{of_room_and_user, is_member, get_rooms_for_user}
use chattui.Store.Rooms.{newer_room}
use chattui.Store.Statements.{
  Statement, join_room, leave_room, get_or_create_conversation, execute, run,
}
use chattui.Store.Statements.Growth.{run-Grown, pair-adds, Extends-any}

-- A row of the user in the room.
abbrev pub member : ℤ → ℤ → Database → Bool
member r u d = any (of_room_and_user r u) d.room_members

-- What the statement says of it, from what was the case before.
abbrev pub after : Statement → ℤ → ℤ → Bool → Bool
after (join_room p) r u b = b || (p.room_id == r && p.user_id == u)
after (leave_room p) r u b = not (p.room_id == r && p.user_id == u) && b
after s r u b = b

-- Whether, after all of them, the last one of the list first, the user was last seen to join.
abbrev pub joined : List Statement → ℤ → ℤ → Bool → Bool
joined [] r u b = b
joined (s ∷ past) r u b = after s r u (joined past r u b)

-- What is asked of each row of the user in the room need not look at the row.
kept_row :
    (a b r u : ℤ) (m : Member)
    → (not (of_room_and_user a b m) && of_room_and_user r u m)
      ≡ (not (a == r && b == u) && of_room_and_user r u m)
kept_row a b r u m = elim (eqb-cases m.room_id r) [
  | inl (t, e) ↦ elim (eqb-cases m.user_id u) [
    | inl (t', e') ↦ rw (e, e', eqb_comm r a, eqb_comm u b) refl
    | inr (f, n) ↦ ground (arith, f)
  ]
  | inr (f, n) ↦ ground (arith, f)
]

room_row :
    (id r u : ℤ) (m : Member)
    → (of_room_and_user id u m && id == r) ≡ (id == r && of_room_and_user r u m)
room_row id r u m = elim (eqb-cases id r) [
  | inl (t, e) ↦ rw (e, eqb_refl r) (ground arith)
  | inr (f, n) ↦ ground (arith, f)
]

join_room_self :
    (d : Database) (r u : ℤ)
    → has_room d r ≡ true
    → has_user d u ≡ true
    → member r u (RoomMembers.join_room (record { room_id = r; user_id = u }) d).1 ≡ true
unfolding RoomMembers.join_room any
join_room_self d r u has_r has_u = ground (
  arith,
  any-append (of_room_and_user r u) d.room_members
      (record { room_id = r; user_id = u; joined_at = d.now } ∷ []),
  eqb_refl r,
  eqb_refl u,
)

join_room_other :
    (p : JoinRoomParams) (d : Database) (r u : ℤ)
    → (p.room_id == r && p.user_id == u) ≡ false
    → member r u (RoomMembers.join_room p d).1 ≡ member r u d
unfolding RoomMembers.join_room any
join_room_other p d r u other = ground (
  arith,
  any-append (of_room_and_user r u) d.room_members
      (record { room_id = p.room_id; user_id = p.user_id; joined_at = d.now } ∷ []),
)

leave_room-member :
    (p : LeaveRoomParams) (d : Database) (r u : ℤ)
    → member r u (RoomMembers.leave_room p d).1 ≡ after (leave_room p) r u (member r u d)
unfolding RoomMembers.leave_room
leave_room-member p d r u =
    any-those (of_room_and_user r u) (λ m. not (of_room_and_user p.room_id p.user_id m))
      d.room_members
    ∙ ap (λ q. any q d.room_members) (fun_ext (kept_row p.room_id p.user_id r u))
    ∙ any-and (not (p.room_id == r && p.user_id == u)) (of_room_and_user r u) d.room_members

any-pairs :
    (r u : ℤ) (ms : List Member) (rs : List Room)
    → any (λ (x : Room). any (λ m. of_room_and_user x.id u m && x.id == r) ms) rs
      ≡ (any (λ (x : Room). x.id == r) rs && any (of_room_and_user r u) ms)
unfolding any
any-pairs r u ms [] = refl
any-pairs r u ms (x ∷ rs) = ground (
  arith,
  ap (λ q. any q ms) (fun_ext (room_row x.id r u)),
  any-and (x.id == r) (of_room_and_user r u) ms,
  any-pairs r u ms rs,
)

-- The rooms that are listed for a user are those of which the user is a member.
pub get_rooms_for_user-member :
    (u : ℤ) (d : Database)
    → (rooms : List Room) × (get_rooms_for_user u d ≡ ok rooms)
      × ((r : ℤ) → any (λ (x : Room). x.id == r) rooms ≡ (has_room d r && member r u d))
unfolding get_rooms_for_user
get_rooms_for_user-member u d =
    let pairs =
      join_on (λ (r : Room) m. of_room_and_user r.id u m) (λ r m. r) d.rooms d.room_members in
    (
      order_by newer_room pairs,
      refl,
      λ r.
          any-order_by (λ (x : Room). x.id == r) newer_room pairs
          ∙ any-join_on (λ (x : Room). x.id == r) (λ (r : Room) m. of_room_and_user r.id u m)
              (λ r m. r) d.rooms d.room_members
          ∙ any-pairs r u d.room_members d.rooms,
    )

execute-member :
    (s : Statement) (d : Database) (r u : ℤ)
    → has_room d r ≡ true
    → has_user d u ≡ true
    → member r u (execute s d) ≡ after s r u (member r u d)
unfolding execute
execute-member (join_room p) d r u has_r has_u =
    elim (Bool-cases (p.room_id == r && p.user_id == u)) [
      | inl t ↦
          let e = eqb-eq_true (and_left _ _ t) in
          let e' = eqb-eq_true (and_right _ _ t) in
          let same : p ≡ record { room_id = r; user_id = u } =
            λ i. record { room_id = e i; user_id = e' i } in
          ap (λ x. member r u (RoomMembers.join_room x d).1) same
          ∙ join_room_self d r u has_r has_u
          ∙ rw t (sym (or-true (member r u d)))
      | inr f ↦ join_room_other p d r u f ∙ rw f (sym (or-false (member r u d)))
    ]
execute-member (leave_room p) d r u has_r has_u = leave_room-member p d r u
execute-member (get_or_create_conversation p) d r u has_r has_u = ap (member r u) (pair-adds p d)
execute-member s d r u has_r has_u = ground arith

pub run-member :
    (past : List Statement) (d : Database) (r u : ℤ)
    → has_room d r ≡ true
    → has_user d u ≡ true
    → member r u (run past d) ≡ joined past r u (member r u d)
unfolding run
run-member [] d r u has_r has_u = refl
run-member (s ∷ past) d r u has_r has_u =
    let g = run-Grown past d in
    execute-member s (run past d) r u
      (Extends-any (λ (x : Room). x.id == r) d.rooms _ g.rooms has_r)
      (Extends-any (λ (x : User). x.id == u) d.users _ g.users has_u)
    ∙ ap (after s r u) (run-member past d r u has_r has_u)
