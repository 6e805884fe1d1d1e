-- ===== src/Ws/Presence.antt =====
-- The map `rooms` of cmd/server/internal/ws/hub.go, which says who is online in each room, and the
-- loops over a client's rooms that maintain it.
use chattui.Common.{
  ℤ, Bool, Option, none, some, [], ◌∷◌, ◌≡◌, refl, inl, inr, arith, if◌then◌else◌, ◌==◌, ◌&&◌, Map,
  lookup, insert, delete, lookup-insert, lookup-nil, has, Distinct, lookup-delete, int_key,
  int_eq_iff, Option-cases,
}

-- roomID → set of user ids
abbrev pub Rooms : Type 0
Rooms = Map ℤ (Map ℤ Bool)

-- What `rooms[r][u]` holds.
unfoldable pub present : Rooms → ℤ → ℤ → Option Bool
present rooms r u = elim (lookup r rooms) [ none ↦ none | some members ↦ lookup u members ]

-- `if _, ok := rooms[r]; !ok { rooms[r] = make(...) }; rooms[r][u] = b`
unfoldable pub enter_room : ℤ → Bool → ℤ → Rooms → Rooms
enter_room u b r rooms = elim (lookup r rooms) [
  | none ↦ insert r (insert u b []) rooms
  | some members ↦ insert r (insert u b members) rooms
]

-- `if _, ok := rooms[r]; ok { delete(rooms[r], u) }`
unfoldable pub leave_room : ℤ → ℤ → Rooms → Rooms
leave_room u r rooms = elim (lookup r rooms) [
  | none ↦ rooms
  | some members ↦ insert r (delete u members) rooms
]

-- The loop of `registerClient`.
unfoldable pub enter_rooms : ℤ → Map ℤ Bool → Rooms → Rooms
enter_rooms u [] rooms = rooms
enter_rooms u ((r, b) ∷ ids) rooms = enter_rooms u ids (enter_room u b r rooms)

-- The loop of `unregisterClient` and `kickClient`.
unfoldable pub leave_rooms : ℤ → Map ℤ Bool → Rooms → Rooms
leave_rooms u [] rooms = rooms
leave_rooms u ((r, b) ∷ ids) rooms = leave_rooms u ids (leave_room u r rooms)

present-insert :
    (r : ℤ) (ms : Map ℤ Bool) (rooms : Rooms) (r' u' : ℤ)
    → present (insert r ms rooms) r' u' ≡ (if r == r' then lookup u' ms else present rooms r' u')
unfolding present
present-insert r ms rooms r' u' = ground (arith, lookup-insert r r' ms rooms)

pub present-enter_room :
    (u : ℤ) (b : Bool) (r : ℤ) (rooms : Rooms) (r' u' : ℤ)
    → present (enter_room u b r rooms) r' u'
      ≡ (if r == r' && u == u' then some b else present rooms r' u')
unfolding present enter_room
present-enter_room u b r rooms r' u' = elim (Option-cases (lookup r rooms)) [
  | inl e ↦
      rw (e, enter_room)
        (ground (
          arith,
          int_eq_iff r r',
          lookup-nil {V = Bool} u',
          present-insert r (insert u b []) rooms r' u',
          lookup-insert u u' b [],
        ))
  | inr (ms, e) ↦
      rw (e, enter_room)
        (ground (
          arith,
          int_eq_iff r r',
          present-insert r (insert u b ms) rooms r' u',
          lookup-insert u u' b ms,
        ))
]

pub present-leave_room :
    (u r : ℤ) (rooms : Rooms) (r' u' : ℤ)
    → present (leave_room u r rooms) r' u'
      ≡ (if r == r' && u == u' then none else present rooms r' u')
unfolding present leave_room
present-leave_room u r rooms r' u' = elim (Option-cases (lookup r rooms)) [
  | inl e ↦ rw (e, leave_room) (ground (arith, int_eq_iff r r'))
  | inr (ms, e) ↦
      rw (e, leave_room)
        (ground (
          arith,
          int_eq_iff r r',
          present-insert r (delete u ms) rooms r' u',
          lookup-delete u u' ms,
        ))
]

pub present-leave_rooms :
    (u : ℤ) (ids : Map ℤ Bool) (rooms : Rooms) (r' u' : ℤ)
    → present (leave_rooms u ids rooms) r' u'
      ≡ (if has r' ids && u == u' then none else present rooms r' u')
unfolding leave_rooms lookup
present-leave_rooms u [] rooms r' u' = refl
present-leave_rooms u ((r, b) ∷ ids) rooms r' u' = ground (
  arith,
  present-leave_rooms u ids (leave_room u r rooms) r' u',
  present-leave_room u r rooms r' u',
  int_eq_iff r r',
  int_eq_iff u u',
)

-- After the loop over a map without repeated keys, each of its rooms holds its value for `u`.
pub present-enter_rooms :
    (u : ℤ) (ids : Map ℤ Bool) (rooms : Rooms) (r' u' : ℤ)
    → Distinct ids
    → present (enter_rooms u ids rooms) r' u'
      ≡ (if has r' ids && u == u' then lookup r' ids else present rooms r' u')
unfolding enter_rooms lookup
present-enter_rooms u [] rooms r' u' d = refl
present-enter_rooms u ((r, b) ∷ ids) rooms r' u' d = ground (
  arith,
  present-enter_rooms u ids (enter_room u b r rooms) r' u' d.1,
  present-enter_room u b r rooms r' u',
  int_eq_iff r r',
  int_eq_iff u u',
)

pub present_nil : (r u : ℤ) → present [] r u ≡ none
unfolding present lookup
present_nil r u = refl
