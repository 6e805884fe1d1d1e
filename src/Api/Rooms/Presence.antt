-- ===== src/Api/Rooms/Presence.antt =====
-- That the endpoints to join and leave a room change database, bus and hub together.
use chattui.Common.{
  ℤ, true, false, Option, none, some, Option-cases, [], ◌∷◌, ◌++◌, ◌≡◌, refl, inl, inr,
}
use chattui.Event.{room_joined, room_left}
use chattui.World.{World}
use chattui.Room.{Store, join, leave}
use chattui.Auth.Libraries.{Claims}
use chattui.Api.Rooms.{Reply, no_content, refused, handle_join, handle_leave}

module _ {D : Type 0} (S : Store D) where
  -- The change was stored for the caller, is the one new event, and is what the hub is told. An
  -- error publishes nothing and tells the hub nothing.
  abbrev pub Joined : Option Claims → Option ℤ → World D → Reply → World D → Type 0
  Joined claims room w (no_content updates) w' =
      (c : Claims) × (r : ℤ) × (claims ≡ some c)
      × (room ≡ some r)
      × (S.join_room (record { room_id = r; user_id = c.user_id }) w.db ≡ (none, w'.db))
      × (w'.events ≡ w.events ++ room_joined (record { user_id = c.user_id; room_id = r }) ∷ [])
      × (updates ≡ record { user_id = c.user_id; room_id = r; present = true } ∷ [])
  Joined claims room w (refused e) w' = w'.events ≡ w.events

  abbrev pub Left : Option Claims → Option ℤ → World D → Reply → World D → Type 0
  Left claims room w (no_content updates) w' =
      (c : Claims) × (r : ℤ) × (claims ≡ some c)
      × (room ≡ some r)
      × (S.leave_room (record { room_id = r; user_id = c.user_id }) w.db ≡ (none, w'.db))
      × (w'.events ≡ w.events ++ room_left (record { user_id = c.user_id; room_id = r }) ∷ [])
      × (updates ≡ record { user_id = c.user_id; room_id = r; present = false } ∷ [])
  Left claims room w (refused e) w' = w'.events ≡ w.events

  -- Joining answers "no content" only where there are claims and a room number, the store has added
  -- the caller to the room, exactly that is published, and exactly that is told to the hub; any
  -- other answer publishes nothing and tells the hub nothing.
  pub handle_join-Joined :
      (claims : Option Claims) (room : Option ℤ) (w : World D)
      → let (reply, w') = handle_join S claims room w in Joined claims room w reply w'
  unfolding handle_join join
  handle_join-Joined none room w = refl
  handle_join-Joined (some c) none w = refl
  handle_join-Joined (some c) (some r) w =
      let call = S.join_room (record { room_id = r; user_id = c.user_id }) w.db in
      elim (Option-cases call.0) [
        | inl p ↦ rw (p, join) (c, r, refl, refl, (λ i. (p i, call.1)), refl, refl)
        | inr (e, p) ↦ rw (p, join) refl
      ]

  -- Leaving answers "no content" only where there are claims and a room number, the store has taken
  -- the caller out of the room, exactly that is published, and exactly that is told to the hub; any
  -- other answer publishes nothing and tells the hub nothing.
  pub handle_leave-Left :
      (claims : Option Claims) (room : Option ℤ) (w : World D)
      → let (reply, w') = handle_leave S claims room w in Left claims room w reply w'
  unfolding handle_leave leave
  handle_leave-Left none room w = refl
  handle_leave-Left (some c) none w = refl
  handle_leave-Left (some c) (some r) w =
      let call = S.leave_room (record { room_id = r; user_id = c.user_id }) w.db in
      elim (Option-cases call.0) [
        | inl p ↦ rw (p, leave) (c, r, refl, refl, (λ i. (p i, call.1)), refl, refl)
        | inr (e, p) ↦ rw (p, leave) refl
      ]
