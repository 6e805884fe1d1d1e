-- ===== src/Ws/Dispatch/Presence.antt =====
-- `dispatchUserRoomUpdate` of cmd/server/internal/ws/client.go: a client's own join and leave frames.
use chattui.Common.{
  ℤ, true, some, ◌==◌, int_key, nat_key, string_key, is_positive, has, lookup, lookup-insert,
  insert, ◌≡◌, arith, int_eq_iff, ℕ,
}
use chattui.Ws.Message.{Message, RoomPresencePayload, type_join_room}
use chattui.Ws.Presence.{present-enter_room}
use chattui.Ws.Hub.{Hub, Client, UserRoomPresent, update_user_presence_in_room}
use text.Mathlib.TextEquality.{eq_iff}
use chattui.Ws.Hub.Invariant.{update_self}
use chattui.Ws.Hub.Broadcast.Rounds.{online}
use chattui.Ws.Dispatch.{Codec, updates, dispatch_user_room_update}

-- A client changes no presence but that of its own user, and only in a room with a positive number.
pub update_is_own :
    (J : Codec) (c : Client) (msg : Message) (u : UserRoomPresent)
    → dispatch_user_room_update J c msg ≡ updates u
    → (u.user_id ≡ c.user_id)
      × (is_positive u.room_id ≡ true)
      × (u.present ≡ (msg.kind == type_join_room))
unfolding dispatch_user_room_update
update_is_own J c msg u h = ground arith

-- The hub after a user who is connected by `p` joined a room.
joined_hub :
    (h : Hub) (p : ℕ) (u r : ℤ)
    → lookup u h.clients ≡ some p
    → let h' =
        update_user_presence_in_room (record { user_id = u; room_id = r; present = true }) h in
      (has r (h'.heap p).room_ids ≡ true) × (online r u h' ≡ true)
unfolding update_user_presence_in_room
joined_hub h p u r reg =
    rw (reg, update_user_presence_in_room)
      (
        ground (
          arith,
          update_self h.heap p (record (h.heap p) { room_ids = insert r true (h.heap p).room_ids }),
          lookup-insert r r true (h.heap p).room_ids,
          int_eq_iff r r,
        ),
        ground (arith, present-enter_room u true r h.rooms r u, int_eq_iff r r, int_eq_iff u u),
      )

-- A connected client's own join frame is enough to be online in any room with a positive number and
-- to be let through by the membership test of its room messages: no membership of the database is
-- asked for.
pub join_frame_grants_room :
    (J : Codec) (h : Hub) (p : ℕ) (msg : Message) (q : RoomPresencePayload)
    → lookup (h.heap p).user_id h.clients ≡ some p
    → msg.kind ≡ type_join_room
    → J.unmarshal_presence msg.payload ≡ some q
    → is_positive q.room_id ≡ true
    → (u : UserRoomPresent) × (dispatch_user_room_update J (h.heap p) msg ≡ updates u)
      × (has q.room_id ((update_user_presence_in_room u h).heap p).room_ids ≡ true)
      × (online q.room_id (h.heap p).user_id (update_user_presence_in_room u h) ≡ true)
unfolding dispatch_user_room_update
join_frame_grants_room J h p msg q reg join e positive =
    let (knows, shown) = joined_hub h p (h.heap p).user_id q.room_id reg in
    (
      record { user_id = (h.heap p).user_id; room_id = q.room_id; present = true },
      ground (arith, eq_iff msg.kind type_join_room),
      knows,
      shown,
    )
