-- ===== src/Ws/Dispatch.antt =====
-- cmd/server/internal/ws/client.go: what a connected client's read loop does with each frame. JSON
-- and the two services that the client calls are parameters.
pub mod Room
pub mod Direct
pub mod Presence
mod Tests
use chattui.Common.{
  ℤ, String, Bool, true, false, not, Option, none, some, List, [], ◌∷◌, if◌then◌else◌, ◌==◌, ◌||◌,
  int_key, string_key, pos, is_positive, Map, has,
}
use chattui.Errs.{Result, ok, err}
use chattui.Store.Models
use chattui.Ws.Message.{
  Json, Message, RoomMessagePayload, DirectMessagePayload, RoomPresencePayload, type_room_message,
  type_direct_message, type_join_room, type_leave_room,
}
use chattui.Ws.Hub.{Client, BroadcastMsg, UserRoomPresent}

-- encoding/json at the types of the package; `none` is an error.
pub record Codec : Type 0 where
  pub unmarshal_message : Json → Option Message
  pub unmarshal_room : Json → Option RoomMessagePayload
  pub unmarshal_direct : Json → Option DirectMessagePayload
  pub unmarshal_presence : Json → Option RoomPresencePayload
  pub marshal_room : RoomMessagePayload → Option Json
  pub marshal_direct : DirectMessagePayload → Option Json

-- The interfaces roomSender and dmSender, over the state `S` that the services change.
pub record Senders (S : Type 0) : Type 0 where
  pub send_room_message : ℤ → ℤ → String → S → Result Models.Message × S
  pub send_direct_message : ℤ → ℤ → String → S → Result Models.Message × S

-- What the read loop hands to the hub.
pub data Handed : Type 0 where
  nothing : Handed
  broadcasts : BroadcastMsg → Handed
  updates : UserRoomPresent → Handed

-- `roomMsgPayload.RoomID == 0 || roomMsgPayload.Content == "" || !clientInRoom`
abbrev pub refuses_room : Client → RoomMessagePayload → Bool
refuses_room c p = p.room_id == pos 0 || p.content == "" || not (has p.room_id c.room_ids)

abbrev pub refuses_direct : DirectMessagePayload → Bool
refuses_direct p = p.to_user_id == pos 0 || p.content == ""

-- The payload as it is broadcast.
abbrev pub complete_room : Client → RoomMessagePayload → Models.Message → RoomMessagePayload
complete_room c p m = record p {
  sender_id = c.user_id;
  sender_username = c.username;
  message_id = m.id;
}

abbrev pub complete_direct : Client → DirectMessagePayload → Models.Message → DirectMessagePayload
complete_direct c p m = record p {
  sender_id = c.user_id;
  sender_username = c.username;
  message_id = m.id;
}

abbrev pub room_broadcast : Message → RoomMessagePayload → Json → BroadcastMsg
room_broadcast msg p j = record {
  msg = record { kind = msg.kind; payload = j; timestamp = msg.timestamp };
  target_room_id = p.room_id;
  target_user_ids = [];
}

abbrev pub direct_broadcast : Client → Message → DirectMessagePayload → Json → BroadcastMsg
direct_broadcast c msg p j = record {
  msg = record { kind = msg.kind; payload = j; timestamp = msg.timestamp };
  target_room_id = pos 0;
  target_user_ids = c.user_id ∷ p.to_user_id ∷ [];
}

module _ (J : Codec) where
  -- The part of `dispatchRoomMessage` behind the call of the service.
  unfoldable pub after_room_sent :
      Client → Message → RoomMessagePayload → Result Models.Message → Handed
  after_room_sent c msg p (err e) = nothing
  after_room_sent c msg p (ok m) = elim (J.marshal_room (complete_room c p m)) [
    | none ↦ nothing
    | some j ↦ broadcasts (room_broadcast msg p j)
  ]

  -- The same for `dispatchDirectMessage`.
  unfoldable pub after_direct_sent :
      Client → Message → DirectMessagePayload → Result Models.Message → Handed
  after_direct_sent c msg p (err e) = nothing
  after_direct_sent c msg p (ok m) = elim (J.marshal_direct (complete_direct c p m)) [
    | none ↦ nothing
    | some j ↦ broadcasts (direct_broadcast c msg p j)
  ]

module _ (J : Codec) {S : Type 0} (V : Senders S) where
  unfoldable pub dispatch_room_message : Client → Message → S → Handed × S
  unfolding after_room_sent
  dispatch_room_message c msg s = elim (J.unmarshal_room msg.payload) [
    | none ↦ (nothing, s)
    | some p ↦
        if refuses_room c p
        then (nothing, s)
        else (let (r, s') = V.send_room_message p.room_id c.user_id p.content s in
            (after_room_sent J c msg p r, s'))
  ]

  unfoldable pub dispatch_direct_message : Client → Message → S → Handed × S
  unfolding after_direct_sent
  dispatch_direct_message c msg s = elim (J.unmarshal_direct msg.payload) [
    | none ↦ (nothing, s)
    | some p ↦
        if refuses_direct p
        then (nothing, s)
        else (let (r, s') = V.send_direct_message c.user_id p.to_user_id p.content s in
            (after_direct_sent J c msg p r, s'))
  ]

module _ (J : Codec) where
  unfoldable pub dispatch_user_room_update : Client → Message → Handed
  dispatch_user_room_update c msg = elim (J.unmarshal_presence msg.payload) [
    | none ↦ nothing
    | some p ↦
        if is_positive p.room_id
        then updates (record {
          user_id = c.user_id;
          room_id = p.room_id;
          present = msg.kind == type_join_room;
        })
        else nothing
  ]

module _ (J : Codec) {S : Type 0} (V : Senders S) where
  -- The `switch msg.Type` of `ReadPump`.
  unfoldable pub dispatch : Client → Message → S → Handed × S
  dispatch c msg s =
      if msg.kind == type_room_message
      then dispatch_room_message J V c msg s
      else if msg.kind == type_direct_message
      then dispatch_direct_message J V c msg s
      else if msg.kind == type_join_room || msg.kind == type_leave_room
      then (dispatch_user_room_update J c msg, s)
      else (nothing, s)

  -- One frame of `ReadPump`: what does not parse is skipped.
  unfoldable pub read_frame : Client → Json → S → Handed × S
  unfolding dispatch
  read_frame c data_ s = elim (J.unmarshal_message data_) [
    | none ↦ (nothing, s)
    | some msg ↦ dispatch c msg s
  ]
