-- ===== src/Ws/Dispatch/Tests.antt =====
-- The theorems about cmd/server/internal/ws/client.go at a codec that knows one payload.
use chattui.Common.{
  ℤ, pos, ℕ, String, true, false, Option, none, some, [], ◌∷◌, if◌then◌else◌, ◌==◌, int_key,
  string_key, nat_key, int_eq_iff, suc, ◌≡◌, refl, arith, has, lookup, insert, ◌&&◌,
}
use text.Mathlib.TextEquality.{eq_iff}
use chattui.Errs.{ok}
use chattui.Store.Models
use chattui.Ws.Message.{
  Json, Message, RoomMessagePayload, DirectMessagePayload, type_room_message, type_join_room,
  type_direct_message,
}
use chattui.Ws.Hub.{
  Client, UserRoomPresent, Hub, new_hub, register_client, update_user_presence_in_room,
}
use chattui.Ws.Hub.Broadcast.Rounds.{online}
use chattui.Ws.Dispatch.Direct
use chattui.Ws.Dispatch.{
  Codec, Senders, updates, room_broadcast, direct_broadcast, dispatch_room_message,
  dispatch_direct_message, dispatch_user_room_update,
}
use chattui.Ws.Dispatch.Room.{IsAuthentic, IsAccepted, room_broadcast_is_stored}
use chattui.Ws.Dispatch.Direct.{direct_broadcast_is_stored, refused_direct_message_is_dropped}
use chattui.Ws.Dispatch.Presence.{join_frame_grants_room}

abbrev ana : Client
ana = record {
  user_id = pos 10;
  username = "ana";
  room_ids = (pos 1, true) ∷ [];
  send = record { buffer = []; closed = false };
}

-- What the client sends, with a sender that is not its own, and what is broadcast.
abbrev forged_room : RoomMessagePayload
forged_room = record {
  room_id = pos 1;
  content = "hi";
  sender_id = pos 99;
  sender_username = "eve";
  message_id = pos 0;
}

abbrev true_room : RoomMessagePayload
true_room = record {
  room_id = pos 1;
  content = "hi";
  sender_id = pos 10;
  sender_username = "ana";
  message_id = pos 5;
}

abbrev forged_direct : DirectMessagePayload
forged_direct = record {
  to_user_id = pos 11;
  content = "hi";
  sender_id = pos 99;
  sender_username = "eve";
  conversation_id = pos 0;
  message_id = pos 0;
}

abbrev true_direct : DirectMessagePayload
true_direct = record {
  to_user_id = pos 11;
  content = "hi";
  sender_id = pos 10;
  sender_username = "ana";
  conversation_id = pos 0;
  message_id = pos 5;
}

abbrev int_code : ℤ → ℕ
int_code (pos n) = n
int_code x = 0

-- It writes the number of the stored message, and writes the payloads above alone.
abbrev json_of : RoomMessagePayload → Option Json
json_of p =
    if p.room_id == pos 1
      && p.content == "hi"
      && p.sender_id == pos 10
      && p.sender_username == "ana"
      && p.message_id == pos 5
    then some (5 ∷ [])
    else none

abbrev json_of_direct : DirectMessagePayload → Option Json
json_of_direct p =
    if p.to_user_id == pos 11
      && p.content == "hi"
      && p.sender_id == pos 10
      && p.sender_username == "ana"
      && p.conversation_id == pos 0
      && p.message_id == pos 5
    then some (5 ∷ [])
    else none

abbrev small : Codec
small = record {
  unmarshal_message = λ j. none;
  unmarshal_room = elim [ [] ↦ none | x ∷ r ↦ if x == 5 then some true_room else some forged_room ];
  unmarshal_direct = elim [
    | [] ↦ none
    | x ∷ r ↦ if x == 5 then some true_direct else some forged_direct
  ];
  unmarshal_presence = λ j. some (record { room_id = pos 3 });
  marshal_room = json_of;
  marshal_direct = json_of_direct;
}

small_room_back :
    (q : RoomMessagePayload) (j : Json)
    → small.marshal_room q ≡ some j
    → small.unmarshal_room j ≡ some q
small_room_back q j e = ground (
  arith,
  int_eq_iff q.room_id (pos 1),
  eq_iff q.content "hi",
  int_eq_iff q.sender_id (pos 10),
  eq_iff q.sender_username "ana",
  int_eq_iff q.message_id (pos 5),
)

small_direct_back :
    (q : DirectMessagePayload) (j : Json)
    → small.marshal_direct q ≡ some j
    → small.unmarshal_direct j ≡ some q
small_direct_back q j e = ground (
  arith,
  int_eq_iff q.to_user_id (pos 11),
  eq_iff q.content "hi",
  int_eq_iff q.sender_id (pos 10),
  eq_iff q.sender_username "ana",
  int_eq_iff q.conversation_id (pos 0),
  int_eq_iff q.message_id (pos 5),
)

abbrev stored : Models.Message
stored = record {
  id = pos 5;
  room_id = record { int64 = pos 1; valid = true };
  conversation_id = record { int64 = pos 0; valid = false };
  sender_id = pos 10;
  body = "hi";
  created_at = record { time = pos 0; valid = true };
}

-- The state of the services counts the calls.
abbrev counting : Senders ℕ
counting = record {
  send_room_message = λ r u body n. (ok stored, suc n);
  send_direct_message = λ u to body n. (ok stored, suc n);
}

abbrev envelope : String → Json → Message
envelope k j = record { kind = k; payload = j; timestamp = pos 0 }

room_broadcast_is_stored_example :
    (p : RoomMessagePayload) × (m : Models.Message) × (small.unmarshal_room (1 ∷ []) ≡ some p)
    × IsAccepted ana p
    × (counting.send_room_message p.room_id (pos 10) p.content 0 ≡ (ok m, 1))
    × IsAuthentic small ana p m
        (room_broadcast (envelope type_room_message (1 ∷ [])) forged_room (5 ∷ []))
unfolding dispatch_room_message lookup
room_broadcast_is_stored_example =
    room_broadcast_is_stored small counting small_room_back ana
      (envelope type_room_message (1 ∷ [])) 0 1
      (room_broadcast (envelope type_room_message (1 ∷ [])) forged_room (5 ∷ [])) refl

direct_broadcast_is_stored_example :
    (p : DirectMessagePayload) × (m : Models.Message) × (small.unmarshal_direct (1 ∷ []) ≡ some p)
    × Direct.IsAccepted p
    × (counting.send_direct_message (pos 10) p.to_user_id p.content 0 ≡ (ok m, 1))
    × Direct.IsAuthentic small ana p m
        (direct_broadcast ana (envelope type_direct_message (1 ∷ [])) forged_direct (5 ∷ []))
unfolding dispatch_direct_message
direct_broadcast_is_stored_example =
    direct_broadcast_is_stored small counting small_direct_back ana
      (envelope type_direct_message (1 ∷ [])) 0 1
      (direct_broadcast ana (envelope type_direct_message (1 ∷ [])) forged_direct (5 ∷ [])) refl

abbrev ana_hub : Hub
ana_hub = register_client 0 (new_hub (λ p. ana))

-- User 10 knows of room 1 alone, and joins room 3 by a frame.
join_frame_grants_room_example :
    (u : UserRoomPresent) × (dispatch_user_room_update small ana (envelope type_join_room [])
      ≡ updates u)
    × (has (pos 3) ((update_user_presence_in_room u ana_hub).heap 0).room_ids ≡ true)
    × (online (pos 3) (pos 10) (update_user_presence_in_room u ana_hub) ≡ true)
unfolding register_client new_hub lookup insert
join_frame_grants_room_example =
    join_frame_grants_room small ana_hub 0 (envelope type_join_room []) (record { room_id = pos 3 })
      refl refl refl refl
