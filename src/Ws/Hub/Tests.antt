-- ===== src/Ws/Hub/Tests.antt =====
-- The theorems about the hub of cmd/server/internal/ws/hub.go at a small hub, and runs of it.
use chattui.Common.{
  ℕ, ℤ, pos, Bool, true, false, ◌≡◌, refl, List, [], ◌∷◌, arith, int_key, nat_key, lookup, insert,
  contains, if◌then◌else◌, ◌==◌, replicate,
}
use chattui.Ws.Message.{Message, type_room_message}
use chattui.Ws.Presence.{present, enter_rooms, enter_room}
use chattui.Ws.Hub.{
  Hub, Client, Chan, panic, close_of_closed, nil_client, BroadcastMsg, Action, register, unregister,
  broadcast, presence, broadcast_message, register_client, new_hub, step, run, unregister_client,
  update_user_presence_in_room,
}
use chattui.Ws.Hub.Invariant.{Inv, new_hub-Inv}
use chattui.Ws.Hub.Registration.{register_client-Inv}
use chattui.Ws.Hub.Broadcast.Loop.{Reached}
use chattui.Ws.Hub.Broadcast.Rounds.{online}
use chattui.Ws.Hub.Safety.{
  Succeeds, run_never_panics, broadcast_room_delivers, broadcast_users_delivers,
}
use chattui.Ws.Hub.Faults.{kicked_member_panics_at_unregister, second_connection_panics}

abbrev hello : Message
hello = record { kind = type_room_message; payload = 1 ∷ 2 ∷ []; timestamp = pos 7 }

abbrev empty_chan : Chan
empty_chan = record { buffer = []; closed = false }

abbrev in_rooms : ℤ → List (ℤ × Bool) → Client
in_rooms u ids = record { user_id = u; username = "ana"; room_ids = ids; send = empty_chan }

-- Pointers 0 and 1: users 10 and 11 in room 1. Pointer 2: user 10 again, in rooms 1 and 2. Pointer 3:
-- user 12 in room 1, with a full channel.
abbrev people : ℕ → Client
people p =
    if p == 0
    then in_rooms (pos 10) ((pos 1, true) ∷ [])
    else if p == 1
    then in_rooms (pos 11) ((pos 1, true) ∷ [])
    else if p == 2
    then in_rooms (pos 10) ((pos 1, true) ∷ (pos 2, true) ∷ [])
    else (record {
      user_id = pos 12;
      username = "leo";
      room_ids = (pos 1, true) ∷ [];
      send = record { buffer = replicate 256 hello; closed = false };
    })

one_online : Hub
one_online = register_client 0 (new_hub people)

one_online-Inv : Inv one_online
unfolding one_online new_hub lookup
one_online-Inv = register_client-Inv 0 (new_hub people) (new_hub-Inv people) (refl, tt) refl refl

full_online : Hub
full_online = register_client 3 (new_hub people)

full_online-Inv : Inv full_online
unfolding full_online new_hub lookup
full_online-Inv = register_client-Inv 3 (new_hub people) (new_hub-Inv people) (refl, tt) refl refl

abbrev to_room : ℤ → BroadcastMsg
to_room r = record { msg = hello; target_room_id = r; target_user_ids = [] }

abbrev to_users : List ℤ → BroadcastMsg
to_users us = record { msg = hello; target_room_id = pos 0; target_user_ids = us }

full_covers : (u : ℤ) → online (pos 1) u full_online ≡ true → contains u (pos 12 ∷ []) ≡ true
unfolding full_online register_client new_hub lookup insert contains enter_rooms enter_room present
full_covers u e = ground arith

one_covers : (u : ℤ) → online (pos 1) u one_online ≡ true → contains u (pos 10 ∷ []) ≡ true
unfolding one_online register_client new_hub lookup insert contains enter_rooms enter_room present
one_covers u e = ground arith

-- User 10 connects, joins room 2 and disconnects.
abbrev visit : List Action
visit =
    register 0
    ∷ presence (record { user_id = pos 10; room_id = pos 2; present = true })
    ∷ unregister 0
    ∷ []

run_never_panics_example : Succeeds Inv (run visit (new_hub people))
unfolding step register_client update_user_presence_in_room unregister_client new_hub lookup insert
run_never_panics_example =
    run_never_panics visit people (((refl, tt), refl, refl), (tt, (refl, tt)))

broadcast_room_delivers_example :
    Succeeds
      (Reached (online (pos 1) (pos 10) one_online) hello (pos 10) 0 one_online)
      (broadcast_message (to_room (pos 1)) (pos 10 ∷ []) one_online)
unfolding one_online register_client new_hub lookup insert contains
broadcast_room_delivers_example =
    broadcast_room_delivers (to_room (pos 1)) (pos 10 ∷ []) one_online one_online-Inv refl
      (refl, tt) one_covers (pos 10) 0 refl

broadcast_users_delivers_example :
    Succeeds
      (Reached (contains (pos 10) (pos 9 ∷ pos 10 ∷ [])) hello (pos 10) 0 one_online)
      (broadcast_message (to_users (pos 9 ∷ pos 10 ∷ [])) [] one_online)
unfolding one_online register_client new_hub lookup insert contains
broadcast_users_delivers_example =
    broadcast_users_delivers (to_users (pos 9 ∷ pos 10 ∷ [])) [] one_online one_online-Inv refl
      (refl, (refl, tt)) (pos 10) 0 refl

kicked_member_panics_at_unregister_example :
    run (broadcast (to_room (pos 1)) (pos 12 ∷ []) ∷ unregister 3 ∷ []) full_online
    ≡ panic close_of_closed
unfolding full_online register_client new_hub lookup insert contains enter_rooms enter_room present
kicked_member_panics_at_unregister_example =
    kicked_member_panics_at_unregister (to_room (pos 1)) (pos 12 ∷ []) full_online full_online-Inv
      refl (refl, tt) full_covers (pos 12) 3 refl refl refl

second_connection_panics_example :
    run (register 2 ∷ unregister 0 ∷ broadcast (to_room (pos 2)) (pos 10 ∷ []) ∷ []) one_online
    ≡ panic nil_client
unfolding one_online register_client new_hub lookup insert
second_connection_panics_example =
    second_connection_panics (to_room (pos 2)) [] one_online 0 2 (pos 10) one_online-Inv refl refl
      (refl, (refl, tt)) refl refl refl
