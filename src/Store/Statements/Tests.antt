-- ===== src/Store/Statements/Tests.antt =====
-- The queries at small inputs.
use chattui.Common.{pos, true, false, List, [], ◌∷◌, ◌==◌, int_key, ◌≡◌, refl}
use chattui.Errs.{Result, ok}
use chattui.Store.Models.{Message}
use chattui.Store.Params.{GetOrCreateConversationRow, ListMessagesByRoomRow}
use chattui.Store.Database.{Database}
use chattui.Store.Users.{GetUserByIdRow, get_user_by_id, get_user_by_username}
use chattui.Store.RoomMembers.{list_room_members}
use chattui.Store.Conversations as Conversations
use chattui.Store.Conversations.{least, greatest, list_conversations_by_user}
use chattui.Store.Messages.{list_messages_by_room}
use chattui.Store.Statements.{
  Statement, create_user, create_room, join_room, create_message, wait, run, room_store,
}
use chattui.Store.Statements.Keys.{empty}
use chattui.Store.Statements.Pairs.{conversation_is_one}
use chattui.Store.Statements.History.{sent_message_is_first}
use chattui.Store.Relations.{any}
use chattui.World.{World}
use chattui.Inbox.{int8}
use chattui.Room.{send_room_message, get_messages_by_room_id}

-- Two users, a room with one of them, and a message in it.
abbrev past : List Statement
past =
    wait (pos 20)
    ∷ create_message (record {
      room_id = int8 (pos 1);
      conversation_id = record { int64 = pos 0; valid = false };
      sender_id = pos 1;
      body = "hi";
    })
    ∷ join_room (record { room_id = pos 1; user_id = pos 1 })
    ∷ create_room (record { name = "Go"; slug = "go" })
    ∷ create_user (record { username = "bob"; password = "y" })
    ∷ create_user (record { username = "ana"; password = "z" })
    ∷ create_user (record { username = "ana"; password = "x" })
    ∷ wait (pos 10)
    ∷ []

abbrev here : Database
here = run past empty

abbrev world : World Database
world = record { db = here; events = [] }

second_ana_is_refused :
    get_user_by_username "bob" here
    ≡ ok (record {
      id = pos 3;
      username = "bob";
      password = "y";
      created_at = record { time = pos 10; valid = true };
    })
unfolding run get_user_by_username
second_ana_is_refused = refl

members_are_listed :
    list_room_members (pos 1) here ≡ ok ((record { id = pos 1; username = "ana" }) ∷ [])
unfolding run list_room_members
members_are_listed = refl

abbrev pair : GetOrCreateConversationRow
pair = record { id = pos 1; user_a = pos 1; user_b = pos 3; is_new = true }

abbrev with_pair : Database
with_pair =
    (Conversations.get_or_create_conversation (record { user_a = pos 3; user_b = pos 1 }) here).1

conversation_is_one_example :
    ((Conversations.get_or_create_conversation
        (record { user_a = pos 1; user_b = pos 3 })
        (run past with_pair)).0
      ≡ ok (record pair { is_new = false }))
    × (pos 1 ≡ least (pos 3) (pos 1))
    × (pos 3 ≡ greatest (pos 3) (pos 1))
    × ((pos 3 == pos 1) ≡ false)
unfolding run Conversations.get_or_create_conversation
conversation_is_one_example = conversation_is_one (pos 3) (pos 1) here with_pair pair refl past

abbrev sent : Result Message × World Database
sent = send_room_message room_store (pos 1) (pos 3) "ho" world

abbrev message : Message
message = record {
  id = pos 2;
  room_id = int8 (pos 1);
  conversation_id = record { int64 = pos 0; valid = false };
  sender_id = pos 3;
  body = "ho";
  created_at = record { time = pos 20; valid = true };
}

abbrev first_row : ListMessagesByRoomRow
first_row = record {
  id = pos 1;
  sender_id = pos 1;
  sender_username = "ana";
  body = "hi";
  created_at = record { time = pos 10; valid = true };
}

-- Behind the message: a room, a message to another room and one from nobody.
abbrev since : List Statement
since =
    create_message (record {
      room_id = int8 (pos 2);
      conversation_id = record { int64 = pos 0; valid = false };
      sender_id = pos 9;
      body = "hu";
    })
    ∷ create_message (record {
      room_id = int8 (pos 2);
      conversation_id = record { int64 = pos 0; valid = false };
      sender_id = pos 1;
      body = "he";
    })
    ∷ create_room (record { name = "Rust"; slug = "rust" })
    ∷ wait (pos 30)
    ∷ []

sent_message_is_first_example :
    (u : GetUserByIdRow) × (get_user_by_id (pos 3) here ≡ ok u)
    × (get_messages_by_room_id room_store (pos 1) 2 (record sent.1 { db = run since sent.1.db })
        ≡ ok (
            (record {
              id = pos 2;
              sender_id = pos 3;
              sender_username = u.username;
              body = "ho";
              created_at = record { time = pos 20; valid = true };
            })
            ∷ first_row
            ∷ []))
unfolding run any get_messages_by_room_id send_room_message list_messages_by_room
sent_message_is_first_example =
    sent_message_is_first past (pos 1) (pos 3) "ho" world sent.1 message 1 (first_row ∷ []) since
      refl refl refl refl refl
