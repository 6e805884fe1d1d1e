-- ===== src/Inbox/Tests.antt =====
-- The theorems about cmd/server/internal/inbox at a store that counts its calls.
use chattui.Common.{ℕ, ◌+◌, pos, true, false, none, some, [], ◌∷◌, ◌≡◌, refl}
use chattui.Errs.{ok}
use chattui.Event.{RoomMessageSentEvent, DirectMessageSentEvent}
use chattui.Store.Inbox.{ListInboxFeedRow, UpdateInboxCursorRow}
use chattui.World.{World}
use chattui.Inbox.{Store, int8, null_int8, text, mark_as_read}
use chattui.Inbox.Read.{reset, selection, mark_as_read-eq_reset}

abbrev room_row : ListInboxFeedRow
room_row = record {
  entry_type = "message";
  kind = "room";
  source_user_id = pos 1;
  source_username = "ana";
  ref_room_id = int8 (pos 4);
  ref_conversation_id = null_int8;
  unread_count = 3;
  last_message_body = text "hi";
  last_message_sender_id = int8 (pos 1);
  room_name = text "go";
  peer_id = pos 0;
  peer_username = "";
  created_at = record { time = pos 0; valid = true };
}

abbrev row_of_2 : UpdateInboxCursorRow
row_of_2 = record { row = room_row; user_id = pos 2 }

abbrev counting : Store ℕ
counting = record {
  save_inbox_room_event = λ p d. (none, d + 1);
  upsert_inbox_conversation_cursor = λ p d. (none, d + 1);
  update_inbox_cursor_on_room_message = λ p d. (row_of_2 ∷ [], none, d + 1);
  update_inbox_cursor_on_dm_message = λ p d. (row_of_2 ∷ [], none, d + 1);
  list_inbox_feed = λ p d. (ok (room_row ∷ []), d);
  reset_room_unread_count = λ p d. (none, d + 10);
  reset_dm_unread_count = λ p d. (none, d + 20);
  reset_all_unread_count = λ u d. (none, d + 30);
}

abbrev start : World ℕ
start = record { db = 0; events = [] }

abbrev room_event : RoomMessageSentEvent
room_event = record { room_id = pos 4; sender_id = pos 1; message_id = pos 9; body = "hi" }

abbrev direct_event : DirectMessageSentEvent
direct_event = record {
  conversation_id = pos 5;
  sender_id = pos 1;
  recipient_id = pos 2;
  message_id = pos 9;
  body = "hi";
}

mark_as_read-eq_reset_example :
    mark_as_read counting none (some (pos 4)) false (pos 2) start
    ≡ reset counting (selection none (some (pos 4)) false) (pos 2) start
mark_as_read-eq_reset_example =
    mark_as_read-eq_reset counting none (some (pos 4)) false (pos 2) start

-- Reading a room.
reading_a_room :
    mark_as_read counting none (some (pos 4)) false (pos 2) start
    ≡ (none, record { db = 10; events = [] })
unfolding mark_as_read
reading_a_room = refl
