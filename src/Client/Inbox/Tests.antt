-- ===== src/Client/Inbox/Tests.antt =====
-- The theorems about the inbox screen at a room with three unread messages and a conversation with
-- two.
use chattui.Common.{
  ◌+◌, pos, true, Option, none, some, List, [], ◌∷◌, insert, ◌≡◌, refl, string_key,
}
use chattui.Store.Inbox.{ListInboxFeedRow, UpdateInboxCursorRow}
use chattui.Inbox.{int8, null_int8, text}
use chattui.Inbox.Mapper.{
  feed_entry_from_list, feed_entry_from_room_update, to_inbox_entry_updated_event,
}
use chattui.Dto.{InboxFeed}
use chattui.Ws.Message.{Json, InboxUpdatedPayload}
use chattui.Ws.Hub.{BroadcastMsg}
use chattui.Ws.Notify.{inbox_payload, inbox_broadcast, handle_inbox_entry_updated}
use chattui.Api.Inbox.{to_inbox_res}
use chattui.Client.Inbox.{
  inbox_entry_from_payload, same_entry, compute_badges, rooms_total, dms_total, upsert_entry,
}
use chattui.Client.Inbox.Agreement.{IsCursorRow, pushed_entry_is_listed}
use chattui.Client.Inbox.Badges.{unread_sum, badges_count_unread}

abbrev room_entry : InboxFeed
room_entry = record {
  entry_type = "conversation";
  kind = "";
  source_user = none;
  room = some (record { id = pos 4; name = "go" });
  ref_conversation_id = none;
  unread_count = 3;
  last_message = some (record { body = "hi"; sender_id = pos 1 });
  created_at = pos 0;
}

abbrev direct_entry : InboxFeed
direct_entry = record room_entry {
  source_user = some (record { id = pos 1; username = "ana" });
  room = none;
  ref_conversation_id = some (pos 5);
  unread_count = 2;
}

abbrev joined_entry : InboxFeed
joined_entry = record room_entry { entry_type = "event"; kind = "room_join"; unread_count = 0 }

abbrev entries : List InboxFeed
entries = room_entry ∷ joined_entry ∷ direct_entry ∷ []

badges_count_unread_example :
    rooms_total (compute_badges entries) + dms_total (compute_badges entries) ≡ unread_sum entries
unfolding same_entry
badges_count_unread_example =
    badges_count_unread entries (tt, (tt, (tt, tt))) ((refl, (refl, tt)), ((refl, tt), (tt, tt)))

abbrev cursor_row : ListInboxFeedRow
cursor_row = record {
  entry_type = "conversation";
  kind = "";
  source_user_id = pos 0;
  source_username = "";
  ref_room_id = int8 (pos 4);
  ref_conversation_id = null_int8;
  unread_count = 3;
  last_message_body = text "hi";
  last_message_sender_id = int8 (pos 1);
  room_name = text "go";
  peer_id = pos 0;
  peer_username = "";
  created_at = record { time = pos 0; valid = true };
}

abbrev row_of_2 : UpdateInboxCursorRow
row_of_2 = record { row = cursor_row; user_id = pos 2 }

abbrev the_payload : InboxUpdatedPayload
the_payload =
    inbox_payload (to_inbox_entry_updated_event (pos 2) (feed_entry_from_room_update row_of_2))

cursor_row-IsCursorRow : IsCursorRow cursor_row
cursor_row-IsCursorRow = record {
  is_conversation = refl;
  no_kind = refl;
  no_source = refl;
  room_is_named = refl;
  peer_is_named = refl;
}

-- JSON that knows one text, for one payload.
abbrev marshal : InboxUpdatedPayload → Option Json
marshal p = some (123 ∷ [])

abbrev unmarshal : Json → Option InboxUpdatedPayload
unmarshal j = some the_payload

abbrev sent : BroadcastMsg
sent =
    inbox_broadcast (to_inbox_entry_updated_event (pos 2) (feed_entry_from_room_update row_of_2))
      (123 ∷ [])

pushed_entry_is_listed_example :
    (sent.target_user_ids ≡ pos 2 ∷ [])
    × ((p : InboxUpdatedPayload) × (unmarshal sent.msg.payload ≡ some p)
        × (inbox_entry_from_payload (pos 7) p
            ≡ record (to_inbox_res (feed_entry_from_list cursor_row)) { created_at = pos 7 }))
unfolding handle_inbox_entry_updated
pushed_entry_is_listed_example =
    pushed_entry_is_listed marshal unmarshal row_of_2 (pos 7) sent cursor_row-IsCursorRow
      (λ j w. refl) refl

-- The first badge is the room's, the second the conversation's.
badges_of_entries :
    (rooms_total (compute_badges entries) ≡ 3) × (dms_total (compute_badges entries) ≡ 2)
unfolding rooms_total dms_total compute_badges insert
badges_of_entries = (refl, refl)

-- A new message of the room takes the place of its entry, and of the entry that someone joined it.
entry_of_a_message : upsert_entry entries room_entry ≡ room_entry ∷ direct_entry ∷ []
unfolding upsert_entry same_entry
entry_of_a_message = refl
