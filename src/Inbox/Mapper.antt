-- ===== src/Inbox/Mapper.antt =====
-- cmd/server/internal/inbox/mapper.go and the FeedEntry of service.go.
use chattui.Common.{ℕ, ℤ, String, Option, none, some, if◌then◌else◌}
use chattui.Event.{InboxEntryUpdatedEvent}
use chattui.Store.Models.{Int8, Text}
use chattui.Store.Inbox.{ListInboxFeedRow, UpdateInboxCursorRow}

pub record FeedEntry : Type 0 where
  pub entry_type : String
  pub kind : String
  pub source_user_id : ℤ
  pub source_username : String
  pub ref_room_id : Option ℤ
  pub ref_room_name : Option String
  pub ref_conversation_id : Option ℤ
  pub unread_count : ℕ
  pub last_message_body : Option String
  pub last_message_sender_id : Option ℤ
  pub peer_id : ℤ
  pub peer_username : String
  pub created_at : ℤ

-- `if x.Valid { e.F = &x.Int64 }`
abbrev pub int_ref : Int8 → Option ℤ
int_ref x = if x.valid then some x.int64 else none

abbrev pub text_ref : Text → Option String
text_ref x = if x.valid then some x.string else none

unfoldable pub to_inbox_entry_updated_event : ℤ → FeedEntry → InboxEntryUpdatedEvent
to_inbox_entry_updated_event u e = record {
  user_id = u;
  entry_type = e.entry_type;
  entry_kind = e.kind;
  source_user_id = e.source_user_id;
  source_username = e.source_username;
  ref_room_id = e.ref_room_id;
  ref_room_name = e.ref_room_name;
  ref_conversation_id = e.ref_conversation_id;
  unread_count = e.unread_count;
  last_message_body = e.last_message_body;
  last_message_sender_id = e.last_message_sender_id;
  peer_id = e.peer_id;
  peer_username = e.peer_username;
}

unfoldable pub feed_entry_from_list : ListInboxFeedRow → FeedEntry
feed_entry_from_list row = record {
  entry_type = row.entry_type;
  kind = row.kind;
  source_user_id = row.source_user_id;
  source_username = row.source_username;
  ref_room_id = int_ref row.ref_room_id;
  ref_room_name = text_ref row.room_name;
  ref_conversation_id = int_ref row.ref_conversation_id;
  unread_count = row.unread_count;
  last_message_body = text_ref row.last_message_body;
  last_message_sender_id = int_ref row.last_message_sender_id;
  peer_id = row.peer_id;
  peer_username = row.peer_username;
  created_at = row.created_at.time;
}

-- The source's username of the row is not read: the entry has Go's empty text there.
unfoldable pub feed_entry_from_dm_update : UpdateInboxCursorRow → FeedEntry
feed_entry_from_dm_update row = record {
  entry_type = row.entry_type;
  kind = row.kind;
  source_user_id = row.source_user_id;
  source_username = "";
  ref_room_id = int_ref row.ref_room_id;
  ref_room_name = text_ref row.room_name;
  ref_conversation_id = int_ref row.ref_conversation_id;
  unread_count = row.unread_count;
  last_message_body = text_ref row.last_message_body;
  last_message_sender_id = int_ref row.last_message_sender_id;
  peer_id = row.peer_id;
  peer_username = row.peer_username;
  created_at = row.created_at.time;
}

unfoldable pub feed_entry_from_room_update : UpdateInboxCursorRow → FeedEntry
feed_entry_from_room_update row = record {
  entry_type = row.entry_type;
  kind = row.kind;
  source_user_id = row.source_user_id;
  source_username = "";
  ref_room_id = int_ref row.ref_room_id;
  ref_room_name = text_ref row.room_name;
  ref_conversation_id = int_ref row.ref_conversation_id;
  unread_count = row.unread_count;
  last_message_body = text_ref row.last_message_body;
  last_message_sender_id = int_ref row.last_message_sender_id;
  peer_id = row.peer_id;
  peer_username = row.peer_username;
  created_at = row.created_at.time;
}
