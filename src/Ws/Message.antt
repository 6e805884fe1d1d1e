-- ===== src/Ws/Message.antt =====
-- cmd/server/internal/ws/message.go: the envelope, its type constants and the payload structs.
use chattui.Common.{ℕ, ℤ, String, List, Option}

-- json.RawMessage
abbrev pub Json : Type 0
Json = List ℕ

pub record Message : Type 0 where
  pub kind : String
  pub payload : Json
  pub timestamp : ℤ

abbrev pub type_room_message : String
type_room_message = "room_message"

abbrev pub type_direct_message : String
type_direct_message = "direct_message"

abbrev pub type_join_room : String
type_join_room = "join_room"

abbrev pub type_leave_room : String
type_leave_room = "leave_room"

abbrev pub type_inbox_updated : String
type_inbox_updated = "inbox_updated"

pub record RoomMessagePayload : Type 0 where
  pub room_id : ℤ
  pub content : String
  pub sender_id : ℤ
  pub sender_username : String
  pub message_id : ℤ

pub record DirectMessagePayload : Type 0 where
  pub to_user_id : ℤ
  pub content : String
  pub sender_id : ℤ
  pub sender_username : String
  pub conversation_id : ℤ
  pub message_id : ℤ

pub record RoomPresencePayload : Type 0 where
  pub room_id : ℤ

pub record InboxUpdatedPayload : Type 0 where
  pub entry_type : String
  pub kind : String
  pub source_user_id : ℤ
  pub source_username : String
  pub ref_room_id : Option ℤ
  pub ref_room_name : Option String
  pub ref_conversation_id : Option ℤ
  pub unread_count : ℕ
  pub last_message_body : Option String
  pub last_message_sender_id : Option ℤ
  pub peer_id : ℤ
  pub peer_username : String
