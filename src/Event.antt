-- ===== src/Event.antt =====
-- cmd/server/internal/event/event.go: the domain events. An interface value is a constructor.
use chattui.Common.{ℕ, ℤ, String, Option}

pub record RoomJoinedEvent : Type 0 where
  pub user_id : ℤ
  pub room_id : ℤ

pub record RoomLeftEvent : Type 0 where
  pub user_id : ℤ
  pub room_id : ℤ

pub record RoomMessageSentEvent : Type 0 where
  pub room_id : ℤ
  pub sender_id : ℤ
  pub message_id : ℤ
  pub body : String

pub record DirectMessageSentEvent : Type 0 where
  pub conversation_id : ℤ
  pub sender_id : ℤ
  pub recipient_id : ℤ
  pub message_id : ℤ
  pub body : String

pub record ConversationCreatedEvent : Type 0 where
  pub conversation_id : ℤ
  pub user_a_id : ℤ
  pub user_b_id : ℤ

pub record InboxEntryUpdatedEvent : Type 0 where
  pub user_id : ℤ
  pub entry_type : String
  pub entry_kind : String
  pub source_user_id : ℤ
  pub source_username : String
  pub ref_room_id : Option ℤ
  pub ref_room_name : Option String
  pub ref_conversation_id : Option ℤ
  pub unread_count : ℕ
  pub last_message_body : Option String
  pub last_message_sender_id : Option ℤ
  pub peer_id : ℤ
  pub peer_username : String

pub data Event : Type 0 where
  room_joined : RoomJoinedEvent → Event
  room_left : RoomLeftEvent → Event
  room_message_sent : RoomMessageSentEvent → Event
  direct_message_sent : DirectMessageSentEvent → Event
  conversation_created : ConversationCreatedEvent → Event
  inbox_entry_updated : InboxEntryUpdatedEvent → Event

unfoldable pub kind : Event → String
kind (room_joined e) = "room_join"
kind (room_left e) = "room_leave"
kind (room_message_sent e) = "room_message"
kind (direct_message_sent e) = "direct_message"
kind (conversation_created e) = "conversation_created"
kind (inbox_entry_updated e) = "inbox_entry_updated"
