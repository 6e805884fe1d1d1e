-- ===== src/Store/Inbox.antt =====
-- cmd/server/internal/store/inbox.sql.go: the parameters and rows of the inbox queries. Unread
-- counts are numbers from 0 up: the column starts at 0, and the queries add 1 to it or set it to 0.
use chattui.Common.{ℕ, ℤ, String}
use chattui.Store.Models.{Int8, Text, Timestamptz}

pub record SaveInboxRoomEventParams : Type 0 where
  pub kind : String
  pub room_id : Int8
  pub source_user_id : ℤ

pub record UpsertInboxConversationCursorParams : Type 0 where
  pub user_id : ℤ
  pub ref_room_id : Int8
  pub ref_conversation_id : Int8

pub record UpdateInboxCursorOnRoomMessageParams : Type 0 where
  pub body : Text
  pub sender_id : Int8
  pub room_id : Int8

pub record UpdateInboxCursorOnDmMessageParams : Type 0 where
  pub body : Text
  pub sender_id : Int8
  pub recipient_id : ℤ
  pub conversation_id : Int8

pub record ListInboxFeedParams : Type 0 where
  pub lim : ℕ
  pub user_id : ℤ

pub record ResetRoomUnreadCountParams : Type 0 where
  pub room_id : Int8
  pub user_id : ℤ

pub record ResetDmUnreadCountParams : Type 0 where
  pub conversation_id : Int8
  pub user_id : ℤ

pub record ListInboxFeedRow : Type 0 where
  pub entry_type : String
  pub kind : String
  pub source_user_id : ℤ
  pub source_username : String
  pub ref_room_id : Int8
  pub ref_conversation_id : Int8
  pub unread_count : ℕ
  pub last_message_body : Text
  pub last_message_sender_id : Int8
  pub room_name : Text
  pub peer_id : ℤ
  pub peer_username : String
  pub created_at : Timestamptz

-- UpdateInboxCursorOnRoomMessageRow and UpdateInboxCursorOnDMMessageRow, which have the same fields.
pub record UpdateInboxCursorRow : Type 0 where
  pub row : ListInboxFeedRow
  pub open row use *
  pub user_id : ℤ
