-- ===== src/Dto.antt =====
-- pkg/dto: the records that the server sends and the client keeps. A pointer that may be nil is an
-- option; times are numbers.
use chattui.Common.{ℕ, ℤ, String, Option}

pub record InboxUser : Type 0 where
  pub id : ℤ
  pub username : String

pub record InboxRoom : Type 0 where
  pub id : ℤ
  pub name : String

pub record InboxLastMessage : Type 0 where
  pub body : String
  pub sender_id : ℤ

pub record InboxFeed : Type 0 where
  pub entry_type : String
  pub kind : String
  pub source_user : Option InboxUser
  pub room : Option InboxRoom
  pub ref_conversation_id : Option ℤ
  pub unread_count : ℕ
  pub last_message : Option InboxLastMessage
  pub created_at : ℤ

-- pkg/dto/room.go
pub record Room : Type 0 where
  pub id : ℤ
  pub name : String
  pub slug : String
  pub created_at : ℤ

-- pkg/dto/conversation.go
pub record Conversation : Type 0 where
  pub id : ℤ
  pub peer_id : ℤ
  pub peer_username : String

-- pkg/dto/user.go
pub record User : Type 0 where
  pub id : ℤ
  pub username : String
  pub created_at : ℤ

-- pkg/dto/auth.go
pub record Auth : Type 0 where
  pub user : User
  pub token : String
  pub expires_at : ℤ

-- Message of pkg/dto/room.go
pub record Message : Type 0 where
  pub id : ℤ
  pub room_id : Option ℤ
  pub conversation_id : Option ℤ
  pub sender_id : ℤ
  pub sender_username : String
  pub body : String
  pub created_at : ℤ
