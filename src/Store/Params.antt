-- ===== src/Store/Params.antt =====
-- cmd/server/internal/store/{rooms,room_members,messages,conversations}.sql.go: the parameters and
-- rows of the queries that the room and conversation services make.
use chattui.Common.{ℕ, ℤ, String, Bool}
use chattui.Store.Models.{Int8, Timestamptz}

pub record CreateRoomParams : Type 0 where
  pub name : String
  pub slug : String

pub record JoinRoomParams : Type 0 where
  pub room_id : ℤ
  pub user_id : ℤ

pub record LeaveRoomParams : Type 0 where
  pub room_id : ℤ
  pub user_id : ℤ

pub record CreateMessageParams : Type 0 where
  pub room_id : Int8
  pub conversation_id : Int8
  pub sender_id : ℤ
  pub body : String

pub record GetOrCreateConversationParams : Type 0 where
  pub user_a : ℤ
  pub user_b : ℤ

pub record GetOrCreateConversationRow : Type 0 where
  pub id : ℤ
  pub user_a : ℤ
  pub user_b : ℤ
  pub is_new : Bool

pub record ListMessagesByRoomParams : Type 0 where
  pub room_id : Int8
  pub limit : ℕ

pub record ListMessagesByRoomRow : Type 0 where
  pub id : ℤ
  pub sender_id : ℤ
  pub sender_username : String
  pub body : String
  pub created_at : Timestamptz
