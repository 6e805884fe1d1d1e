-- ===== src/Store/Models.antt =====
-- cmd/server/internal/store/models.go: the row types that sqlc generates. A nullable column is a
-- value with a flag, and the value of a null is whatever the driver leaves there.
use chattui.Common.{ℤ, String, Bool}

-- pgtype.Int8
pub record Int8 : Type 0 where
  pub int64 : ℤ
  pub valid : Bool

-- pgtype.Text
pub record Text : Type 0 where
  pub string : String
  pub valid : Bool

-- pgtype.Timestamptz
pub record Timestamptz : Type 0 where
  pub time : ℤ
  pub valid : Bool

pub record Message : Type 0 where
  pub id : ℤ
  pub room_id : Int8
  pub conversation_id : Int8
  pub sender_id : ℤ
  pub body : String
  pub created_at : Timestamptz

pub record Room : Type 0 where
  pub id : ℤ
  pub name : String
  pub slug : String
  pub created_at : Timestamptz

pub record User : Type 0 where
  pub id : ℤ
  pub username : String
  pub password : String
  pub created_at : Timestamptz
