-- ===== src/Store/Database.antt =====
-- The tables of cmd/server/migrations/001_users.sql. A column is NOT NULL unless it is an Int8. The
-- sequences of the BIGSERIAL columns go on also where an INSERT fails, and the time of a statement
-- is a field. The upper bound of a sequence is left out.
use chattui.Common.{ℕ, ℤ, Bool, true, List, ◌==◌, int_key}
use chattui.Store.Models.{Timestamptz, User, Room, Message}
use chattui.Store.Relations.{any}

-- A row of room_members.
pub record Member : Type 0 where
  pub room_id : ℤ
  pub user_id : ℤ
  pub joined_at : ℤ

-- A row of conversations.
pub record Conversation : Type 0 where
  pub id : ℤ
  pub user_a : ℤ
  pub user_b : ℤ

pub record Database : Type 0 where
  pub users : List User
  pub rooms : List Room
  pub room_members : List Member
  pub conversations : List Conversation
  pub messages : List Message
  pub next_user : ℕ
  pub next_room : ℕ
  pub next_conversation : ℕ
  pub next_message : ℕ
  pub now : ℤ

-- DEFAULT now()
abbrev pub at_now : Database → Timestamptz
at_now d = record { time = d.now; valid = true }

-- What a reference to a row asks for.
abbrev pub has_user : Database → ℤ → Bool
has_user d i = any (λ (u : User). u.id == i) d.users

abbrev pub has_room : Database → ℤ → Bool
has_room d i = any (λ (r : Room). r.id == i) d.rooms

abbrev pub has_conversation : Database → ℤ → Bool
has_conversation d i = any (λ (c : Conversation). c.id == i) d.conversations
