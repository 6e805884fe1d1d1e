-- ===== src/Client/ChatView.antt =====
-- cmd/client/internal/ui/chatview/chatview.go: a message as the transcript holds it.
use chattui.Common.{ℤ, String}

pub record Shown : Type 0 where
  pub sender_id : ℤ
  pub sender : String
  pub body : String
  pub at : ℤ
