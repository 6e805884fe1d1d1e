-- ===== src/Conversation.antt =====
-- cmd/server/internal/conversation/service.go: the conversation service.
pub mod Send
mod Tests
use chattui.Common.{ℕ, ℤ, String, Bool, true, false, Option, none, some, List, if◌then◌else◌}
use chattui.Errs.{Error, Result, ok, err}
use chattui.Event.{Event, conversation_created, direct_message_sent}
use chattui.Store.Models.{Message}
use chattui.Store.Params.{
  CreateMessageParams, GetOrCreateConversationParams, GetOrCreateConversationRow,
}
use chattui.Db.{Beginner}
use chattui.World.{World, publish}
use chattui.Inbox.{int8, null_int8}

-- The queries that `dbstore.New(tx)` runs inside the transaction `T`.
pub record Queries (T : Type 0) : Type 0 where
  pub get_or_create_conversation :
      GetOrCreateConversationParams → T → Result GetOrCreateConversationRow × T
  pub create_message : CreateMessageParams → T → Result Message × T

-- The parameters that a message of the conversation is stored with.
abbrev pub message_params : ℤ → ℤ → String → CreateMessageParams
message_params conv sender body = record {
  room_id = null_int8;
  conversation_id = int8 conv;
  sender_id = sender;
  body = body;
}

module _ {D : Type 0} where
  -- The events behind the commit.
  unfoldable pub publish_sent :
      GetOrCreateConversationRow → Message → ℤ → ℤ → String → World D → World D
  publish_sent conv msg sender to body w =
      let created =
        if conv.is_new
        then publish
            (conversation_created (record {
              conversation_id = conv.id;
              user_a_id = conv.user_a;
              user_b_id = conv.user_b;
            }))
            w
        else w in
      publish
        (direct_message_sent (record {
          conversation_id = conv.id;
          sender_id = sender;
          recipient_id = to;
          message_id = msg.id;
          body = body;
        }))
        created

module _ {D T : Type 0} (B : Beginner D T) (q : Queries T) where
  -- Behind `q.CreateMessage`; the deferred rollback runs last.
  unfoldable pub commit_sent :
      GetOrCreateConversationRow → Message → ℤ → ℤ → String → T → World D → Result Message × World D
  commit_sent conv msg sender to body t w =
      let (failure, d) = B.commit t w.db in
      elim failure [
        | some e ↦ (err e, record w { db = B.rollback t d })
        | none ↦ (ok msg, publish_sent conv msg sender to body (record w { db = B.rollback t d }))
      ]

  -- Behind `q.GetOrCreateConversation`.
  unfoldable pub store_message :
      GetOrCreateConversationRow → ℤ → ℤ → String → T → World D → Result Message × World D
  unfolding commit_sent
  store_message conv sender to body t w =
      let (r, t') = q.create_message (message_params conv.id sender body) t in
      elim r [
        | err e ↦ (err e, record w { db = B.rollback t' w.db })
        | ok msg ↦ commit_sent conv msg sender to body t' w
      ]

  -- Inside the transaction.
  unfoldable pub send_in : ℤ → ℤ → String → T → World D → Result Message × World D
  unfolding store_message
  send_in sender to body t w =
      let (r, t') = q.get_or_create_conversation (record { user_a = sender; user_b = to }) t in
      elim r [
        | err e ↦ (err e, record w { db = B.rollback t' w.db })
        | ok conv ↦ store_message conv sender to body t' w
      ]

  unfoldable pub send_direct_message : ℤ → ℤ → String → World D → Result Message × World D
  unfolding send_in
  send_direct_message sender to body w =
      let (r, d) = B.begin w.db in
      elim r [
        | err e ↦ (err e, record w { db = d })
        | ok t ↦ send_in sender to body t (record w { db = d })
      ]
