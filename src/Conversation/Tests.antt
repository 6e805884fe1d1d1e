-- ===== src/Conversation/Tests.antt =====
-- The theorem about cmd/server/internal/conversation/service.go at a database that is the list of
-- the changes made to it.
use chattui.Common.{pos, String, true, List, [], ◌∷◌, ◌++◌, ◌≡◌, refl}
use chattui.Errs.{ok}
use chattui.Event.{conversation_created, direct_message_sent}
use chattui.Store.Models.{Message}
use chattui.Db.Copying.{copying, copying-IsTransactional}
use chattui.World.{World}
use chattui.Inbox.{int8, null_int8}
use chattui.Conversation.{Queries, send_direct_message, publish_sent}
use chattui.Conversation.Send.{Atomic, send_direct_message-Atomic}

abbrev hi : Message
hi = record {
  id = pos 9;
  room_id = null_int8;
  conversation_id = int8 (pos 5);
  sender_id = pos 1;
  body = "hi";
  created_at = record { time = pos 0; valid = true };
}

abbrev notebook : Queries (List String)
notebook = record {
  get_or_create_conversation = λ p d. (
    ok (record { id = pos 5; user_a = p.user_a; user_b = p.user_b; is_new = true }),
    d ++ "open" ∷ [],
  );
  create_message = λ p d. (ok hi, d ++ p.body ∷ []);
}

abbrev start : World (List String)
start = record { db = []; events = [] }

send_direct_message-Atomic_example :
    let (r, w') = send_direct_message copying notebook (pos 1) (pos 2) "hi" start in
    Atomic copying notebook (pos 1) (pos 2) "hi" start r w'
send_direct_message-Atomic_example =
    send_direct_message-Atomic copying notebook copying-IsTransactional (pos 1) (pos 2) "hi" start

-- The first message between two users.
first_message : send_direct_message copying notebook (pos 1) (pos 2) "hi" start ≡ (
  ok hi,
  record {
    db = "open" ∷ "hi" ∷ [];
    events =
        conversation_created
          (record { conversation_id = pos 5; user_a_id = pos 1; user_b_id = pos 2 })
        ∷ direct_message_sent (record {
          conversation_id = pos 5;
          sender_id = pos 1;
          recipient_id = pos 2;
          message_id = pos 9;
          body = "hi";
        })
        ∷ [];
  },
)
unfolding send_direct_message publish_sent
first_message = refl
