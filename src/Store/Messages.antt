-- ===== src/Store/Messages.antt =====
-- cmd/server/internal/store/messages.sql.go
use chattui.Common.{
  take, ℕ, suc, ℤ, pos, Bool, true, none, some, List, [], ◌∷◌, ◌++◌, if◌then◌else◌, ◌==◌, ◌&&◌,
  int_key,
}
use chattui.Errs.{other, Result, ok, err}
use chattui.Store.Models.{Int8, User, Message}
use chattui.Store.Params.{CreateMessageParams, ListMessagesByRoomParams, ListMessagesByRoomRow}
use chattui.Store.Feed.{int_leb}
use chattui.Store.Sql.{those, nullable, to_int8, sql_eq, one_ref}
use chattui.Store.Relations.{order_by, join_on}
use chattui.Store.Database.{Database, at_now, has_user, has_room, has_conversation}

-- The row as it is stored and scanned: what the driver leaves in the value of a NULL is 0.
abbrev pub new_message : CreateMessageParams → Database → Message
new_message p d = record {
  id = pos d.next_message;
  room_id = to_int8 (nullable p.room_id);
  conversation_id = to_int8 (nullable p.conversation_id);
  sender_id = p.sender_id;
  body = p.body;
  created_at = at_now d;
}

abbrev pub when_set : Int8 → (ℤ → Bool) → Bool
when_set i p = elim (nullable i) [ none ↦ true | some n ↦ p n ]

-- The references of the row; a NULL refers to nothing.
abbrev pub refers : CreateMessageParams → Database → Bool
refers p d =
    (when_set p.room_id (has_room d) && when_set p.conversation_id (has_conversation d))
    && has_user d p.sender_id

-- The constraint messages_target_one comes first.
unfoldable pub create_message : CreateMessageParams → Database → Result Message × Database
create_message p d =
    let d' = record d { next_message = suc d.next_message } in
    if one_ref (nullable p.room_id) (nullable p.conversation_id)
    then if refers p d
      then (ok (new_message p d), record d' { messages = d.messages ++ new_message p d ∷ [] })
      else (err (other "messages_fkey"), d')
    else (err (other "messages_target_one"), d')

pub record ListMessagesByConversationParams : Type 0 where
  pub conversation_id : Int8
  pub limit : ℕ

-- ORDER BY created_at DESC
abbrev pub newer : Message → Message → Bool
newer a b = int_leb b.created_at.time a.created_at.time

unfoldable pub list_messages_by_conversation :
    ListMessagesByConversationParams → Database → Result (List Message)
unfolding order_by
list_messages_by_conversation p d = ok (
    take p.limit (
      order_by newer (
        those (λ (m : Message). sql_eq (nullable m.conversation_id) (nullable p.conversation_id))
          d.messages)))

abbrev pub newer_row : ListMessagesByRoomRow → ListMessagesByRoomRow → Bool
newer_row a b = int_leb b.created_at.time a.created_at.time

abbrev pub to_row : Message → User → ListMessagesByRoomRow
to_row m u = record {
  id = m.id;
  sender_id = m.sender_id;
  sender_username = u.username;
  body = m.body;
  created_at = m.created_at;
}

-- The JOIN and the WHERE.
unfoldable pub room_rows : Int8 → List Message → List User → List ListMessagesByRoomRow
unfolding join_on
room_rows room ms us =
    join_on (λ m u. u.id == m.sender_id) to_row
      (those (λ (m : Message). sql_eq (nullable m.room_id) (nullable room)) ms) us

unfoldable pub list_messages_by_room :
    ListMessagesByRoomParams → Database → Result (List ListMessagesByRoomRow)
unfolding order_by room_rows
list_messages_by_room p d =
    ok (take p.limit (order_by newer_row (room_rows p.room_id d.messages d.users)))
