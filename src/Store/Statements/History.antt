-- ===== src/Store/Statements/History.antt =====
-- Sending to a room and reading its history, of cmd/server/internal/room/service.go, over the SQL of
-- cmd/server/internal/store/messages.sql.go.
use chattui.Common.{
  take, ℕ, suc, ℤ, String, true, false, List, [], ◌∷◌, ◌++◌, if◌then◌else◌, ◌==◌, int_key, eqb_refl,
  and_right, ◌≡◌, refl, sym, ap, ◌∙◌, subst, arith, Bool-cases, inl, inr,
}
use chattui.Errs.{Result, ok, Result-cases}
use chattui.Store.Models.{Message, User}
use chattui.Store.Params.{CreateMessageParams, ListMessagesByRoomRow}
use chattui.Store.Sql.{those, nullable, sql_eq, one_ref}
use chattui.Store.Feed.{int_leb}
use chattui.Store.Relations.Rows.{
  order_by-last, those-append, join_on-append, any-false-pairs, any-false-those, one-those,
}
use chattui.Store.Relations.{any, any-join_on, order_by, join_on}
use chattui.Store.Database.{Database, has_user}
use chattui.Store.Messages as Messages
use chattui.Store.Messages.{
  newer_row, to_row, room_rows, new_message, refers, list_messages_by_room,
}
use chattui.Store.Users.{GetUserByIdRow, get_user_by_id}
use chattui.Store.Statements.{Statement, create_message, execute, run, room_store}
use chattui.Store.Statements.Senders.{
  AllSent, execute-AllSent, run-AllSent, sends_to, room_rows-run,
}
use chattui.Store.Statements.Keys.{
  IsNumbered, empty, execute-IsNumbered, run-IsNumbered, those-Numbered,
}
use chattui.World.{World}
use chattui.Inbox.{int8, null_int8}
use chattui.Room.{send_room_message, get_messages_by_room_id}

-- A message of the room adds its row at the end, where its sender is one user.
room_rows-append :
    (room : ℤ) (ms : List Message) (us : List User) (m : Message) (u : User)
    → m.room_id ≡ int8 room
    → those (λ (x : User). x.id == m.sender_id) us ≡ u ∷ []
    → room_rows (int8 room) (ms ++ m ∷ []) us ≡ room_rows (int8 room) ms us ++ to_row m u ∷ []
unfolding room_rows join_on
room_rows-append room ms us m u at one_user =
    let of_room = λ (x : Message). sql_eq (nullable x.room_id) (nullable (int8 room)) in
    let here : of_room m ≡ true = rw at (eqb_refl room) in
    let kept : those of_room (ms ++ m ∷ []) ≡ those of_room ms ++ m ∷ [] =
      those-append of_room ms (m ∷ [])
      ∙ ap (λ b. those of_room ms ++ (if b then m ∷ [] else [])) here in
    rw
      (
        kept,
        join_on-append (λ m u. u.id == m.sender_id) to_row (those of_room ms) (m ∷ []) us,
        join_on,
        one_user,
      )
      refl

-- No row of the room is as new as a time that no message has come to.
room_rows-before :
    (room : ℤ) (ms : List Message) (us : List User) (t : ℤ)
    → any (λ (m : Message). int_leb t m.created_at.time) ms ≡ false
    → any (λ (r : ListMessagesByRoomRow). int_leb t r.created_at.time) (room_rows (int8 room) ms us)
      ≡ false
unfolding room_rows
room_rows-before room ms us t h =
    any-join_on _ _ to_row _ us
    ∙ any-false-pairs _ (λ (m : Message). int_leb t m.created_at.time)
        (λ m u f. rw f (ground arith)) _ us (any-false-those _ _ ms h)

create_message-made :
    (p : CreateMessageParams) (d d' : Database) (m : Message)
    → Messages.create_message p d ≡ (ok m, d')
    → (m ≡ new_message p d)
      × (d'.messages ≡ d.messages ++ new_message p d ∷ [])
      × (d'.users ≡ d.users)
      × (has_user d p.sender_id ≡ true)
unfolding Messages.create_message
create_message-made p d d' m h =
    elim (Bool-cases (one_ref (nullable p.room_id) (nullable p.conversation_id))) [
      | inl t ↦ elim (Bool-cases (refers p d)) [
        | inl t' ↦
            let e = rw (t, t') at h in
            (
              ground (arith, e),
              ap (λ (x : Result Message × Database). x.1.messages) (sym e),
              ap (λ (x : Result Message × Database). x.1.users) (sym e),
              and_right _ _ t',
            )
        | inr f' ↦ absurd (ground (arith, t, f'))
      ]
      | inr f ↦ absurd (ground (arith, f))
    ]

-- The parameters that a message of the room is stored with.
abbrev room_params : ℤ → ℤ → String → CreateMessageParams
room_params room sender body = record {
  room_id = int8 room;
  conversation_id = null_int8;
  sender_id = sender;
  body = body;
}

send_room_message-stored :
    (room sender : ℤ) (body : String) (w w' : World Database) (m : Message)
    → send_room_message room_store room sender body w ≡ (ok m, w')
    → Messages.create_message (room_params room sender body) w.db ≡ (ok m, w'.db)
unfolding send_room_message
send_room_message-stored room sender body w w' m h =
    let call = Messages.create_message (room_params room sender body) w.db in
    elim (Result-cases call.0) [
      | inl (e, p) ↦ absurd (ground (arith, p))
      | inr (x, p) ↦
          let e = rw (send_room_message, p) at h in
          let same : call.0 ≡ ok m = p ∙ ap (λ (r : Result Message × World Database). r.0) e in
          let left : call.1 ≡ w'.db = ap (λ (r : Result Message × World Database). r.1.db) e in
          (λ i. (same i, left i))
    ]

-- In every database that statements make of the empty one, where no message is as new as the time
-- of the sending: the message that was sent to a room is the first of the room's history, with its
-- text and its sender's name, and what the history listed before comes after it, up to the limit.
-- It is so after any later statements that send nothing to this room, whether they fail or not.
pub sent_message_is_first :
    (past : List Statement) (room sender : ℤ) (body : String) (w w' : World Database) (m : Message)
    (n : ℕ) (rows : List ListMessagesByRoomRow) (since : List Statement)
    → w.db ≡ run past empty
    → any (λ (m : Message). int_leb w.db.now m.created_at.time) w.db.messages ≡ false
    → get_messages_by_room_id room_store room n w ≡ ok rows
    → send_room_message room_store room sender body w ≡ (ok m, w')
    → any (sends_to (int8 room)) since ≡ false
    → (u : GetUserByIdRow) × (get_user_by_id sender w.db ≡ ok u)
      × (get_messages_by_room_id room_store room (suc n) (record w' { db = run since w'.db })
          ≡ ok (
              (record {
                id = m.id;
                sender_id = sender;
                sender_username = u.username;
                body = body;
                created_at = m.created_at;
              })
              ∷ rows))
unfolding get_messages_by_room_id list_messages_by_room get_user_by_id execute
sent_message_is_first past room sender body w w' m n rows since from older listed sent quiet =
    let stored = send_room_message-stored room sender body w w' m sent in
    let p = room_params room sender body in
    let (is_new, ms, us, has) = create_message-made p w.db w'.db m stored in
    let numbered : IsNumbered w.db = subst IsNumbered (sym from) (run-IsNumbered past) in
    let (u, one_user, id) = those-Numbered w.db.users w.db.next_user sender numbered has in
    let found = one-those (λ (x : User). x.id == sender) w.db.users u one_user in
    let made = new_message p w.db in
    let row = to_row made u in
    let before = room_rows-before room w.db.messages w.db.users w.db.now older in
    let table : room_rows (int8 room) w'.db.messages w'.db.users
        ≡ room_rows (int8 room) w.db.messages w.db.users ++ row ∷ [] =
      (λ i. room_rows (int8 room) (ms i) (us i))
      ∙ room_rows-append room w.db.messages w.db.users made u refl one_user in
    let rest : take n (order_by newer_row (room_rows (int8 room) w.db.messages w.db.users)) ≡ rows =
      ground (arith, listed) in
    let left : execute (create_message p) w.db ≡ w'.db =
      ap (λ (x : Result Message × Database). x.1) stored in
    let still =
      room_rows-run (int8 room) since w'.db
        (subst AllSent left
          (execute-AllSent (create_message p) w.db (subst AllSent (sym from) (run-AllSent past))))
        (subst IsNumbered left (execute-IsNumbered (create_message p) w.db numbered)) quiet in
    let ordered =
      ap (order_by newer_row) (still ∙ table)
      ∙ order_by-last newer_row (room_rows (int8 room) w.db.messages w.db.users) row before in
    (
      record { id = u.id; username = u.username; created_at = u.created_at },
      rw found refl,
      rw (ordered, is_new) (ap (λ r. ok (row ∷ r)) rest),
    )
