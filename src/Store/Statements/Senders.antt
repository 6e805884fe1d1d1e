-- ===== src/Store/Statements/Senders.antt =====
-- The joins of cmd/server/internal/store/messages.sql.go with the senders of messages: later
-- statements that send nothing to a room leave its rows as they were.
use chattui.Common.{
  ℕ, Bool, true, false, List, [], ◌∷◌, ◌++◌, map, ◌==◌, ◌&&◌, int_key, and_right, or_left, or_right,
  ◌≡◌, refl, sym, ap, ◌∙◌, subst, arith, Bool-cases, inl, inr,
}
use mathlib.Core.List.{append-nil}
use chattui.Store.Models.{Int8, Message, User}
use chattui.Store.Sql.{those, nullable, to_int8, sql_eq, one_ref}
use chattui.Store.Relations.{any, join_on}
use chattui.Store.Relations.Rows.{those-append}
use chattui.Store.Database.{Database, has_user}
use chattui.Store.Messages.{room_rows, to_row, refers}
use chattui.Store.Statements.{
  Statement, create_user, create_room, join_room, leave_room, get_or_create_conversation,
  create_message, wait, execute, run,
}
use chattui.Store.Statements.Growth.{
  Extends, Extends-any, added_users, added_messages, execute-users, execute-messages, run-Grown,
}
use chattui.Store.Statements.Keys.{empty, Numbered, IsNumbered, execute-IsNumbered, those-Numbered}

-- The sender of each message is a user.
abbrev pub Sent : List Message → List User → Type 0
Sent [] us = Unit {0}
Sent (m ∷ ms) us = (any (λ (u : User). u.id == m.sender_id) us ≡ true) × Sent ms us

Sent-mono : (ms : List Message) (us vs : List User) → Extends us vs → Sent ms us → Sent ms vs
Sent-mono [] us vs e h = tt
Sent-mono (m ∷ ms) us vs e (t, h) = (Extends-any _ us vs e t, Sent-mono ms us vs e h)

Sent-append : (ms ns : List Message) (us : List User) → Sent ms us → Sent ns us → Sent (ms ++ ns) us
Sent-append [] ns us h k = k
Sent-append (m ∷ ms) ns us (t, h) k = (t, Sent-append ms ns us h k)

those-Sent :
    (p : Message → Bool) (ms : List Message) (us : List User) → Sent ms us → Sent (those p ms) us
those-Sent p [] us h = tt
those-Sent p (m ∷ ms) us (t, h) = elim (Bool-cases (p m)) [
  | inl e ↦ rw e (t, those-Sent p ms us h)
  | inr f ↦ rw f (those-Sent p ms us h)
]

added_messages-Sent : (s : Statement) (d : Database) → Sent (added_messages s d) d.users
added_messages-Sent (create_message p) d =
    elim (Bool-cases (one_ref (nullable p.room_id) (nullable p.conversation_id) && refers p d)) [
      | inl t ↦ rw t (and_right _ (has_user d p.sender_id) (and_right _ (refers p d) t), tt)
      | inr f ↦ rw f tt
    ]
added_messages-Sent (create_user p) d = tt
added_messages-Sent (create_room p) d = tt
added_messages-Sent (join_room p) d = tt
added_messages-Sent (leave_room p) d = tt
added_messages-Sent (get_or_create_conversation p) d = tt
added_messages-Sent (wait t) d = tt

abbrev pub AllSent : Database → Type 0
AllSent d = Sent d.messages d.users

pub execute-AllSent : (s : Statement) (d : Database) → AllSent d → AllSent (execute s d)
execute-AllSent s d h =
    Sent-mono (execute s d).messages d.users (execute s d).users
      (added_users s d, execute-users s d)
      (subst (λ ms. Sent ms d.users) (sym (execute-messages s d))
        (Sent-append d.messages (added_messages s d) d.users h (added_messages-Sent s d)))

pub run-AllSent : (past : List Statement) → AllSent (run past empty)
unfolding run
run-AllSent [] = tt
run-AllSent (s ∷ past) = execute-AllSent s (run past empty) (run-AllSent past)

run-from-IsNumbered :
    (since : List Statement) (d : Database) → IsNumbered d → IsNumbered (run since d)
unfolding run
run-from-IsNumbered [] d h = h
run-from-IsNumbered (s ∷ since) d h =
    execute-IsNumbered s (run since d) (run-from-IsNumbered since d h)

-- More users, with ids of their own, are senders of no message that was there.
join_on-Sent :
    (ms : List Message) (us new : List User) (n k : ℕ)
    → Sent ms us
    → Numbered us n
    → Numbered (us ++ new) k
    → join_on (λ (m : Message) (u : User). u.id == m.sender_id) to_row ms (us ++ new)
      ≡ join_on (λ m u. u.id == m.sender_id) to_row ms us
unfolding join_on
join_on-Sent [] us new n k h a b = refl
join_on-Sent (m ∷ ms) us new n k (t, h) a b =
    let of_sender = λ (u : User). u.id == m.sender_id in
    let (u, one, id) = those-Numbered us n m.sender_id a t in
    let (v, one', id') =
      those-Numbered (us ++ new) k m.sender_id b
        (Extends-any of_sender us (us ++ new) (new, refl) t) in
    let all = those-append of_sender us new in
    let none_new : those of_sender new ≡ [] =
      ground (arith, sym (ap (λ r. r ++ those of_sender new) one) ∙ sym all ∙ one') in
    let same : those of_sender (us ++ new) ≡ those of_sender us =
      all ∙ ap (λ r. those of_sender us ++ r) none_new ∙ append-nil _ in
    (λ i. map (to_row m) (same i) ++ join_on-Sent ms us new n k h a b i)

-- The statement sends to the room.
abbrev pub sends_to : Int8 → Statement → Bool
sends_to room (create_message p) = sql_eq (nullable p.room_id) (nullable room)
sends_to room s = false

nullable-to_int8 : (i : Int8) → nullable (to_int8 (nullable i)) ≡ nullable i
nullable-to_int8 i = elim (Bool-cases i.valid) [ inl t ↦ rw t refl | inr f ↦ rw f refl ]

those-execute :
    (room : Int8) (s : Statement) (d : Database)
    → sends_to room s ≡ false
    → those (λ (m : Message). sql_eq (nullable m.room_id) (nullable room)) (added_messages s d) ≡ []
those-execute room (create_message p) d h =
    elim (Bool-cases (one_ref (nullable p.room_id) (nullable p.conversation_id) && refers p d)) [
      | inl t ↦ rw (t, nullable-to_int8 p.room_id, h) refl
      | inr f ↦ rw f refl
    ]
those-execute room (create_user p) d h = refl
those-execute room (create_room p) d h = refl
those-execute room (join_room p) d h = refl
those-execute room (leave_room p) d h = refl
those-execute room (get_or_create_conversation p) d h = refl
those-execute room (wait t) d h = refl

those-run :
    (room : Int8) (since : List Statement) (d : Database)
    → any (sends_to room) since ≡ false
    → those (λ (m : Message). sql_eq (nullable m.room_id) (nullable room)) (run since d).messages
      ≡ those (λ m. sql_eq (nullable m.room_id) (nullable room)) d.messages
unfolding run any
those-run room [] d h = refl
those-run room (s ∷ since) d h =
    let of_room = λ (m : Message). sql_eq (nullable m.room_id) (nullable room) in
    let quiet = or_left (sends_to room s) (any (sends_to room) since) h in
    let rest = or_right (sends_to room s) (any (sends_to room) since) h in
    ap (those of_room) (execute-messages s (run since d))
    ∙ those-append of_room (run since d).messages (added_messages s (run since d))
    ∙ ap (λ r. those of_room (run since d).messages ++ r) (those-execute room s (run since d) quiet)
    ∙ append-nil _
    ∙ those-run room since d rest

pub room_rows-run :
    (room : Int8) (since : List Statement) (d : Database)
    → AllSent d
    → IsNumbered d
    → any (sends_to room) since ≡ false
    → room_rows room (run since d).messages (run since d).users ≡ room_rows room d.messages d.users
unfolding room_rows
room_rows-run room since d sent numbered quiet =
    let of_room = λ (m : Message). sql_eq (nullable m.room_id) (nullable room) in
    let (new, more) = (run-Grown since d).users in
    let later = run-from-IsNumbered since d numbered in
    (λ i. join_on (λ m u. u.id == m.sender_id) to_row (those-run room since d quiet i) (more i))
    ∙ join_on-Sent (those of_room d.messages) d.users new d.next_user (run since d).next_user
        (those-Sent of_room d.messages d.users sent) numbered
        (subst (λ us. Numbered us (run since d).next_user) more later)
