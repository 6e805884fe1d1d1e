-- ===== src/Store/Statements/Growth.antt =====
-- What the statements of Store/Statements.antt never take away: rows of users, rooms,
-- conversations and messages are only added.
use chattui.Common.{
  ℤ, Bool, true, not, ◌&&◌, ◌||◌, string_key, List, [], ◌∷◌, ◌++◌, if◌then◌else◌, ◌==◌, int_key,
  ◌≡◌, refl, sym, ap, ◌∙◌, arith, Bool-cases, inl, inr,
}
use mathlib.Core.List.{append_assoc, append-nil}
use chattui.Errs.{Result, ok, err}
use chattui.Store.Models.{User, Room, Message}
use chattui.Store.Relations.{any, one, any-append, one-append, one-any}
use chattui.Store.Params.{GetOrCreateConversationParams}
use chattui.Store.Database.{Conversation, Database, has_user}
use chattui.Store.Conversations.{
  least, greatest, is_pair, insert_pair, upsert_pair, new_conversation,
}
use chattui.Store.Users.{new_user}
use chattui.Store.Rooms.{new_room}
use chattui.Store.Messages.{new_message, refers}
use chattui.Store.Sql.{one_ref, nullable}
use chattui.Store.Feed.{int_leb}
use chattui.Store.Statements.{
  Statement, create_user, create_room, get_or_create_conversation, create_message, execute, run,
}

-- The rows of the first stand at the front of the second.
abbrev pub Extends : {A : Type 0} → List A → List A → Type 0
Extends {A} xs ys = (new : List A) × (ys ≡ xs ++ new)

pub Extends-refl : {A : Type 0} (xs : List A) → Extends xs xs
Extends-refl xs = ([], sym (append-nil xs))

pub Extends-trans : {A : Type 0} (xs ys zs : List A) → Extends xs ys → Extends ys zs → Extends xs zs
Extends-trans xs ys zs (a, p) (b, q) = (a ++ b, q ∙ ap (λ t. t ++ b) p ∙ append_assoc xs a b)

-- The row that a statement adds to each table.
abbrev pub added_users : Statement → Database → List User
added_users (create_user p) d =
    if any (λ (u : User). u.username == p.username) d.users then [] else new_user p d ∷ []
added_users s d = []

abbrev pub added_rooms : Statement → Database → List Room
added_rooms (create_room p) d =
    if any (λ (r : Room). r.slug == p.slug) d.rooms then [] else new_room p d ∷ []
added_rooms s d = []

abbrev pub added_messages : Statement → Database → List Message
added_messages (create_message p) d =
    if one_ref (nullable p.room_id) (nullable p.conversation_id) && refers p d
    then new_message p d ∷ []
    else []
added_messages s d = []

abbrev pub added_pair : ℤ → ℤ → Database → Result Conversation → List Conversation
added_pair a b d (ok c) = []
added_pair a b d (err e) = if has_user d a && has_user d b then new_conversation a b d ∷ [] else []

abbrev pub added_ordered : ℤ → ℤ → Database → List Conversation
added_ordered a b d =
    if a == b || not (int_leb a b) then [] else added_pair a b d (one (is_pair a b) d.conversations)

abbrev pub added_conversations : Statement → Database → List Conversation
added_conversations (get_or_create_conversation p) d =
    added_ordered (least p.user_a p.user_b) (greatest p.user_a p.user_b) d
added_conversations s d = []

-- The database with more conversations.
abbrev pub with_conversations : Database → List Conversation → Database
with_conversations d cs = record d { conversations = d.conversations ++ cs }

with_conversations-nil : (d : Database) → d ≡ with_conversations d []
with_conversations-nil d = rw (append-nil d.conversations)

upsert_pair-adds :
    (a b : ℤ) (d : Database) (r : Result Conversation)
    → (upsert_pair a b d r).1 ≡ with_conversations d (added_pair a b d r)
upsert_pair-adds a b d (ok c) = with_conversations-nil d
upsert_pair-adds a b d (err e) = elim (Bool-cases (has_user d a && has_user d b)) [
  | inl t ↦ rw t refl
  | inr f ↦ rw f (with_conversations-nil d)
]

insert_pair-adds :
    (a b : ℤ) (d : Database) → (insert_pair a b d).1 ≡ with_conversations d (added_ordered a b d)
unfolding insert_pair
insert_pair-adds a b d = elim (Bool-cases (a == b || not (int_leb a b))) [
  | inl t ↦ rw t (with_conversations-nil d)
  | inr f ↦ rw f (upsert_pair-adds a b d (one (is_pair a b) d.conversations))
]

-- A pair of users changes only the table of conversations, and its sequence.
pub pair-adds :
    (p : GetOrCreateConversationParams) (d : Database)
    → (insert_pair (least p.user_a p.user_b) (greatest p.user_a p.user_b) d).1
      ≡ with_conversations d (added_conversations (get_or_create_conversation p) d)
pair-adds p d = insert_pair-adds (least p.user_a p.user_b) (greatest p.user_a p.user_b) d

pub execute-users :
    (s : Statement) (d : Database) → (execute s d).users ≡ d.users ++ added_users s d
unfolding execute
execute-users (get_or_create_conversation p) d =
    ap (λ x. x.users) (pair-adds p d) ∙ sym (append-nil d.users)
execute-users s d = ground (arith, append-nil d.users)

pub execute-rooms :
    (s : Statement) (d : Database) → (execute s d).rooms ≡ d.rooms ++ added_rooms s d
unfolding execute
execute-rooms (get_or_create_conversation p) d =
    ap (λ x. x.rooms) (pair-adds p d) ∙ sym (append-nil d.rooms)
execute-rooms s d = ground (arith, append-nil d.rooms)

pub execute-messages :
    (s : Statement) (d : Database) → (execute s d).messages ≡ d.messages ++ added_messages s d
unfolding execute
execute-messages (get_or_create_conversation p) d =
    ap (λ x. x.messages) (pair-adds p d) ∙ sym (append-nil d.messages)
execute-messages s d = ground (arith, append-nil d.messages)

pub execute-conversations :
    (s : Statement) (d : Database)
    → (execute s d).conversations ≡ d.conversations ++ added_conversations s d
unfolding execute
execute-conversations (get_or_create_conversation p) d = ap (λ x. x.conversations) (pair-adds p d)
execute-conversations s d = ground (arith, append-nil d.conversations)

-- From `d` on, these rows are there.
pub record Grown (d d' : Database) : Type 0 where
  pub users : Extends d.users d'.users
  pub rooms : Extends d.rooms d'.rooms
  pub conversations : Extends d.conversations d'.conversations
  pub messages : Extends d.messages d'.messages

Grown-execute : (s : Statement) (d d' : Database) → Grown d d' → Grown d (execute s d')
Grown-execute s d d' h = record {
  users = Extends-trans d.users d'.users _ h.users (added_users s d', execute-users s d');
  rooms = Extends-trans d.rooms d'.rooms _ h.rooms (added_rooms s d', execute-rooms s d');
  conversations =
      Extends-trans d.conversations d'.conversations _ h.conversations
        (added_conversations s d', execute-conversations s d');
  messages =
      Extends-trans d.messages d'.messages _ h.messages
        (added_messages s d', execute-messages s d');
}

pub run-Grown : (past : List Statement) (d : Database) → Grown d (run past d)
unfolding run
run-Grown [] d = record {
  users = Extends-refl d.users;
  rooms = Extends-refl d.rooms;
  conversations = Extends-refl d.conversations;
  messages = Extends-refl d.messages;
}
run-Grown (s ∷ past) d = Grown-execute s d (run past d) (run-Grown past d)

-- What was there stays there, and what a query found is found again.
pub Extends-any :
    {A : Type 0} (p : A → Bool) (xs ys : List A) → Extends xs ys → any p xs ≡ true → any p ys ≡ true
Extends-any p xs ys (new, e) h = rw e (rw (any-append p xs new, h) refl)

pub Extends-one :
    {A : Type 0} (p : A → Bool) (xs ys : List A) (x : A)
    → Extends xs ys
    → one p xs ≡ ok x
    → one p ys ≡ ok x
Extends-one p xs ys x (new, e) h = rw e (rw (one-append p xs new, one-any p xs x h) h)
