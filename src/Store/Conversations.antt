-- ===== src/Store/Conversations.antt =====
-- cmd/server/internal/store/conversations.sql.go
use chattui.Common.{
  take, ℕ, suc, ℤ, pos, String, Bool, true, false, not, List, [], ◌∷◌, ◌++◌, if◌then◌else◌, ◌==◌,
  ◌&&◌, ◌||◌, int_key,
}
use chattui.Errs.{other, Result, ok, err}
use chattui.Store.Models.{User}
use chattui.Store.Params.{GetOrCreateConversationParams, GetOrCreateConversationRow}
use chattui.Store.Feed.{int_leb}
use chattui.Store.Sql.{those}
use chattui.Store.Relations.{one, order_by, join_on}
use chattui.Store.Database.{Conversation, Database, has_user}

abbrev pub least : ℤ → ℤ → ℤ
least a b = if int_leb a b then a else b

abbrev pub greatest : ℤ → ℤ → ℤ
greatest a b = if int_leb a b then b else a

abbrev pub is_pair : ℤ → ℤ → Conversation → Bool
is_pair a b c = c.user_a == a && c.user_b == b

abbrev pub new_conversation : ℤ → ℤ → Database → Conversation
new_conversation a b d = record { id = pos d.next_conversation; user_a = a; user_b = b }

abbrev pub pair_row : Bool → Conversation → GetOrCreateConversationRow
pair_row fresh c = record { id = c.id; user_a = c.user_a; user_b = c.user_b; is_new = fresh }

-- The INSERT of an ordered pair: the row that is there already, the update of which changes nothing
-- of it, or a new one.
abbrev pub upsert_pair :
    ℤ → ℤ → Database → Result Conversation → Result GetOrCreateConversationRow × Database
upsert_pair a b d (ok c) = (ok (pair_row false c), d)
upsert_pair a b d (err e) =
    if has_user d a && has_user d b
    then (
      ok (pair_row true (new_conversation a b d)),
      record d { conversations = d.conversations ++ new_conversation a b d ∷ [] },
    )
    else (err (other "conversations_fkey"), d)

-- The two CHECKs come before the conflict.
unfoldable pub insert_pair : ℤ → ℤ → Database → Result GetOrCreateConversationRow × Database
unfolding one
insert_pair a b d =
    if a == b || not (int_leb a b)
    then (err (other "conversations_check"), d)
    else upsert_pair a b d (one (is_pair a b) d.conversations)

-- The id is drawn from the sequence in any case.
unfoldable pub get_or_create_conversation :
    GetOrCreateConversationParams → Database → Result GetOrCreateConversationRow × Database
unfolding insert_pair
get_or_create_conversation p d =
    let (r, d') = insert_pair (least p.user_a p.user_b) (greatest p.user_a p.user_b) d in
    (r, record d' { next_conversation = suc d'.next_conversation })

pub record ListConversationsByUserParams : Type 0 where
  pub user_id : ℤ
  pub lim : ℕ

pub record ListConversationsByUserRow : Type 0 where
  pub id : ℤ
  pub peer_id : ℤ
  pub peer_username : String

abbrev pub other_user : ℤ → Conversation → ℤ
other_user user c = if c.user_a == user then c.user_b else c.user_a

unfoldable pub list_conversations_by_user :
    ListConversationsByUserParams → Database → Result (List ListConversationsByUserRow)
unfolding order_by join_on
list_conversations_by_user p d = ok (
    take p.lim (
      order_by (λ (a b : ListConversationsByUserRow). int_leb b.id a.id)
        (join_on (λ c (peer : User). other_user p.user_id c == peer.id)
          (λ c peer. record { id = c.id; peer_id = peer.id; peer_username = peer.username })
          (those (λ (c : Conversation). c.user_a == p.user_id || c.user_b == p.user_id)
            d.conversations)
          d.users)))
