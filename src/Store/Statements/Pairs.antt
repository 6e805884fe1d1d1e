-- ===== src/Store/Statements/Pairs.antt =====
-- The one conversation of two users, as cmd/server/internal/store/conversations.sql.go keeps it.
use chattui.Common.{
  ℤ, pos, negsuc, true, false, not, List, [], ◌∷◌, ◌==◌, ◌&&◌, ◌||◌, int_key, eqb_refl, eqb_comm,
  eqb-eq_true, and_left, and_right, or_left, ◌≡◌, refl, sym, ap, ◌∙◌, arith, Bool-cases, inl, inr,
}
use chattui.Errs.{Result, ok, err}
use chattui.Store.Params.{GetOrCreateConversationRow}
use chattui.Store.Feed.{int_leb}
use chattui.Store.Relations.{one, one-append, one-fits, one-none}
use chattui.Store.Database.{Conversation, Database, has_user}
use chattui.Store.Conversations.{
  least, greatest, is_pair, new_conversation, pair_row, upsert_pair, insert_pair,
  get_or_create_conversation,
}
use chattui.Store.Statements.{Statement, run}
use chattui.Store.Statements.Growth.{run-Grown, Extends-one}

least_comm : (a b : ℤ) → least a b ≡ least b a
least_comm (pos a) (pos b) = ground arith
least_comm (pos a) (negsuc b) = refl
least_comm (negsuc a) (pos b) = refl
least_comm (negsuc a) (negsuc b) = ground arith

greatest_comm : (a b : ℤ) → greatest a b ≡ greatest b a
greatest_comm (pos a) (pos b) = ground arith
greatest_comm (pos a) (negsuc b) = refl
greatest_comm (negsuc a) (pos b) = refl
greatest_comm (negsuc a) (negsuc b) = ground arith

distinct : (a b : ℤ) → (least a b == greatest a b) ≡ false → (a == b) ≡ false
distinct a b h = elim (Bool-cases (int_leb a b)) [
  | inl t ↦ rw t at h
  | inr f ↦ eqb_comm a b ∙ rw f at h
]

-- The pair is distinct and in order, and its row is in the table.
record Made (a b : ℤ) (d' : Database) (row : GetOrCreateConversationRow) : Type 0 where
  ordered : (a == b || not (int_leb a b)) ≡ false
  row_of : Conversation
  found : one (is_pair a b) d'.conversations ≡ ok row_of
  shown : row ≡ pair_row row.is_new row_of

abbrev table_after : Result GetOrCreateConversationRow × Database → List Conversation
table_after x = x.1.conversations

upsert_pair-Made :
    (a b : ℤ) (d : Database) (r : Result Conversation)
    → one (is_pair a b) d.conversations ≡ r
    → (row : GetOrCreateConversationRow) (d' : Database) → upsert_pair a b d r ≡ (ok row, d')
    → (c : Conversation) × (one (is_pair a b) d'.conversations ≡ ok c)
      × (row ≡ pair_row row.is_new c)
unfolding one
upsert_pair-Made a b d (ok c) e row d' h =
    let same : row ≡ pair_row false c = ground (arith, h) in
    (
      c,
      rw (sym (ap table_after h)) e,
      same ∙ ap (λ n. pair_row n c) (sym (ap (λ r. r.is_new) same)),
    )
upsert_pair-Made a b d (err x) e row d' h = elim (Bool-cases (has_user d a && has_user d b)) [
  | inl t ↦
      let made = new_conversation a b d in
      let g = rw t at h in
      let same : row ≡ pair_row true made = ground (arith, g) in
      (
        made,
        rw
            (
              sym (ap table_after g),
              one-append (is_pair a b) d.conversations (made ∷ []),
              one-none (is_pair a b) d.conversations x e,
              one,
              eqb_refl a,
              eqb_refl b,
            )
            refl,
        same ∙ ap (λ n. pair_row n made) (sym (ap (λ r. r.is_new) same)),
      )
  | inr f ↦ absurd (ground (arith, f))
]

insert_pair-Made :
    (a b : ℤ) (d d' : Database) (row : GetOrCreateConversationRow)
    → insert_pair a b d ≡ (ok row, d')
    → Made a b d' row
unfolding insert_pair
insert_pair-Made a b d d' row h = elim (Bool-cases (a == b || not (int_leb a b))) [
  | inl t ↦ absurd (ground (arith, t))
  | inr f ↦
      let (c, found, shown) = upsert_pair-Made a b d _ refl row d' (rw f at h) in
      record { ordered = f; row_of = c; found = found; shown = shown }
]

insert_pair-again :
    (a b : ℤ) (d : Database) (c : Conversation)
    → (a == b || not (int_leb a b)) ≡ false
    → one (is_pair a b) d.conversations ≡ ok c
    → (insert_pair a b d).0 ≡ ok (pair_row false c)
unfolding insert_pair
insert_pair-again a b d c f e = rw (f, e) refl

-- However often and in whichever order two users are named, it is one conversation: who has got a
-- conversation of `a` and `b`, gets the same one for `b` and `a` at any later time, whatever
-- statements were sent since, and it is not new; its users are the smaller and the larger of the
-- two, which differ.
pub conversation_is_one :
    (a b : ℤ) (d d' : Database) (row : GetOrCreateConversationRow)
    → get_or_create_conversation (record { user_a = a; user_b = b }) d ≡ (ok row, d')
    → (since : List Statement)
    → ((get_or_create_conversation (record { user_a = b; user_b = a }) (run since d')).0
        ≡ ok (record row { is_new = false }))
      × (row.user_a ≡ least a b)
      × (row.user_b ≡ greatest a b)
      × (a == b ≡ false)
unfolding get_or_create_conversation
conversation_is_one a b d d' row h since =
    let l = least a b in
    let g = greatest a b in
    let made = insert_pair l g d in
    let m = insert_pair-Made l g d made.1 row (λ i. ((h i).0, made.1)) in
    let there : one (is_pair l g) d'.conversations ≡ ok m.row_of =
      ap (λ cs. one (is_pair l g) cs) (sym (ap table_after h)) ∙ m.found in
    let later =
      Extends-one (is_pair l g) d'.conversations _ m.row_of (run-Grown since d').conversations
        there in
    let pair = one-fits (is_pair l g) d'.conversations m.row_of there in
    let again = insert_pair-again l g (run since d') m.row_of m.ordered later in
    (
      rw (least_comm b a, greatest_comm b a)
          (again
            ∙ ap (λ (r : GetOrCreateConversationRow). ok (record r { is_new = false }))
                (sym m.shown)),
      ap (λ r. r.user_a) m.shown ∙ eqb-eq_true (and_left _ _ pair),
      ap (λ r. r.user_b) m.shown ∙ eqb-eq_true (and_right _ _ pair),
      distinct a b (or_left _ _ m.ordered),
    )
