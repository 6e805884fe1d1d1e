-- ===== src/Inbox/Unread/Updates.antt =====
-- The two UPDATEs of cmd/server/internal/store/inbox.sql.go, for a WHERE on the columns.
use chattui.Common.{
  suc, ℤ, Bool, true, false, Option, none, some, List, ◌==◌, int_key, nat_key, ◌≡◌, refl, sym, ap,
  ◌∙◌, arith, String, eqb-eq_true,
}
use chattui.Event.{Event}
use chattui.Store.Sql.{Cursor, sql_eq, update_where, bump, zeroed, one_ref}
use chattui.Inbox.Unread.{
  happened, read, Ref, room, conversation, is_of, unread, opens, counts, marks,
}
use chattui.Inbox.Unread.Statements.{
  Whole, room_of, conversation_of, unread-update_where, update_where-Whole, both,
}
use chattui.Inbox.Unread.Openings.{Refines, after-counted, after-marked, no_marks}

sql_eq-some : (o : Option ℤ) (r : ℤ) → sql_eq o (some r) ≡ true → o ≡ some r
sql_eq-some none r h = absurd (ground (arith, h))
sql_eq-some (some a) r h = ap some (eqb-eq_true h)

no_conversation : (r : ℤ) (o : Option ℤ) → one_ref (some r) o ≡ true → o ≡ none
no_conversation r none h = refl
no_conversation r (some v) h = absurd (ground (arith, h))

no_room : (v : ℤ) (o : Option ℤ) → one_ref o (some v) ≡ true → o ≡ none
no_room v none h = refl
no_room v (some r) h = absurd (ground (arith, h))

-- The columns of a row of the user for the room or conversation.
columns :
    (u : ℤ) (ref : Ref) (c : Cursor)
    → one_ref c.ref_room_id c.ref_conversation_id ≡ true
    → is_of u ref c ≡ true
    → (c.user_id ≡ u)
      × (c.ref_room_id ≡ room_of ref)
      × (c.ref_conversation_id ≡ conversation_of ref)
columns u (room r) c o h =
    let (p, q) = both (c.user_id == u) (sql_eq c.ref_room_id (some r)) h in
    let e = sql_eq-some c.ref_room_id r q in
    (
      eqb-eq_true p,
      e,
      no_conversation r c.ref_conversation_id
          (ap (λ x. one_ref x c.ref_conversation_id) (sym e) ∙ o),
    )
columns u (conversation v) c o h =
    let (p, q) = both (c.user_id == u) (sql_eq c.ref_conversation_id (some v)) h in
    let e = sql_eq-some c.ref_conversation_id v q in
    (eqb-eq_true p, no_room v c.ref_room_id (ap (one_ref c.ref_room_id) (sym e) ∙ o), e)

bump-is_of :
    (body : Option String) (s : Option ℤ) (now u : ℤ) (ref : Ref) (c : Cursor)
    → is_of u ref (bump body s now c) ≡ is_of u ref c
bump-is_of body s now u (room r) c = refl
bump-is_of body s now u (conversation v) c = refl

zeroed-is_of : (u : ℤ) (ref : Ref) (c : Cursor) → is_of u ref (zeroed c) ≡ is_of u ref c
zeroed-is_of u (room r) c = refl
zeroed-is_of u (conversation v) c = refl

-- A WHERE of the columns, and its value at the rows for the room or conversation.
abbrev pub Where : Type 0
Where = ℤ → Option ℤ → Option ℤ → Bool

abbrev pub rows_where : Where → Cursor → Bool
rows_where p c = p c.user_id c.ref_room_id c.ref_conversation_id

rows_where-columns :
    (p : Where) (b : Bool) (u : ℤ) (ref : Ref)
    → p u (room_of ref) (conversation_of ref) ≡ b
    → (c : Cursor) → one_ref c.ref_room_id c.ref_conversation_id ≡ true
    → is_of u ref c ≡ true
    → rows_where p c ≡ b
rows_where-columns p b u ref h c o i = let (x, y, z) = columns u ref c o i in rw (x, y, z) h

pub bump-Refines :
    (e : Event) (p : Where) (body : Option String) (s : Option ℤ) (now : ℤ) (cs : List Cursor)
    → ((u : ℤ) (ref : Ref) → opens u ref (happened e) ≡ false)
    → ((u : ℤ) (ref : Ref) → p u (room_of ref) (conversation_of ref) ≡ counts u ref (happened e))
    → Whole cs
    → Refines (happened e) cs (update_where (rows_where p) (bump body s now) cs)
bump-Refines e p body s now cs o h w = (
  update_where-Whole (rows_where p) (bump body s now) (λ c. refl) (λ c. refl) cs w,
  λ u ref.
      unread-update_where (rows_where p) (bump body s now) suc (counts u ref (happened e)) u ref
        (bump-is_of body s now u ref) (λ c. refl) (rows_where-columns p _ u ref (h u ref)) cs w
      ∙ after-counted (happened e) u ref (unread cs u ref) (o u ref) (no_marks e u ref),
)

pub read-opens :
    (r v : Option ℤ) (all : Bool) (x u : ℤ) (ref : Ref) → opens u ref (read v r all x) ≡ false
read-opens r v all x u (room n) = refl
read-opens r v all x u (conversation n) = refl

pub read-counts :
    (r v : Option ℤ) (all : Bool) (x u : ℤ) (ref : Ref) → counts u ref (read v r all x) ≡ false
read-counts r v all x u (room n) = refl
read-counts r v all x u (conversation n) = refl

pub zeroed-Refines :
    (r v : Option ℤ) (all : Bool) (x : ℤ) (p : Where) (cs : List Cursor)
    → ((u : ℤ) (ref : Ref) → p u (room_of ref) (conversation_of ref) ≡ marks u ref (read v r all x))
    → Whole cs
    → Refines (read v r all x) cs (update_where (rows_where p) zeroed cs)
zeroed-Refines r v all x p cs h w = (
  update_where-Whole (rows_where p) zeroed (λ c. refl) (λ c. refl) cs w,
  λ u ref.
      unread-update_where (rows_where p) zeroed (λ n. 0) (marks u ref (read v r all x)) u ref
        (zeroed-is_of u ref) (λ c. refl) (rows_where-columns p _ u ref (h u ref)) cs w
      ∙ after-marked (read v r all x) u ref (unread cs u ref) (read-opens r v all x u ref)
          (read-counts r v all x u ref),
)

-- A test that is false of each room and each conversation.
pub by_ref :
    (f : Ref → Bool)
    → ((n : ℤ) → f (room n) ≡ false)
    → ((n : ℤ) → f (conversation n) ≡ false)
    → (ref : Ref) → f ref ≡ false
by_ref f h k (room n) = h n
by_ref f h k (conversation n) = k n
