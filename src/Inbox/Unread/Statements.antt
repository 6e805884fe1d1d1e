-- ===== src/Inbox/Unread/Statements.antt =====
-- How the statements of cmd/server/internal/store/inbox.sql.go change the unread counts.
use chattui.Common.{
  ℕ, ℤ, Bool, true, false, Option, none, some, List, [], ◌∷◌, ◌++◌, if◌then◌else◌, ◌==◌, ◌&&◌,
  int_key, ◌≡◌, refl, ap, ◌∙◌, arith, eqb-eq_true, Bool-cases, Option-cases, inl, inr,
}
use chattui.Store.Sql.{Cursor, sql_eq, is_set, update_where, any, conflicts, fresh, one_ref}
use chattui.Inbox.Unread.{Ref, room, conversation, is_of, unread}

-- Each row is of a room or of a conversation, as the constraint room_conv_refs asks.
abbrev pub Whole : List Cursor → Type 0
Whole [] = Unit {0}
Whole (c ∷ cs) = (one_ref c.ref_room_id c.ref_conversation_id ≡ true) × Whole cs

abbrev pub applied : Bool → (ℕ → ℕ) → Option ℕ → Option ℕ
applied b g none = none
applied b g (some n) = some (if b then g n else n)

is_of-changed :
    (u : ℤ) (ref : Ref) (f : Cursor → Cursor) (b : Bool) (c : Cursor)
    → is_of u ref (f c) ≡ is_of u ref c
    → is_of u ref (if b then f c else c) ≡ is_of u ref c
is_of-changed u ref f true c h = h
is_of-changed u ref f false c h = refl

unread-changed :
    (f : Cursor → Cursor) (g : ℕ → ℕ) (b : Bool) (c : Cursor)
    → (f c).unread_count ≡ g c.unread_count
    → (if b then f c else c).unread_count ≡ (if b then g c.unread_count else c.unread_count)
unread-changed f g true c h = h
unread-changed f g false c h = refl

-- An UPDATE whose WHERE takes the rows of the user and the room or conversation, or takes none of
-- them.
pub unread-update_where :
    (p : Cursor → Bool) (f : Cursor → Cursor) (g : ℕ → ℕ) (b : Bool) (u : ℤ) (ref : Ref)
    → ((c : Cursor) → is_of u ref (f c) ≡ is_of u ref c)
    → ((c : Cursor) → (f c).unread_count ≡ g c.unread_count)
    → ((c : Cursor)
        → one_ref c.ref_room_id c.ref_conversation_id ≡ true
        → is_of u ref c ≡ true
        → p c ≡ b)
    → (cs : List Cursor) → Whole cs
    → unread (update_where p f cs) u ref ≡ applied b g (unread cs u ref)
unfolding unread
unread-update_where p f g b u ref same n h [] w = refl
unread-update_where p f g b u ref same n h (c ∷ cs) (o, w) =
    let rest = unread-update_where p f g b u ref same n h cs w in
    let e = is_of-changed u ref f (p c) c (same c) in
    elim (Bool-cases (is_of u ref c)) [
      | inl t ↦
          rw (e, t)
            (ap some (
              unread-changed f g (p c) c (n c)
              ∙ ap (λ x. if x then g c.unread_count else c.unread_count) (h c o t)))
      | inr d ↦ rw (e, d) rest
    ]

unread-append :
    (cs : List Cursor) (c : Cursor) (u : ℤ) (ref : Ref)
    → unread (cs ++ c ∷ []) u ref ≡ elim (unread cs u ref) [
      | none ↦ if is_of u ref c then some c.unread_count else none
      | some n ↦ some n
    ]
unfolding unread
unread-append [] c u ref = refl
unread-append (x ∷ cs) c u ref = elim (Bool-cases (is_of u ref x)) [
  | inl t ↦ rw t refl
  | inr d ↦ rw d (unread-append cs c u ref)
]

-- The columns of a row of the room or conversation.
abbrev pub room_of : Ref → Option ℤ
room_of (room r) = some r
room_of (conversation v) = none

abbrev pub conversation_of : Ref → Option ℤ
conversation_of (room r) = none
conversation_of (conversation v) = some v

sql_eq-none : (a : Option ℤ) → sql_eq a none ≡ false
sql_eq-none none = refl
sql_eq-none (some a) = refl

conflicts-is_of :
    (u : ℤ) (ref : Ref) (c : Cursor)
    → conflicts u (room_of ref) (conversation_of ref) c ≡ is_of u ref c
conflicts-is_of u (room r) c = ground (arith, sql_eq-none c.ref_conversation_id)
conflicts-is_of u (conversation v) c = ground (arith, sql_eq-none c.ref_room_id)

any-conflicts :
    (u : ℤ) (ref : Ref) (cs : List Cursor)
    → any (conflicts u (room_of ref) (conversation_of ref)) cs ≡ is_set (unread cs u ref)
unfolding unread
any-conflicts u ref [] = refl
any-conflicts u ref (c ∷ cs) = elim (Bool-cases (is_of u ref c)) [
  | inl t ↦ rw (conflicts-is_of u ref c, t) refl
  | inr d ↦ rw (conflicts-is_of u ref c, d) (any-conflicts u ref cs)
]

abbrev pub row_for : ℤ → Ref → Cursor
row_for u ref = fresh u (room_of ref) (conversation_of ref)

-- INSERT ... ON CONFLICT DO NOTHING
abbrev pub upserted : ℤ → Ref → List Cursor → List Cursor
upserted u ref cs =
    if any (conflicts u (room_of ref) (conversation_of ref)) cs
    then cs
    else cs ++ row_for u ref ∷ []

pub both : (a b : Bool) → (a && b) ≡ true → (a ≡ true) × (b ≡ true)
both true b h = (refl, h)
both false b h = absurd (ground (arith, h))

same_row : (u v : ℤ) (ref own : Ref) → is_of u ref (row_for v own) ≡ true → (v ≡ u) × (own ≡ ref)
same_row u v (room r) (room x) h =
    let (p, q) = both (v == u) (x == r) h in (eqb-eq_true p, ap room (eqb-eq_true q))
same_row u v (room r) (conversation x) h = absurd (ground (arith, both (v == u) false h))
same_row u v (conversation r) (room x) h = absurd (ground (arith, both (v == u) false h))
same_row u v (conversation r) (conversation x) h =
    let (p, q) = both (v == u) (x == r) h in (eqb-eq_true p, ap conversation (eqb-eq_true q))

abbrev pub opened : Bool → Option ℕ → Option ℕ
opened b none = if b then some 0 else none
opened b (some n) = some n

opened-eq :
    (b : Bool) (o : Option ℕ)
    → elim o [ none ↦ if b then some 0 else none | some n ↦ some n ] ≡ opened b o
opened-eq b none = refl
opened-eq b (some n) = refl

already :
    (u v : ℤ) (ref own : Ref) (cs : List Cursor) (n : ℕ)
    → unread cs v own ≡ some n
    → unread cs u ref ≡ opened (is_of u ref (row_for v own)) (unread cs u ref)
already u v ref own cs n e = elim (Option-cases (unread cs u ref)) [
  | inr (k, h) ↦ rw h refl
  | inl h ↦ elim (Bool-cases (is_of u ref (row_for v own))) [
    | inr f ↦ rw (h, f) refl
    | inl t ↦
        let (p, q) = same_row u v ref own t in
        absurd (cc (e, ap (λ x. unread cs x own) p, ap (unread cs u) q, h))
  ]
]

pub unread-upserted :
    (u v : ℤ) (ref own : Ref) (cs : List Cursor)
    → unread (upserted v own cs) u ref ≡ opened (is_of u ref (row_for v own)) (unread cs u ref)
unread-upserted u v ref own cs = elim (Option-cases (unread cs v own)) [
  | inl h ↦ rw (any-conflicts v own cs ∙ ap is_set h) (
      unread-append cs (row_for v own) u ref
      ∙ opened-eq (is_of u ref (row_for v own)) (unread cs u ref))
  | inr (n, h) ↦ rw (any-conflicts v own cs ∙ ap is_set h) (already u v ref own cs n h)
]

Whole-append : (cs : List Cursor) (u : ℤ) (ref : Ref) → Whole cs → Whole (cs ++ row_for u ref ∷ [])
Whole-append [] u (room r) w = (refl, tt)
Whole-append [] u (conversation v) w = (refl, tt)
Whole-append (c ∷ cs) u ref (o, w) = (o, Whole-append cs u ref w)

pub upserted-Whole : (u : ℤ) (ref : Ref) (cs : List Cursor) → Whole cs → Whole (upserted u ref cs)
upserted-Whole u ref cs w =
    elim (Bool-cases (any (conflicts u (room_of ref) (conversation_of ref)) cs)) [
      | inl t ↦ rw t w
      | inr f ↦ rw f (Whole-append cs u ref w)
    ]

one_ref-changed :
    (b : Bool) (f : Cursor → Cursor) (c : Cursor)
    → (f c).ref_room_id ≡ c.ref_room_id
    → (f c).ref_conversation_id ≡ c.ref_conversation_id
    → one_ref c.ref_room_id c.ref_conversation_id ≡ true
    → one_ref (if b then f c else c).ref_room_id (if b then f c else c).ref_conversation_id ≡ true
one_ref-changed true f c e g h = rw (e, g) h
one_ref-changed false f c e g h = h

pub update_where-Whole :
    (p : Cursor → Bool) (f : Cursor → Cursor)
    → ((c : Cursor) → (f c).ref_room_id ≡ c.ref_room_id)
    → ((c : Cursor) → (f c).ref_conversation_id ≡ c.ref_conversation_id)
    → (cs : List Cursor) → Whole cs
    → Whole (update_where p f cs)
update_where-Whole p f e g [] w = tt
update_where-Whole p f e g (c ∷ cs) (o, w) =
    (one_ref-changed (p c) f c (e c) (g c) o, update_where-Whole p f e g cs w)

pub and_false : (b : Bool) → (b && false) ≡ false
and_false true = refl
and_false false = refl
