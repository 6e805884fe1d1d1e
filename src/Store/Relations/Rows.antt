-- ===== src/Store/Relations/Rows.antt =====
-- Rows that are added at the end of a table, and rows that fail a test.
use chattui.Common.{
  Bool, false, List, [], ◌∷◌, ◌++◌, or_left, or_right, ◌≡◌, refl, ap, ◌∙◌, arith, Bool-cases, inl,
  inr,
}
use mathlib.Core.Path.{fun_ext}
use mathlib.Core.List.{append_assoc}
use chattui.Errs.{ok}
use chattui.Store.Sql.{those}
use chattui.Store.Relations.{any, any-none, one, place, order_by, join_on}

-- A row that is newer than all others is the first.
pub order_by-last :
    {A : Type 0} (before : A → A → Bool) (xs : List A) (r : A)
    → any (λ x. before x r) xs ≡ false
    → order_by before (xs ++ r ∷ []) ≡ r ∷ order_by before xs
unfolding order_by any
order_by-last before [] r h = refl
order_by-last before (x ∷ xs) r h =
    let rest : any (λ z. before z r) xs ≡ false = or_right (before x r) _ h in
    let not_before : before x r ≡ false = or_left _ (any (λ z. before z r) xs) h in
    rw (order_by-last before xs r rest, place, not_before) refl

pub those-append :
    {A : Type 0} (p : A → Bool) (xs ys : List A) → those p (xs ++ ys) ≡ those p xs ++ those p ys
those-append p [] ys = refl
those-append p (x ∷ xs) ys = elim (Bool-cases (p x)) [
  | inl t ↦ rw (t, those-append p xs ys) refl
  | inr f ↦ rw (f, those-append p xs ys) refl
]

pub join_on-append :
    {A B C : Type 0} (p : A → B → Bool) (f : A → B → C) (xs zs : List A) (ys : List B)
    → join_on p f (xs ++ zs) ys ≡ join_on p f xs ys ++ join_on p f zs ys
unfolding join_on
join_on-append p f [] zs ys = refl
join_on-append p f (x ∷ xs) zs ys = rw (join_on-append p f xs zs ys, append_assoc) refl

pub any-no : {A : Type 0} (q : A → Bool) (xs : List A) → ((x : A) → q x ≡ false) → any q xs ≡ false
any-no q xs h = ap (λ g. any g xs) (fun_ext h) ∙ any-none xs

-- What no row has before the join, none has that the join makes of them.
pub any-false-pairs :
    {A B : Type 0} (q : A → B → Bool) (w : A → Bool)
    → ((x : A) (y : B) → w x ≡ false → q x y ≡ false)
    → (xs : List A) (ys : List B) → any w xs ≡ false
    → any (λ x. any (q x) ys) xs ≡ false
unfolding any
any-false-pairs q w same [] ys h = refl
any-false-pairs q w same (x ∷ xs) ys h =
    rw (any-no (q x) ys (λ y. same x y (or_left _ _ h)))
      (any-false-pairs q w same xs ys (or_right _ _ h))

pub any-false-those :
    {A : Type 0} (q p : A → Bool) (xs : List A) → any q xs ≡ false → any q (those p xs) ≡ false
unfolding any
any-false-those q p [] h = refl
any-false-those q p (x ∷ xs) h = ground (arith, any-false-those q p xs)

pub one-those :
    {A : Type 0} (p : A → Bool) (xs : List A) (x : A) → those p xs ≡ x ∷ [] → one p xs ≡ ok x
unfolding one
one-those p [] x h = absurd (cc)
one-those p (y ∷ ys) x h = ground (arith, one-those p ys x)
