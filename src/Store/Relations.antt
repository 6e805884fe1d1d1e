-- ===== src/Store/Relations.antt =====
-- What the queries of cmd/server/internal/store/*.sql.go use of SQL, over tables as lists of rows.
pub mod Rows
use chattui.Common.{
  ℕ, suc, ℤ, pos, negsuc, Bool, true, false, Option, none, some, List, [], ◌∷◌, ◌++◌, map,
  if◌then◌else◌, ltb, ◌&&◌, ◌||◌, ◌≡◌, refl, ◌∙◌, arith,
}
use chattui.Errs.{Error, Result, ok, err, no_rows}
use chattui.Store.Sql.{those}

module _ {A : Type 0} where
  -- EXISTS
  unfoldable pub any : (A → Bool) → List A → Bool
  any p [] = false
  any p (x ∷ xs) = p x || any p xs

  -- `:one` scans the first row, and answers pgx.ErrNoRows where there is none.
  unfoldable pub one : (A → Bool) → List A → Result A
  one p [] = err no_rows
  one p (x ∷ xs) = let rest = one p xs in if p x then ok x else rest

  -- ORDER BY, where the test says which row may stand before which.
  unfoldable pub place : (A → A → Bool) → A → List A → List A
  place before x [] = x ∷ []
  place before x (y ∷ ys) =
      let rest = place before x ys in if before x y then x ∷ y ∷ ys else y ∷ rest

  unfoldable pub order_by : (A → A → Bool) → List A → List A
  unfolding place
  order_by before [] = []
  order_by before (x ∷ xs) = place before x (order_by before xs)

  pub any-append : (p : A → Bool) (xs ys : List A) → any p (xs ++ ys) ≡ (any p xs || any p ys)
  unfolding any
  any-append p [] ys = refl
  any-append p (x ∷ xs) ys = ground (arith, any-append p xs ys)

  pub any-place :
      (p : A → Bool) (before : A → A → Bool) (x : A) (xs : List A)
      → any p (place before x xs) ≡ (p x || any p xs)
  unfolding any place
  any-place p before x [] = refl
  any-place p before x (y ∷ ys) = ground (arith, any-place p before x ys)

  pub any-order_by :
      (p : A → Bool) (before : A → A → Bool) (xs : List A) → any p (order_by before xs) ≡ any p xs
  unfolding any order_by
  any-order_by p before [] = refl
  any-order_by p before (x ∷ xs) =
      ground (arith, any-place p before x (order_by before xs), any-order_by p before xs)

  pub any-those : (p q : A → Bool) (xs : List A) → any p (those q xs) ≡ any (λ x. q x && p x) xs
  unfolding any
  any-those p q [] = refl
  any-those p q (x ∷ xs) = ground (arith, any-those p q xs)

  -- What is not found before is found in the row that is added.
  pub one-append :
      (p : A → Bool) (xs ys : List A) → one p (xs ++ ys) ≡ (if any p xs then one p xs else one p ys)
  unfolding one any
  one-append p [] ys = refl
  one-append p (x ∷ xs) ys = ground (arith, one-append p xs ys)

  pub one-any : (p : A → Bool) (xs : List A) (x : A) → one p xs ≡ ok x → any p xs ≡ true
  unfolding one any
  one-any p [] x h = absurd (cc)
  one-any p (y ∷ ys) x h = ground (arith, one-any p ys x)

  pub one-none : (p : A → Bool) (xs : List A) (e : Error) → one p xs ≡ err e → any p xs ≡ false
  unfolding one any
  one-none p [] e h = refl
  one-none p (y ∷ ys) e h = ground (arith, one-none p ys e)

  pub one-fits : (p : A → Bool) (xs : List A) (x : A) → one p xs ≡ ok x → p x ≡ true
  unfolding one
  one-fits p [] x h = absurd (cc)
  one-fits p (y ∷ ys) x h = ground (arith, one-fits p ys x)

-- JOIN, with the condition and the row that is made of two.
unfoldable pub join_on : {A B C : Type 0} → (A → B → Bool) → (A → B → C) → List A → List B → List C
join_on p f [] ys = []
join_on p f (x ∷ xs) ys = map (f x) (those (p x) ys) ++ join_on p f xs ys

pub any-map :
    {A B : Type 0} (p : B → Bool) (f : A → B) (xs : List A)
    → any p (map f xs) ≡ any (λ x. p (f x)) xs
unfolding any
any-map p f [] = refl
any-map p f (x ∷ xs) = ground (arith, any-map p f xs)

pub any-join_on :
    {A B C : Type 0} (q : C → Bool) (p : A → B → Bool) (f : A → B → C) (xs : List A) (ys : List B)
    → any q (join_on p f xs ys) ≡ any (λ x. any (λ y. p x y && q (f x y)) ys) xs
unfolding any join_on
any-join_on q p f [] ys = refl
any-join_on q p f (x ∷ xs) ys =
    any-append q (map (f x) (those (p x) ys)) (join_on p f xs ys)
    ∙ rw
        (
          any-map q (f x) (those (p x) ys),
          any-those (λ y. q (f x y)) (p x) ys,
          any-join_on q p f xs ys,
        )
        refl

pub any-none : {A : Type 0} (xs : List A) → any (λ x. false) xs ≡ false
unfolding any
any-none [] = refl
any-none (x ∷ xs) = any-none xs

pub any-and :
    {A : Type 0} (c : Bool) (q : A → Bool) (xs : List A) → any (λ x. c && q x) xs ≡ (c && any q xs)
any-and true q xs = refl
any-and false q xs = any-none xs
