-- ===== src/Common/Maps.antt =====
-- A Go map as an association list. A key stands in it at most once if it was built by `insert`.
use mathlib.Core.Path.{◌≡◌, refl}
use mathlib.Core.Bool.{Bool, true, false}
use mathlib.Core.Bool.{Bool, true, false}
use mathlib.Core.List.{List, [], ◌∷◌}
use mathlib.Core.Option.{Option, none, some}
use native.Mathlib.Omega.{arith}
use chattui.Common.Tests.{if◌then◌else◌, Key, ◌==◌}

abbrev pub Map {ℓ κ} : Type ℓ → Type κ → Type (ℓ ⊔ κ)
Map K V = List (K × V)

module _ {ℓ κ} {K : Type ℓ} {V : Type κ} ⦃k : Key K⦄ where
  unfoldable pub lookup : K → Map K V → Option V
  lookup i [] = none
  lookup i ((j, v) ∷ m) = if j == i then some v else lookup i m

  unfoldable pub insert : K → V → Map K V → Map K V
  insert i v [] = (i, v) ∷ []
  insert i v ((j, w) ∷ m) = if j == i then (i, v) ∷ m else (j, w) ∷ insert i v m

  unfoldable pub delete : K → Map K V → Map K V
  delete i [] = []
  delete i ((j, w) ∷ m) = if j == i then delete i m else (j, w) ∷ delete i m

  pub lookup-nil : (i : K) → lookup i [] ≡ none
  unfolding lookup
  lookup-nil i = refl

  pub lookup-insert :
      (i j : K) (v : V) (m : Map K V)
      → lookup j (insert i v m) ≡ (if i == j then some v else lookup j m)
  unfolding lookup insert
  lookup-insert i j v [] = refl
  lookup-insert i j v ((x, w) ∷ m) =
      ground (arith, k.eqb_iff i j, k.eqb_iff x i, k.eqb_iff x j, lookup-insert i j v m)

  pub lookup-delete :
      (i j : K) (m : Map K V) → lookup j (delete i m) ≡ (if i == j then none else lookup j m)
  unfolding lookup delete
  lookup-delete i j [] = ground arith
  lookup-delete i j ((x, w) ∷ m) =
      ground (arith, k.eqb_iff i j, k.eqb_iff x i, k.eqb_iff x j, lookup-delete i j m)

  abbrev pub has : K → Map K V → Bool
  has i m = elim (lookup i m) [ none ↦ false | some v ↦ true ]

  -- No key stands twice: what a Go map is.
  abbrev pub Distinct : Map K V → Type 0
  Distinct [] = Unit {0}
  Distinct ((i, v) ∷ m) = (has i m ≡ false) × Distinct m
