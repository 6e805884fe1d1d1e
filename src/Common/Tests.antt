-- ===== src/Common/Tests.antt =====
-- Boolean tests, the conditional, and the interface of a type whose values are compared by `==`.
use Prim.Native.Nat.{ℕ, compare, Ordering}
use Prim.Native.String.{String}
use mathlib.Core.Path.{◌≡◌, refl, sym}
use mathlib.Core.Logic.{◌↔◌, ◌⊎◌, inl, inr}
use mathlib.Core.Bool.{Bool, true, false, ◌&&◌, ◌||◌}
use mathlib.Core.Option.{Option, none, some}
use native.Mathlib.Omega.{arith}
use text.Mathlib.Text.{◌==◌ as str_eq}
use text.Mathlib.TextEquality.{eq_iff}

abbrev pub ltb : ℕ → ℕ → Bool
ltb a b = elim (compare a b) [ Ordering.lt ↦ true | _ ↦ false ]

abbrev pub leb : ℕ → ℕ → Bool
leb a b = elim (compare a b) [ Ordering.gt ↦ false | _ ↦ true ]

abbrev pub nat_eq : ℕ → ℕ → Bool
nat_eq a b = elim (compare a b) [ Ordering.eq ↦ true | _ ↦ false ]

infix 1 if◌then◌else◌
abbrev pub if◌then◌else◌ {ℓ} : {A : Type ℓ} → Bool → A → A → A
if true then x else y = x
if false then x else y = y

pub nat_eq_iff : (a b : ℕ) → (nat_eq a b ≡ true) ↔ (a ≡ b)
nat_eq_iff a b = ground arith

pub nat_eq_refl : (a : ℕ) → nat_eq a a ≡ true
nat_eq_refl a = ground arith

pub Bool-cases : (b : Bool) → (b ≡ true) ⊎ (b ≡ false)
Bool-cases true = inl refl
Bool-cases false = inr refl

pub Option-cases {ℓ} : {A : Type ℓ} (o : Option A) → (o ≡ none) ⊎ ((a : A) × (o ≡ some a))
Option-cases none = inl refl
Option-cases (some a) = inr (a, refl)

-- What a Go map asks of its keys.
pub record Key {ℓ} (K : Type ℓ) : Type ℓ where
  pub eqb : K → K → Bool
  pub eqb_iff : (a b : K) → (eqb a b ≡ true) ↔ (a ≡ b)

infix 50 ◌==◌
abbrev pub ◌==◌ {ℓ} : {K : Type ℓ} ⦃k : Key K⦄ → K → K → Bool
◌==◌ ⦃k⦄ = k.eqb

instance abbrev pub nat_key : Key ℕ
nat_key = record { eqb = nat_eq; eqb_iff = nat_eq_iff }

instance abbrev pub string_key : Key String
string_key = record { eqb = str_eq; eqb_iff = eq_iff }

module _ {ℓ} {K : Type ℓ} ⦃k : Key K⦄ where
  pub eqb_refl : (a : K) → (a == a) ≡ true
  eqb_refl a = (k.eqb_iff a a).1 refl

  pub eqb-eq_true : {a b : K} → (a == b) ≡ true → a ≡ b
  eqb-eq_true {a} {b} h = (k.eqb_iff a b).0 h

  -- A test, with what it says of the values.
  pub eqb-cases : (a b : K) → (((a == b) ≡ true) × (a ≡ b)) ⊎ (((a == b) ≡ false) × ¬ (a ≡ b))
  eqb-cases a b = elim (Bool-cases (a == b)) [
    | inl e ↦ inl (e, eqb-eq_true e)
    | inr e ↦ inr (e, λ p. cc ((k.eqb_iff a b).1 p))
  ]

  pub eqb_comm : (a b : K) → (a == b) ≡ (b == a)
  eqb_comm a b = elim (eqb-cases a b) [
    | inl (t, e) ↦ rw e refl
    | inr (f, n) ↦ elim (Bool-cases (b == a)) [
      | inl t ↦ absurd (n (sym (eqb-eq_true t)))
      | inr g ↦ rw (f, g) refl
    ]
  ]

pub and_left : (a b : Bool) → (a && b) ≡ true → a ≡ true
and_left true b h = refl
and_left false b h = h

pub and_right : (a b : Bool) → (a && b) ≡ true → b ≡ true
and_right true b h = h
and_right false b h = absurd (cc)

pub or_left : (a b : Bool) → (a || b) ≡ false → a ≡ false
or_left true b h = h
or_left false b h = refl

pub or_right : (a b : Bool) → (a || b) ≡ false → b ≡ false
or_right true b h = absurd (cc)
or_right false b h = h

pub and_comm : (a b : Bool) → (a && b) ≡ (b && a)
and_comm true true = refl
and_comm true false = refl
and_comm false true = refl
and_comm false false = refl
