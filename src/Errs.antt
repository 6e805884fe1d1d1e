-- ===== src/Errs.antt =====
-- cmd/server/internal/errs/errs.go and the sentinel errors of the other packages, with the result
-- of a call that may fail.
use chattui.Common.{String, ◌≡◌, refl, ◌⊎◌, inl, inr}

pub data Error : Type 0 where
  -- errs.ErrNotFound, ErrForbidden, ErrNoParams, ErrAmbiguousParams
  not_found forbidden no_params ambiguous_params : Error
  -- auth.ErrUsernameTaken, ErrInvalidCreds, ErrUserNotFound
  username_taken invalid_creds user_not_found : Error
  -- pgx.ErrNoRows
  no_rows : Error
  -- any other error, with its text
  other : String → Error

pub data Result {ℓ} (A : Type ℓ) : Type ℓ where
  ok : A → Result A
  err : Error → Result A

pub Result-cases {ℓ} :
    {A : Type ℓ} (r : Result A) → ((e : Error) × (r ≡ err e)) ⊎ ((a : A) × (r ≡ ok a))
Result-cases (ok a) = inr (a, refl)
Result-cases (err e) = inl (e, refl)
