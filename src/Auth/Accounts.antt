-- ===== src/Auth/Accounts.antt =====
-- Registration and login of cmd/server/internal/auth/service.go together.
use chattui.Common.{ℕ, String, true, ◌≡◌, refl, sym, arith, inl, inr}
use chattui.Errs.{ok, Result-cases}
use chattui.Store.Models.{User}
use chattui.Auth.Libraries.{Jwt, Bcrypt, IsBcrypt}
use chattui.Auth.{
  Config, Input, Session, Store, CreateUserParams, session_for, create_account, register, login,
}
use chattui.Auth.Tokens.{session_for-signed}

-- What the users table keeps: a user that is made has the given name and hash, and is found by the
-- name.
pub record IsUserStore {D : Type 0} (S : Store D) : Type 0 where
  pub keeps_hash :
      (p : CreateUserParams) (d d' : D) (u : User)
      → S.create_user p d ≡ (ok u, d')
      → u.password ≡ p.password
  pub finds_created :
      (p : CreateUserParams) (d d' : D) (u : User)
      → S.create_user p d ≡ (ok u, d')
      → S.get_user_by_username p.username d' ≡ ok u

module _ {K D : Type 0} (J : Jwt K) (C : Bcrypt) (cfg : Config K) (S : Store D) where
  create_account-created :
      (in_ : Input) (hash : String) (now : ℕ) (d d' : D) (s : Session)
      → create_account J C cfg S in_ hash now d ≡ (ok s, d')
      → (u : User) × (S.create_user (record { username = in_.username; password = hash }) d
          ≡ (ok u, d'))
        × (session_for J cfg u now ≡ ok s)
  unfolding create_account
  create_account-created in_ hash now d d' s h =
      let call = S.create_user (record { username = in_.username; password = hash }) d in
      elim (Result-cases call.0) [
        | inl (e, p) ↦ absurd (ground (arith, p))
        | inr (u, p) ↦
            let after : call.1 ≡ d' = ground (arith, p) in
            (u, (λ i. (p i, after i)), ground (arith, p))
      ]

  pub register-created :
      (in_ : Input) (now : ℕ) (d d' : D) (s : Session)
      → register J C cfg S in_ now d ≡ (ok s, d')
      → (hash : String) × (u : User) × (C.generate_from_password in_.password ≡ ok hash)
        × (S.create_user (record { username = in_.username; password = hash }) d ≡ (ok u, d'))
        × (session_for J cfg u now ≡ ok s)
  unfolding register
  register-created in_ now d d' s h = elim (Result-cases (S.get_user_by_username in_.username d)) [
    | inr (u, p) ↦ absurd (ground (arith, p))
    | inl (e, p) ↦ elim (Result-cases (C.generate_from_password in_.password)) [
      | inl (x, q) ↦ absurd (ground (arith, p, q))
      | inr (hash, q) ↦
          let (u, c, r) = create_account-created in_ hash now d d' s (ground (arith, p, q)) in
          (hash, u, q, c, r)
    ]
  ]

  -- Where bcrypt accepts the hash it made, and the users table finds the user that it made, with
  -- the hash: a later login with the same name and password comes to the signing of a session for
  -- the user who has registered, and answers what the signing does.
  pub registered_user_logs_in :
      IsBcrypt C
      → IsUserStore S
      → (in_ : Input) (now later : ℕ) (d d' : D) (s : Session)
      → register J C cfg S in_ now d ≡ (ok s, d')
      → (u : User) × (u.id ≡ s.user_id) × (login J C cfg S in_ later d' ≡ session_for J cfg u later)
  unfolding login
  registered_user_logs_in LC LS in_ now later d d' s h =
      let (hash, u, q, c, r) = register-created in_ now d d' s h in
      let p : CreateUserParams = record { username = in_.username; password = hash } in
      let found = LS.finds_created p d d' u c in
      let fits : C.compare_hash_and_password u.password in_.password ≡ true =
        rw (LS.keeps_hash p d d' u c) (LC.compares_generated in_.password hash q) in
      let (signed, of_user, until) = session_for-signed J cfg u now s r in
      (u, sym of_user, rw (login, found, fits) refl)
