-- ===== src/Auth.antt =====
-- cmd/server/internal/auth: registration, login and access tokens. bcrypt, the jwt library and the
-- store are parameters; times are in seconds.
pub mod Libraries
pub mod Tokens
pub mod Accounts
mod Tests
use chattui.Common.{
  ℕ, ◌+◌, ℤ, String, Bool, true, false, not, Option, none, some, List, [], ◌∷◌, if◌then◌else◌, ◌==◌,
  ◌||◌, string_key,
}
use chattui.Errs.{Error, username_taken, invalid_creds, user_not_found, other, Result, ok, err}
use chattui.Store.Models.{User}
use Libraries.{Claims, Method, hs256, foreign, Bcrypt, Jwt}

-- Config
pub record Config (K : Type 0) : Type 0 where
  pub jwt_secret : K
  pub issuer : String
  pub access_ttl : ℕ

-- RegisterInput and LoginInput
pub record Input : Type 0 where
  pub username : String
  pub password : String

-- Result
pub record Session : Type 0 where
  pub user_id : ℤ
  pub username : String
  pub created_at : ℤ
  pub token : String
  pub expires_at : ℕ

pub record CreateUserParams : Type 0 where
  pub username : String
  pub password : String

-- The interface Store, over the database `D`.
pub record Store (D : Type 0) : Type 0 where
  pub get_user_by_username : String → D → Result User
  pub create_user : CreateUserParams → D → Result User × D

module _ {K : Type 0} (J : Jwt K) (cfg : Config K) where
  -- The key function of `ParseToken`.
  unfoldable pub key_for : Method → Result K
  key_for hs256 = ok cfg.jwt_secret
  key_for (foreign m) = err (other "invalid algo")

  unfoldable pub parse_token : String → ℕ → Result Claims
  unfolding key_for
  parse_token token now = elim (J.parse_with_claims token key_for ("HS256" ∷ []) now) [
    | err e ↦ err e
    | ok (claims, valid) ↦
        if not valid || not (claims.issuer == cfg.issuer)
        then err (other "invalid token")
        else ok claims
  ]

  abbrev pub claims_of : User → ℕ → Claims
  claims_of u now = record {
    user_id = u.id;
    username = u.username;
    issuer = cfg.issuer;
    issued_at = now;
    expires_at = some (now + cfg.access_ttl);
  }

  -- The token and its last second.
  unfoldable pub generate_access_token : User → ℕ → Result (String × ℕ)
  generate_access_token u now = elim (J.signed_string hs256 (claims_of u now) cfg.jwt_secret) [
    | err e ↦ err e
    | ok token ↦ ok (token, now + cfg.access_ttl)
  ]

  -- The end of `Register` and of `Login`.
  unfoldable pub session_for : User → ℕ → Result Session
  unfolding generate_access_token
  session_for u now = elim (generate_access_token u now) [
    | err e ↦ err e
    | ok (token, exp) ↦ ok (record {
      user_id = u.id;
      username = u.username;
      created_at = u.created_at.time;
      token = token;
      expires_at = exp;
    })
  ]

module _ {K D : Type 0} (J : Jwt K) (C : Bcrypt) (cfg : Config K) (S : Store D) where
  -- Behind the hash.
  unfoldable pub create_account : Input → String → ℕ → D → Result Session × D
  unfolding session_for
  create_account in_ hash now d =
      let (r, d') = S.create_user (record { username = in_.username; password = hash }) d in
      elim r [ err e ↦ (err e, d') | ok u ↦ (session_for J cfg u now, d') ]

  unfoldable pub register : Input → ℕ → D → Result Session × D
  unfolding create_account
  register in_ now d = elim (S.get_user_by_username in_.username d) [
    | ok u ↦ (err username_taken, d)
    | err e ↦ elim (C.generate_from_password in_.password) [
      | err e ↦ (err e, d)
      | ok hash ↦ create_account in_ hash now d
    ]
  ]

  unfoldable pub login : Input → ℕ → D → Result Session
  unfolding session_for
  login in_ now d = elim (S.get_user_by_username in_.username d) [
    | err e ↦ err user_not_found
    | ok u ↦
        if C.compare_hash_and_password u.password in_.password
        then session_for J cfg u now
        else err invalid_creds
  ]
