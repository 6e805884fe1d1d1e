-- ===== src/Auth/Libraries.antt =====
-- What cmd/server/internal/auth uses of golang-jwt/jwt and golang.org/x/crypto/bcrypt, with what
-- the two libraries document.
use chattui.Common.{ℕ, ◌<◌, ℤ, String, Bool, true, Option, some, List, contains, string_key, ◌≡◌}
use chattui.Errs.{Result, ok}

-- Claims, with the registered claims that are set; ExpiresAt is a pointer, which may be nil.
pub record Claims : Type 0 where
  pub user_id : ℤ
  pub username : String
  pub issuer : String
  pub issued_at : ℕ
  pub expires_at : Option ℕ

-- A signing method: SigningMethodHS256, or another by its name.
pub data Method : Type 0 where
  hs256 : Method
  foreign : String → Method

pub record Bcrypt : Type 0 where
  pub generate_from_password : String → Result String
  -- true for a nil error
  pub compare_hash_and_password : String → String → Bool

pub record IsBcrypt (C : Bcrypt) : Type 0 where
  pub compares_generated :
      (password hash : String)
      → C.generate_from_password password ≡ ok hash
      → C.compare_hash_and_password hash password ≡ true

-- Tokens with keys in `K`. Parsing is given the token, the key function, the names of the methods
-- that are valid, and the time, and gives the claims and the flag Valid.
pub record Jwt (K : Type 0) : Type 0 where
  pub signed_string : Method → Claims → K → Result String
  pub parse_with_claims : String → (Method → Result K) → List String → ℕ → Result (Claims × Bool)

-- What was signed is read back, with the key that the key function gives, until it expires; and
-- what has a time of expiry is refused from then on.
pub record IsJwt {K : Type 0} (J : Jwt K) : Type 0 where
  pub parses_signed :
      (claims : Claims) (key : K) (token : String) (keys : Method → Result K) (names : List String)
      (now until : ℕ)
      → J.signed_string hs256 claims key ≡ ok token
      → keys hs256 ≡ ok key
      → contains "HS256" names ≡ true
      → claims.expires_at ≡ some until
      → now < until
      → J.parse_with_claims token keys names now ≡ ok (claims, true)
  pub refuses_expired :
      (token : String) (keys : Method → Result K) (names : List String) (now : ℕ) (claims : Claims)
      (valid : Bool) (until : ℕ)
      → J.parse_with_claims token keys names now ≡ ok (claims, valid)
      → claims.expires_at ≡ some until
      → now < until

-- HMAC-SHA256 fails for a key of the wrong type alone: a key that has signed one text of claims
-- signs every other.
pub record IsSigner {K : Type 0} (J : Jwt K) : Type 0 where
  pub signs_again :
      (claims claims' : Claims) (key : K) (token : String)
      → J.signed_string hs256 claims key ≡ ok token
      → (token' : String) × (J.signed_string hs256 claims' key ≡ ok token')
