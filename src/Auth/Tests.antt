-- ===== src/Auth/Tests.antt =====
-- The theorems about cmd/server/internal/auth at one account: a library that signs its claims
-- alone, a hash that is the password, and a database with her as its one user.
use chattui.Common.{
  ℕ, ◌<◌, ltb, pos, Option, none, some, some-injective, int_eq_iff, int_key, nat_eq_iff, nat_key,
  String, Bool, true, false, ◌∙◌, Bool-cases, List, [], if◌then◌else◌, ◌==◌, ◌∷◌, ◌&&◌, string_key,
  contains, ◌≡◌, refl, sym, ap, arith, inl, inr,
}
use text.Mathlib.TextEquality.{eq_iff}
use chattui.Errs.{other, Result, ok, err}
use chattui.Store.Models.{User}
use chattui.Auth.Libraries.{Claims, Method, hs256, foreign, Jwt, IsJwt, IsSigner, Bcrypt, IsBcrypt}
use chattui.Auth.{
  Config, Input, Session, parse_token, session_for, generate_access_token, register, login,
  create_account,
}
use chattui.Auth.Tokens.{issued_token_is_accepted}
use chattui.Store.Database.{Database}
use chattui.Store.Users.{create_user, get_user_by_username}
use chattui.Store.Statements as Statements
use chattui.Store.Statements.{Statement, run, user_store}
use chattui.Store.Statements.Keys.{empty}
use chattui.Store.Statements.Accounts.{registered_user_keeps_account}

abbrev cfg : Config ℕ
cfg = record { jwt_secret = 7; issuer = "chattui"; access_ttl = 900 }

abbrev the_claims : Claims
the_claims = record {
  user_id = pos 1;
  username = "ana";
  issuer = "chattui";
  issued_at = 100;
  expires_at = some 1000;
}

abbrev ends : Option ℕ → Bool
ends none = false
ends (some t) = t == 1000

ends_lem : (t : Option ℕ) → ends t ≡ true → t ≡ some 1000
ends_lem none h = absurd (cc)
ends_lem (some t) h = ground (arith, h, nat_eq_iff t 1000)

abbrev is_the_claims : Claims → Bool
is_the_claims c =
    c.user_id == pos 1
    && (c.username == "ana" && (c.issuer == "chattui" && (c.issued_at == 100 && ends c.expires_at)))

abbrev sign : Method → Claims → ℕ → Result String
sign (foreign m) c key = err (other "method")
sign hs256 c key = if is_the_claims c && key == 7 then ok "token" else err (other "claims")

abbrev parse_with : Result ℕ → String → List String → ℕ → Result (Claims × Bool)
parse_with (err e) token names now = err e
parse_with (ok key) token names now =
    if key == 7 && (token == "token" && (contains "HS256" names && ltb now 1000))
    then ok (the_claims, true)
    else err (other "token")

abbrev jwt : Jwt ℕ
jwt = record {
  signed_string = sign;
  parse_with_claims = λ token keys names now. parse_with (keys hs256) token names now;
}

claims_lem : (c : Claims) → is_the_claims c ≡ true → c ≡ the_claims
claims_lem c h =
    let a : c.user_id ≡ pos 1 = ground (arith, h, int_eq_iff c.user_id (pos 1)) in
    let b : c.username ≡ "ana" = ground (arith, h, eq_iff c.username "ana") in
    let d : c.issuer ≡ "chattui" = ground (arith, h, eq_iff c.issuer "chattui") in
    let e : c.issued_at ≡ 100 = ground (arith, h, nat_eq_iff c.issued_at 100) in
    let f : c.expires_at ≡ some 1000 = ends_lem c.expires_at (ground (arith, h)) in
    λ i. record { user_id = a i; username = b i; issuer = d i; issued_at = e i; expires_at = f i }

signed_lem :
    (c : Claims) (key : ℕ) (token : String)
    → sign hs256 c key ≡ ok token
    → (c ≡ the_claims) × (key ≡ 7) × (token ≡ "token")
signed_lem c key token h = elim (Bool-cases (is_the_claims c)) [
  | inl p ↦ (
    claims_lem c p,
    ground (arith, h, p, nat_eq_iff key 7),
    ground (arith, h, p, nat_eq_iff key 7),
  )
  | inr p ↦ absurd (ground (arith, h, p))
]

parsed_lem :
    (key : Result ℕ) (token : String) (names : List String) (now : ℕ) (c : Claims) (valid : Bool)
    (until : ℕ)
    → parse_with key token names now ≡ ok (c, valid)
    → c.expires_at ≡ some until
    → now < until
parsed_lem (err e) token names now c valid until h ends_at = absurd (ground (arith, h))
parsed_lem (ok key) token names now c valid until h ends_at =
    elim (Bool-cases (key == 7 && (token == "token" && (contains "HS256" names && ltb now 1000)))) [
      | inl p ↦
          let soon : now < 1000 = ground (arith, p) in
          let same : the_claims ≡ c = ground (arith, h, p) in
          let last : 1000 ≡ until =
            some-injective _ _ (ap (λ (x : Claims). x.expires_at) same ∙ ends_at) in
          omega (arith, last)
      | inr p ↦ absurd (ground (arith, h, p))
    ]

jwt-IsJwt : IsJwt jwt
jwt-IsJwt = record {
  parses_signed = λ c key token keys names now until signed k n ends_at before.
      let (same, seven, t) = signed_lem c key token signed in
      let last : 1000 ≡ until =
        some-injective _ _ (ap (λ (x : Claims). x.expires_at) (sym same) ∙ ends_at) in
      let soon : now < 1000 = omega (arith, last) in
      rw (k, same, seven, t, n) (ground (arith, soon));
  refuses_expired = λ token keys names now c valid until p e.
      parsed_lem (keys hs256) token names now c valid until p e;
}

abbrev ana : User
ana = record {
  id = pos 1;
  username = "ana";
  password = "secret";
  created_at = record { time = pos 0; valid = true };
}

abbrev session : Session
session = record {
  user_id = pos 1;
  username = "ana";
  created_at = pos 0;
  token = "token";
  expires_at = 1000;
}

issued_token_is_accepted_example :
    (c : Claims) × (parse_token jwt cfg "token" 999 ≡ ok c)
    × (c.user_id ≡ pos 1)
    × (c.username ≡ "ana")
    × (c.expires_at ≡ some 1000)
unfolding session_for generate_access_token
issued_token_is_accepted_example =
    issued_token_is_accepted jwt cfg jwt-IsJwt ana 100 999 session refl (omega arith)

-- A hash that is the password.
abbrev plain : Bcrypt
plain = record { generate_from_password = λ p. ok p; compare_hash_and_password = λ h p. h == p }

plain-IsBcrypt : IsBcrypt plain
plain-IsBcrypt = record { compares_generated = λ p h e. ground (arith, e, eq_iff h p) }

abbrev in_ : Input
in_ = record { username = "ana"; password = "secret" }

abbrev after : Database
after = (create_user (record { username = "ana"; password = "secret" }) empty).1

-- Another user takes the name in vain, and one takes another name.
abbrev since : List Statement
since =
    Statements.create_user (record { username = "bob"; password = "x" })
    ∷ Statements.create_user (record { username = "ana"; password = "x" })
    ∷ []

-- A library that signs whatever it is given, and reads nothing back.
abbrev signer : Jwt ℕ
signer = record {
  signed_string = λ m c key. ok "token";
  parse_with_claims = λ token keys names now. err (other "token");
}

signer-IsSigner : IsSigner signer
signer-IsSigner = record { signs_again = λ c c' key token e. ("token", refl) }

registered_user_keeps_account_example :
    (s : Session) × (login signer plain cfg user_store in_ 101 (run since after) ≡ ok s)
    × (s.user_id ≡ pos 1)
    × (s.username ≡ "ana")
    × (s.expires_at ≡ 1001)
unfolding register create_account session_for generate_access_token create_user get_user_by_username
registered_user_keeps_account_example =
    registered_user_keeps_account signer plain cfg plain-IsBcrypt signer-IsSigner in_ 100 101 empty
      after session refl since
