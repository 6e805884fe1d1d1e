-- ===== src/Auth/Tokens.antt =====
-- The access tokens of cmd/server/internal/auth: what is issued is accepted, until it expires.
use chattui.Common.{
  ℕ, ◌+◌, ◌<◌, String, true, [], ◌∷◌, ◌==◌, string_key, contains, some, ◌≡◌, refl, sym, ap, ◌∙◌,
  arith, inl, inr,
}
use text.Mathlib.TextEquality.{eq_iff}
use chattui.Errs.{ok, Result-cases}
use chattui.Store.Models.{User}
use chattui.Auth.Libraries.{Claims, hs256, Jwt, IsJwt, IsSigner}
use chattui.Auth.{
  Config, Session, key_for, parse_token, claims_of, generate_access_token, session_for,
}

module _ {K : Type 0} (J : Jwt K) (cfg : Config K) where
  pub session_for-signed :
      (u : User) (now : ℕ) (s : Session)
      → session_for J cfg u now ≡ ok s
      → (J.signed_string hs256 (claims_of J cfg u now) cfg.jwt_secret ≡ ok s.token)
        × (s.user_id ≡ u.id)
        × (s.expires_at ≡ now + cfg.access_ttl)
  unfolding session_for generate_access_token
  session_for-signed u now s h =
      elim (Result-cases (J.signed_string hs256 (claims_of J cfg u now) cfg.jwt_secret)) [
        | inl (e, p) ↦ absurd (ground (arith, p))
        | inr (token, p) ↦ (ground (arith, p), ground (arith, p), ground (arith, p))
      ]

  -- A user for whom a session was made can be given another at any time.
  pub session_for-again :
      IsSigner J
      → (u : User) (now later : ℕ) (s : Session) → session_for J cfg u now ≡ ok s
      → (s' : Session) × (session_for J cfg u later ≡ ok s')
        × (s'.user_id ≡ s.user_id)
        × (s'.username ≡ s.username)
        × (s'.expires_at ≡ later + cfg.access_ttl)
  unfolding session_for generate_access_token
  session_for-again L u now later s h =
      elim (Result-cases (J.signed_string hs256 (claims_of J cfg u now) cfg.jwt_secret)) [
        | inl (e, p) ↦ absurd (ground (arith, p))
        | inr (token, p) ↦
            let (token', q) =
              L.signs_again (claims_of J cfg u now) (claims_of J cfg u later) cfg.jwt_secret token
                p in
            (
              record {
                user_id = u.id;
                username = u.username;
                created_at = u.created_at.time;
                token = token';
                expires_at = later + cfg.access_ttl;
              },
              rw (session_for, generate_access_token, q) refl,
              ground (arith, p),
              ground (arith, p),
              refl,
            )
      ]

  -- Where the jwt library reads back what it signed: the token of a session is accepted at every
  -- time before the session's end, and stands for the session's user.
  pub issued_token_is_accepted :
      IsJwt J
      → (u : User) (now later : ℕ) (s : Session) → session_for J cfg u now ≡ ok s
      → later < s.expires_at
      → (c : Claims) × (parse_token J cfg s.token later ≡ ok c)
        × (c.user_id ≡ s.user_id)
        × (c.username ≡ u.username)
        × (c.expires_at ≡ some s.expires_at)
  unfolding parse_token key_for contains
  issued_token_is_accepted L u now later s h k =
      let (signed, of_user, until) = session_for-signed u now s h in
      let c = claims_of J cfg u now in
      let read =
        L.parses_signed c cfg.jwt_secret s.token (key_for J cfg) ("HS256" ∷ []) later
          (now + cfg.access_ttl) signed refl refl refl (omega (arith, k, until)) in
      let own : (cfg.issuer == cfg.issuer) ≡ true = ground (arith, eq_iff cfg.issuer cfg.issuer) in
      (c, rw (parse_token, read, own) refl, sym of_user, refl, sym (ap some until))

  -- Where the jwt library refuses what has expired: the claims of every token that is accepted name
  -- the server as the issuer, and have not expired if they have a time of expiry.
  pub accepted_token_is_current :
      IsJwt J
      → (token : String) (now : ℕ) (c : Claims) → parse_token J cfg token now ≡ ok c
      → (c.issuer ≡ cfg.issuer) × ((until : ℕ) → c.expires_at ≡ some until → now < until)
  unfolding parse_token
  accepted_token_is_current L token now c h =
      elim (Result-cases (J.parse_with_claims token (key_for J cfg) ("HS256" ∷ []) now)) [
        | inl (e, p) ↦ absurd (ground (arith, p))
        | inr ((claims, valid), p) ↦
            let fresh = L.refuses_expired token (key_for J cfg) ("HS256" ∷ []) now claims valid in
            let same : claims ≡ c = ground (arith, p) in
            (
              ground (arith, p, eq_iff claims.issuer cfg.issuer),
              λ until e. fresh until p (ap (λ x. x.expires_at) same ∙ e),
            )
      ]
