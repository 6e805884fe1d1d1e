-- ===== src/Api/Routes/Protected.antt =====
-- What stands behind validateJWT of cmd/server/internal/api/adapter.go.
use chattui.Common.{
  ℕ, String, true, false, not, [], ◌==◌, ◌||◌, string_key, ◌≡◌, refl, sym, ap, ◌∙◌, ◌⊎◌, inl, inr,
  Bool-cases, arith,
}
use chattui.Errs.{Result, ok, err}
use chattui.World.{World}
use chattui.Auth.{parse_token}
use chattui.Auth.Libraries.{Claims}
use chattui.Api.Errors.{HandlerError, write_error}
use chattui.Api.Endpoints.{Answer, json, refused, http}
use chattui.Api.Routes.{
  Backend, Call, Served, is_public, serve, serve_protected, validate_jwt, behind, Verdict, accepted,
  denied, verdict,
}

-- The status of the response.
abbrev pub status : Answer → ℕ
status (json s b) = s
status (refused e) = (write_error e).status

verdict-accepted : (r : Result Claims) (c : Claims) → verdict r ≡ accepted c → r ≡ ok c
verdict-accepted (ok x) c h = cc h
verdict-accepted (err e) c h = absurd (cc)

-- The status with which the middleware answers; 0 where it does not.
abbrev denial : Verdict → ℕ
denial (accepted c) = 0
denial (denied e) = (write_error e).status

denial-verdict :
    (r : Result Claims) (e : HandlerError) → verdict r ≡ denied e → denial (verdict r) ≡ 401
unfolding write_error
denial-verdict (ok x) e h = absurd (cc)
denial-verdict (err x) e h = refl

module _ {K D : Type 0} (B : Backend K D) where
  -- Refused with 401, and nothing has changed.
  abbrev pub Unauthorized : World D → Served D → Type 0
  Unauthorized w s = (status s.reply ≡ 401) × (s.to_hub ≡ []) × (s.world ≡ w)

  missing :
      (h : String) (now : ℕ)
      → (h == "" || not (B.strings.has_prefix h "Bearer ")) ≡ true
      → validate_jwt B h now ≡ denied (http 401 "missing_token" "missing bearer token")
  unfolding validate_jwt
  missing h now t = rw t refl

  present :
      (h : String) (now : ℕ)
      → (h == "" || not (B.strings.has_prefix h "Bearer ")) ≡ false
      → validate_jwt B h now
        ≡ verdict (
            parse_token B.jwt B.config
              (B.strings.trim_space (B.strings.trim_prefix h "Bearer "))
              now)
  unfolding validate_jwt
  present h now f = rw f refl

  validate_jwt-token :
      (h : String) (now : ℕ) (c : Claims)
      → validate_jwt B h now ≡ accepted c
      → (B.strings.has_prefix h "Bearer " ≡ true)
        × (parse_token B.jwt B.config (B.strings.trim_space (B.strings.trim_prefix h "Bearer ")) now
            ≡ ok c)
  unfolding validate_jwt
  validate_jwt-token h now c e =
      elim (Bool-cases (h == "" || not (B.strings.has_prefix h "Bearer "))) [
        | inl t ↦ absurd (cc (e, missing h now t))
        | inr f ↦ (ground (arith, f), verdict-accepted _ c (sym (present h now f) ∙ e))
      ]

  validate_jwt-denied :
      (h : String) (now : ℕ) (e : HandlerError)
      → validate_jwt B h now ≡ denied e
      → (write_error e).status ≡ 401
  unfolding write_error
  validate_jwt-denied h now e v =
      elim (Bool-cases (h == "" || not (B.strings.has_prefix h "Bearer "))) [
        | inl t ↦ sym (ap denial (sym (missing h now t) ∙ v))
        | inr f ↦
            let r =
              parse_token B.jwt B.config (B.strings.trim_space (B.strings.trim_prefix h "Bearer "))
                now in
            sym (ap denial v)
            ∙ (ap denial (present h now f) ∙ denial-verdict r e (sym (present h now f) ∙ v))
      ]

  behind-guarded :
      (h : String) (now : ℕ) (call : Call) (w : World D) (v : Verdict)
      → validate_jwt B h now ≡ v
      → ((c : Claims) × (validate_jwt B h now ≡ accepted c)
          × (behind B v call w ≡ serve_protected B c call w))
        ⊎ Unauthorized w (behind B v call w)
  behind-guarded h now call w (accepted c) e = inl (c, e, refl)
  behind-guarded h now call w (denied x) e = inr (validate_jwt-denied h now x e, refl, refl)

  -- A call of a protected route either has a bearer token that the server's key and issuer accept,
  -- and is then served with the claims of this token; or it is answered with 401, sends nothing to
  -- the hub and changes neither the database nor the events.
  pub serve-guarded :
      (h : String) (now : ℕ) (call : Call) (w : World D)
      → is_public call ≡ false
      → ((c : Claims) × (B.strings.has_prefix h "Bearer " ≡ true)
          × (parse_token B.jwt B.config
                (B.strings.trim_space (B.strings.trim_prefix h "Bearer "))
                now
              ≡ ok c)
          × (serve B h now call w ≡ serve_protected B c call w))
        ⊎ Unauthorized w (serve B h now call w)
  unfolding serve
  serve-guarded h now call w p =
      rw p (elim (behind-guarded h now call w (validate_jwt B h now) refl) [
        | inl (c, e, s) ↦ let (x, y) = validate_jwt-token h now c e in inl (c, x, y, s)
        | inr u ↦ inr u
      ])
