-- ===== src/Api/Upgrade/Connected.antt =====
-- Who is connected by cmd/server/internal/api/handlers/ws.go.
use chattui.Common.{
  ℕ, ℤ, String, Bool, true, false, none, some, List, [], ◌∷◌, if◌then◌else◌, ◌==◌, ◌&&◌, ◌||◌,
  string_key, int_key, Map, insert, lookup, lookup-insert, ◌≡◌, refl, sym, ap, ◌∙◌, arith,
  Bool-cases, inl, inr,
}
use chattui.Errs.{Result, ok, err}
use chattui.Store.Models as Models
use chattui.World.{World}
use chattui.Ws.Hub.{Client}
use chattui.Auth.{Config, parse_token}
use chattui.Auth.Libraries.{Claims, Jwt}
use chattui.Room
use chattui.Api.Endpoints.{http}
use chattui.Api.Upgrade.{
  connected, refused, upgrade, with_claims, with_rooms, room_ids, new_client, token_of,
}

-- The room is one of these.
abbrev pub one_of : ℤ → List Models.Room → Bool
one_of r [] = false
one_of r (x ∷ xs) = x.id == r || one_of r xs

lookup-room_ids :
    (rs : List Models.Room) (r : ℤ) (m : Map ℤ Bool)
    → lookup r (room_ids rs m) ≡ (if one_of r rs then some true else lookup r m)
unfolding room_ids
lookup-room_ids [] r m = refl
lookup-room_ids (x ∷ rs) r m =
    ground (arith, lookup-room_ids rs r (insert x.id true m), lookup-insert x.id r true m)

module _ {K D : Type 0} (J : Jwt K) (cfg : Config K) (S : Room.Store D)
    (replace_all : String → String → String → String) where
  -- The client of an accepted token and the rooms that the store lists for its user.
  pub record Granted (token : String) (now : ℕ) (w : World D) (cl : Client) : Type 0 where
    pub claims : Claims
    pub rooms : List Models.Room
    pub accepted : parse_token J cfg token now ≡ ok claims
    pub listed : S.get_rooms_for_user claims.user_id w.db ≡ ok rooms
    pub user : cl.user_id ≡ claims.user_id
    pub live : cl.send.closed ≡ false
    pub knows : (r : ℤ) → lookup r cl.room_ids ≡ (if one_of r rooms then some true else none)

  with_rooms-Granted :
      (token : String) (now : ℕ) (w : World D) (c : Claims) (rs : Result (List Models.Room))
      (accepts : Bool) (cl : Client)
      → parse_token J cfg token now ≡ ok c
      → S.get_rooms_for_user c.user_id w.db ≡ rs
      → with_rooms J cfg S replace_all c rs accepts ≡ connected cl
      → Granted token now w cl
  unfolding new_client lookup
  with_rooms-Granted token now w c (err e) accepts cl p q h = absurd (cc)
  with_rooms-Granted token now w c (ok rooms) false cl p q h = absurd (cc)
  with_rooms-Granted token now w c (ok rooms) true cl p q h =
      let e : new_client c.user_id c.username (room_ids rooms []) ≡ cl = cc h in
      record {
        claims = c;
        rooms = rooms;
        accepted = p;
        listed = q;
        user = ap (λ x. x.user_id) (sym e);
        live = ap (λ x. x.send.closed) (sym e);
        knows = λ r. ap (λ x. lookup r x.room_ids) (sym e) ∙ lookup-room_ids rooms r [];
      }

  with_claims-Granted :
      (token : String) (now : ℕ) (w : World D) (r : Result Claims) (accepts : Bool) (cl : Client)
      → parse_token J cfg token now ≡ r
      → with_claims J cfg S replace_all r accepts w ≡ connected cl
      → Granted token now w cl
  with_claims-Granted token now w (err e) accepts cl p h = absurd (cc)
  with_claims-Granted token now w (ok c) accepts cl p h =
      with_rooms-Granted token now w c (S.get_rooms_for_user c.user_id w.db) accepts cl p refl h

  upgrade-missing :
      (query header : String) (now : ℕ) (accepts : Bool) (w : World D)
      → (query == "" && header == "") ≡ true
      → upgrade J cfg S replace_all query header now accepts w
        ≡ refused (http 401 "missing_token" "missing token")
  unfolding upgrade
  upgrade-missing query header now accepts w t = rw t refl

  upgrade-present :
      (query header : String) (now : ℕ) (accepts : Bool) (w : World D)
      → (query == "" && header == "") ≡ false
      → upgrade J cfg S replace_all query header now accepts w
        ≡ with_claims J cfg S replace_all
            (parse_token J cfg (token_of J cfg S replace_all query header) now)
            accepts
            w
  unfolding upgrade
  upgrade-present query header now accepts w f = rw f refl

  -- A client is registered with the hub only for a token that the server accepts, of the query or
  -- else of the header; it is a client of the token's user, its channel is open, and it knows of
  -- exactly the rooms that the store lists for this user.
  pub upgrade-Granted :
      (query header : String) (now : ℕ) (accepts : Bool) (w : World D) (cl : Client)
      → upgrade J cfg S replace_all query header now accepts w ≡ connected cl
      → Granted (token_of J cfg S replace_all query header) now w cl
  upgrade-Granted query header now accepts w cl h =
      elim (Bool-cases (query == "" && header == "")) [
        | inl t ↦ absurd (cc (upgrade-missing query header now accepts w t, h))
        | inr f ↦
            with_claims-Granted (token_of J cfg S replace_all query header) now w _ accepts cl refl
              (sym (upgrade-present query header now accepts w f) ∙ h)
      ]
