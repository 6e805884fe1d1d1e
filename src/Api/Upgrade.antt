-- ===== src/Api/Upgrade.antt =====
-- cmd/server/internal/api/handlers/ws.go: the upgrade of a request to a WebSocket, up to the client
-- that is registered with the hub, and NewClient of cmd/server/internal/ws/client.go. The handshake
-- of websocket.Accept and strings.ReplaceAll are parameters.
pub mod Connected
mod Tests
use chattui.Common.{
  ℕ, ℤ, String, Bool, true, false, List, [], ◌∷◌, if◌then◌else◌, ◌==◌, ◌&&◌, string_key, int_key,
  Map, insert,
}
use chattui.Errs.{Result, ok, err}
use chattui.Store.Models as Models
use chattui.World.{World}
use chattui.Ws.Hub.{Client}
use chattui.Auth.{Config, parse_token}
use chattui.Auth.Libraries.{Claims, Jwt}
use chattui.Room
use chattui.Api.Errors.{HandlerError}
use chattui.Api.Endpoints.{http}

-- NewClient
unfoldable pub new_client : ℤ → String → Map ℤ Bool → Client
new_client user name room_ids = record {
  user_id = user;
  username = name;
  room_ids = room_ids;
  send = record { buffer = []; closed = false };
}

-- The loop over the rooms of the user.
unfoldable pub room_ids : List Models.Room → Map ℤ Bool → Map ℤ Bool
room_ids [] m = m
room_ids (r ∷ rs) m = room_ids rs (insert r.id true m)

-- The client that `Upgrade` registers, or the error that it returns.
pub data Upgraded : Type 0 where
  connected : Client → Upgraded
  refused : HandlerError → Upgraded

module _ {K D : Type 0} (J : Jwt K) (cfg : Config K) (S : Room.Store D)
    (replace_all : String → String → String → String) where
  -- Behind the query of the rooms; `accepts` is whether the handshake succeeds.
  abbrev pub with_rooms : Claims → Result (List Models.Room) → Bool → Upgraded
  with_rooms c (err e) accepts = refused (http 500 "rooms_error" "error fetching user rooms")
  with_rooms c (ok rooms) true = connected (new_client c.user_id c.username (room_ids rooms []))
  with_rooms c (ok rooms) false =
      refused (http 500 "upgrade_error" "error upgrading handshake to ws conn")

  abbrev pub with_claims : Result Claims → Bool → World D → Upgraded
  with_claims (err e) accepts w = refused (http 401 "invalid_token" "invalid token")
  with_claims (ok c) accepts w = with_rooms c (S.get_rooms_for_user c.user_id w.db) accepts

  -- The query's token, or that of the header.
  abbrev pub token_of : String → String → String
  token_of query header = if query == "" then replace_all header "Bearer " "" else query

  unfoldable pub upgrade : String → String → ℕ → Bool → World D → Upgraded
  unfolding new_client room_ids
  upgrade query header now accepts w =
      if query == "" && header == ""
      then refused (http 401 "missing_token" "missing token")
      else with_claims (parse_token J cfg (token_of query header) now) accepts w
