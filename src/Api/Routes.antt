-- ===== src/Api/Routes.antt =====
-- cmd/server/internal/api/router.go with the routes of api.go beside it, and validateJWT of
-- adapter.go. A call is a request that the router has taken to its handler, with what the handler
-- reads of it; the functions of package strings are parameters.
pub mod Protected
pub mod Answers
pub mod Tests
use chattui.Common.{
  ℕ, ℤ, pos, String, Bool, true, false, not, Option, none, some, List, [], ◌∷◌, if◌then◌else◌, ◌==◌,
  ◌||◌, string_key,
}
use chattui.Errs.{Error, Result, ok, err}
use chattui.Store.Models as Models
use chattui.World.{World}
use chattui.Ws.Hub.{UserRoomPresent}
use chattui.Auth
use chattui.Auth.{Input, Session, Config, parse_token, register, login}
use chattui.Auth.Libraries.{Claims, Jwt, Bcrypt}
use chattui.Room
use chattui.Inbox
use chattui.Api.Errors.{HandlerError}
use chattui.Api.Rooms
use chattui.Api.Rooms.{handle_join, handle_leave}
use chattui.Api.Endpoints.{
  Answer, json, refused, nothing, ok_text, http, MarkAsReadReq, ConversationLists, handle_register,
  handle_login, handle_get_by_username, handle_create, handle_list_rooms, handle_get_by_slug,
  handle_messages, handle_list_conversations, handle_list_messages, handle_list_inbox,
  handle_mark_as_read,
}

pub record Strings : Type 0 where
  pub has_prefix : String → String → Bool  -- the text and the prefix
  pub trim_prefix : String → String → String
  pub trim_space : String → String

-- The routes under /api/v1 but the WebSocket, and /healthz.
pub data Call : Type 0 where
  health : Call
  post_register post_login : Option Input → Call
  post_room : Option String → Call
  get_rooms : Call
  get_room : String → Call
  post_join delete_leave : Option ℤ → Call
  get_room_messages : Option ℤ → String → Call
  get_user : String → Call
  get_conversations : String → Call
  get_conversation_messages : Option ℤ → String → Call
  get_inbox : String → Call
  post_read : Option MarkAsReadReq → Call

-- Outside the group that uses validateJWT.
abbrev pub is_public : Call → Bool
is_public health = true
is_public (post_register in_) = true
is_public (post_login in_) = true
is_public c = false

-- What the services of the server stand on.
pub record Backend (K D : Type 0) : Type 0 where
  pub strings : Strings
  pub jwt : Jwt K
  pub bcrypt : Bcrypt
  pub config : Config K
  pub users : Auth.Store D
  pub room_store : Room.Store D
  pub create_room : String → ℤ → World D → Result Models.Room × World D
  pub conversation_lists : ConversationLists D
  pub inbox_store : Inbox.Store D

-- What a call comes to: the answer, what it sends to the hub, and the database with the events.
pub record Served (D : Type 0) : Type 0 where
  pub reply : Answer
  pub to_hub : List UserRoomPresent
  pub world : World D

pub data Verdict : Type 0 where
  accepted : Claims → Verdict
  denied : HandlerError → Verdict

abbrev pub verdict : Result Claims → Verdict
verdict (ok c) = accepted c
verdict (err e) = denied (http 401 "invalid_token" "invalid bearer token")

module _ {K D : Type 0} (B : Backend K D) where
  -- The claims for the context, or the error of the middleware.
  unfoldable pub validate_jwt : String → ℕ → Verdict
  validate_jwt h now =
      if h == "" || not (B.strings.has_prefix h "Bearer ")
      then denied (http 401 "missing_token" "missing bearer token")
      else verdict (
          parse_token B.jwt B.config (B.strings.trim_space (B.strings.trim_prefix h "Bearer ")) now)

  abbrev pub served : Answer × World D → Served D
  served (a, w) = record { reply = a; to_hub = []; world = w }

  abbrev pub read_only : World D → Answer → Served D
  read_only w a = record { reply = a; to_hub = []; world = w }

  abbrev pub presence : Rooms.Reply × World D → Served D
  presence (Rooms.no_content told, w) = record {
    reply = json 204 nothing;
    to_hub = told;
    world = w;
  }
  presence (Rooms.refused e, w) = record { reply = refused e; to_hub = []; world = w }

  unfoldable pub serve_public : Call → ℕ → World D → Served D
  serve_public (post_register in_) now w = served (
      handle_register (λ i d. register B.jwt B.bcrypt B.config B.users i now d)
        (λ i d. login B.jwt B.bcrypt B.config B.users i now d) in_ w)
  serve_public (post_login in_) now w = served (
      handle_login (λ i d. register B.jwt B.bcrypt B.config B.users i now d)
        (λ i d. login B.jwt B.bcrypt B.config B.users i now d) in_ w)
  serve_public c now w = read_only w (json 200 ok_text)

  -- The handlers behind validateJWT, with the claims that it puts into the context.
  unfoldable pub serve_protected : Claims → Call → World D → Served D
  serve_protected c (post_room name) w =
      served (handle_create B.room_store B.create_room name c.user_id w)
  serve_protected c get_rooms w = read_only w (handle_list_rooms B.room_store B.create_room w)
  serve_protected c (get_room slug) w =
      read_only w (handle_get_by_slug B.room_store B.create_room slug w)
  serve_protected c (post_join room) w = presence (handle_join B.room_store (some c) room w)
  serve_protected c (delete_leave room) w = presence (handle_leave B.room_store (some c) room w)
  serve_protected c (get_room_messages room limit) w =
      read_only w (handle_messages B.room_store B.create_room room limit w)
  serve_protected c (get_user name) w =
      read_only w (handle_get_by_username B.users.get_user_by_username name w)
  serve_protected c (get_conversations limit) w =
      read_only w (handle_list_conversations B.conversation_lists c.user_id limit w)
  serve_protected c (get_conversation_messages conv limit) w =
      read_only w (handle_list_messages B.conversation_lists conv limit w)
  serve_protected c (get_inbox limit) w = served (handle_list_inbox B.inbox_store c.user_id limit w)
  serve_protected c (post_read req) w = served (handle_mark_as_read B.inbox_store req c.user_id w)
  serve_protected c call w = read_only w (json 200 ok_text)

  abbrev pub behind : Verdict → Call → World D → Served D
  behind (accepted c) call w = serve_protected c call w
  behind (denied e) call w = read_only w (refused e)

  unfoldable pub serve : String → ℕ → Call → World D → Served D
  unfolding validate_jwt
  serve h now call w =
      if is_public call then serve_public call now w else behind (validate_jwt h now) call w
