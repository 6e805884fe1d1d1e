-- ===== src/Api/Router.antt =====
-- The table of routes of cmd/server/internal/api/{router,api}.go, and a request's way from it to the
-- handler and back. Which route chi takes a request to, and the codec, are parameters.
use chattui.Common.{ℕ, ℤ, String, Option, none, some, List, ◌++◌, if◌then◌else◌, ◌==◌, nat_key}
use chattui.World.{World}
use chattui.Auth.{Input}
use chattui.Ws.Hub.{UserRoomPresent}
use chattui.Api.Errors.{HttpError, write_error}
use chattui.Api.Endpoints.{Answer, json, refused, Body, MarkAsReadReq}
use chattui.Api.Routes
use chattui.Api.Routes.{Backend, Call, serve}
use chattui.Client.Api.{Request, Exchange, response}

-- The handlers that the table names.
pub data Route : Type 0 where
  health auth_register auth_login : Route
  room_create room_list room_get_by_slug room_join room_leave room_messages : Route
  user_get_by_username : Route
  conversation_list conversation_list_messages : Route
  inbox_list inbox_mark_as_read : Route

-- A path, or what stands before and after its parameter.
pub data Pattern : Type 0 where
  fixed : String → Pattern
  around : String → String → Pattern

abbrev pub method_of : Route → String
method_of auth_register = "POST"
method_of auth_login = "POST"
method_of room_create = "POST"
method_of room_join = "POST"
method_of room_leave = "DELETE"
method_of inbox_mark_as_read = "POST"
method_of r = "GET"

abbrev pub pattern_of : Route → Pattern
pattern_of health = fixed "/healthz"
pattern_of auth_register = fixed "/api/v1/auth/register"
pattern_of auth_login = fixed "/api/v1/auth/login"
pattern_of room_create = fixed "/api/v1/rooms"
pattern_of room_list = fixed "/api/v1/rooms"
pattern_of room_get_by_slug = around "/api/v1/rooms/" ""
pattern_of room_join = around "/api/v1/rooms/" "/join"
pattern_of room_leave = around "/api/v1/rooms/" "/leave"
pattern_of room_messages = around "/api/v1/rooms/" "/messages"
pattern_of user_get_by_username = fixed "/api/v1/users"
pattern_of conversation_list = fixed "/api/v1/conversations"
pattern_of conversation_list_messages = around "/api/v1/conversations/" "/messages"
pattern_of inbox_list = fixed "/api/v1/inbox"
pattern_of inbox_mark_as_read = fixed "/api/v1/inbox/read"

-- A request at its route: the parameter of the path, and the query.
pub record Arrived : Type 0 where
  pub route : Route
  pub param : String
  pub query : String → String

-- What chi, strconv and json do for the server, with bodies in `J`.
pub record Framework (J : Type 0) : Type 0 where
  pub match_route : String → String → Option Arrived  -- the method and the URL
  pub not_found : J
  pub parse_id : String → Option ℤ
  pub decode_input : J → Option Input
  pub decode_name : J → Option String
  pub decode_read : J → Option MarkAsReadReq
  pub encode : Body → J
  pub encode_error : HttpError → J
  pub no_content : J

-- What the handler reads of the request.
abbrev pub read_body : {A J : Type 0} → (J → Option A) → Option J → Option A
read_body f none = none
read_body f (some j) = f j

module _ {J : Type 0} (F : Framework J) where
  abbrev pub call_of : Route → String → (String → String) → Option J → Call
  call_of health p q b = Routes.health
  call_of auth_register p q b = Routes.post_register (read_body F.decode_input b)
  call_of auth_login p q b = Routes.post_login (read_body F.decode_input b)
  call_of room_create p q b = Routes.post_room (read_body F.decode_name b)
  call_of room_list p q b = Routes.get_rooms
  call_of room_get_by_slug p q b = Routes.get_room p
  call_of room_join p q b = Routes.post_join (F.parse_id p)
  call_of room_leave p q b = Routes.delete_leave (F.parse_id p)
  call_of room_messages p q b = Routes.get_room_messages (F.parse_id p) (q "limit")
  call_of user_get_by_username p q b = Routes.get_user (q "username")
  call_of conversation_list p q b = Routes.get_conversations (q "limit")
  call_of conversation_list_messages p q b =
      Routes.get_conversation_messages (F.parse_id p) (q "limit")
  call_of inbox_list p q b = Routes.get_inbox (q "limit")
  call_of inbox_mark_as_read p q b = Routes.post_read (read_body F.decode_read b)

  -- httpx.JSON, or `writeError`.
  unfoldable pub write : Answer → Exchange J
  unfolding write_error
  write (json status body) = response status (if status == 204 then F.no_content else F.encode body)
  write (refused e) = response (write_error e).status (F.encode_error (write_error e))

  abbrev pub header : Option String → String
  header none = ""
  header (some h) = h

  module _ {K D : Type 0} (B : Backend K D) (now : ℕ) where
    -- The response, and what was sent to the hub by now.
    unfoldable pub respond :
        Request J → World D × List UserRoomPresent → Exchange J × (World D × List UserRoomPresent)
    unfolding serve write
    respond r (w, told) = elim (F.match_route r.method r.url) [
      | none ↦ (response 404 F.not_found, (w, told))
      | some a ↦
          let s = serve B (header r.authorization) now (call_of a.route a.param a.query r.body) w in
          (write s.reply, (s.world, told ++ s.to_hub))
    ]
