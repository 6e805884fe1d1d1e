-- ===== src/Client/Api/Served.antt =====
-- The calls of cmd/client/internal/api at the routes of cmd/server/internal/api.
use chattui.Common.{ℕ, ℤ, pos, String, some, if◌then◌else◌, ◌==◌, string_key, nat_key, ◌≡◌, refl}
use Prim.Native.String.{◌++◌ as text_append}
use chattui.Api.Routes
use chattui.Api.Routes.{Backend, Call, Served, serve}
use chattui.Api.Router
use chattui.Api.Router.{
  Route, Pattern, fixed, around, method_of, pattern_of, Arrived, Framework, call_of, write, header,
  respond,
}
use chattui.Client.Api.{Library}
use chattui.Client.Api.Calls.{
  ApiCall, login, register, list_rooms, create_room, join_room, leave_room, get_messages,
  get_user_by_username, list_conversations, get_conversation_messages, get_inbox, mark_as_read,
  outgoing,
}

-- The route that a call is meant for.
abbrev pub route_of : ApiCall → Route
route_of (login req) = Router.auth_login
route_of (register req) = Router.auth_register
route_of list_rooms = Router.room_list
route_of (create_room name) = Router.room_create
route_of (join_room room) = Router.room_join
route_of (leave_room room) = Router.room_leave
route_of (get_messages room limit) = Router.room_messages
route_of (get_user_by_username name) = Router.user_get_by_username
route_of list_conversations = Router.conversation_list
route_of (get_conversation_messages conv limit) = Router.conversation_list_messages
route_of (get_inbox limit) = Router.inbox_list
route_of (mark_as_read conv room all) = Router.inbox_mark_as_read

-- What the server is to understand of it, and of its path and query.
module _ (decimal : ℤ → String) where
  abbrev pub call_meant : ApiCall → Call
  call_meant (login req) = Routes.post_login (some req)
  call_meant (register req) = Routes.post_register (some req)
  call_meant list_rooms = Routes.get_rooms
  call_meant (create_room name) = Routes.post_room (some name)
  call_meant (join_room room) = Routes.post_join (some room)
  call_meant (leave_room room) = Routes.delete_leave (some room)
  call_meant (get_messages room limit) = Routes.get_room_messages (some room) (decimal (pos limit))
  call_meant (get_user_by_username name) = Routes.get_user name
  call_meant list_conversations = Routes.get_conversations ""
  call_meant (get_conversation_messages conv limit) =
      Routes.get_conversation_messages (some conv) (decimal (pos limit))
  call_meant (get_inbox limit) = Routes.get_inbox (decimal (pos limit))
  call_meant (mark_as_read conv room all) =
      Routes.post_read (some (record { conversation_id = conv; room_id = room; all = all }))

  -- The number in the path.
  abbrev pub number_of : ApiCall → String
  number_of (join_room room) = decimal room
  number_of (leave_room room) = decimal room
  number_of (get_messages room limit) = decimal room
  number_of (get_conversation_messages conv limit) = decimal conv
  number_of a = ""

  abbrev limit_only : ℕ → String → String
  limit_only limit key = if key == "limit" then decimal (pos limit) else ""

  -- The query as the server reads it.
  abbrev pub query_of : ApiCall → String → String
  query_of (get_messages room limit) key = limit_only limit key
  query_of (get_user_by_username name) key = if key == "username" then name else ""
  query_of (get_conversation_messages conv limit) key = limit_only limit key
  query_of (get_inbox limit) key = limit_only limit key
  query_of a key = ""

abbrev pub filled : Pattern → String → String
filled (fixed p) x = p
filled (around before after) x = text_append before (text_append x after)

module _ {J : Type 0} (L : Library J) where
  -- The query as it is written behind the path.
  abbrev pub with_query : ApiCall → String → String
  with_query (get_messages room limit) path =
      text_append path (text_append "?limit=" (L.decimal (pos limit)))
  with_query (get_user_by_username name) path =
      text_append path (text_append "?username=" (L.query_escape name))
  with_query (get_conversation_messages conv limit) path =
      text_append path (text_append "?limit=" (L.decimal (pos limit)))
  with_query (get_inbox limit) path =
      text_append path (text_append "?limit=" (L.decimal (pos limit)))
  with_query a path = path

  abbrev pub path_to : ApiCall → String
  path_to a = with_query a (filled (pattern_of (route_of a)) (number_of L.decimal a))

  -- The client calls a route of the server's table, by its method.
  pub outgoing-fits :
      (a : ApiCall)
      → ((outgoing L a).method ≡ method_of (route_of a)) × ((outgoing L a).path ≡ path_to a)
  outgoing-fits (login req) = (refl, refl)
  outgoing-fits (register req) = (refl, refl)
  outgoing-fits list_rooms = (refl, refl)
  outgoing-fits (create_room name) = (refl, refl)
  outgoing-fits (join_room room) = (refl, refl)
  outgoing-fits (leave_room room) = (refl, refl)
  outgoing-fits (get_messages room limit) = (refl, refl)
  outgoing-fits (get_user_by_username name) = (refl, refl)
  outgoing-fits list_conversations = (refl, refl)
  outgoing-fits (get_conversation_messages conv limit) = (refl, refl)
  outgoing-fits (get_inbox limit) = (refl, refl)
  outgoing-fits (mark_as_read conv room all) = (refl, refl)
