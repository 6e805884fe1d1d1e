-- ===== src/Client/Api/Calls.antt =====
-- What the methods of Client in cmd/client/internal/api/{auth,rooms,users,conversations,inbox}.go
-- pass to `do`.
use chattui.Common.{ℕ, ℤ, pos, String, Bool, Option, none, some}
use Prim.Native.String.{◌++◌}
use chattui.Auth.{Input}
use chattui.Client.Api.{
  auth_request, create_room_request, mark_as_read_req, RequestBody, Outgoing, Library, numbered,
}

-- A call of a method, with its arguments.
pub data ApiCall : Type 0 where
  login register : Input → ApiCall
  list_rooms : ApiCall
  create_room : String → ApiCall
  join_room leave_room : ℤ → ApiCall
  get_messages : ℤ → ℕ → ApiCall
  get_user_by_username : String → ApiCall
  list_conversations : ApiCall
  get_conversation_messages : ℤ → ℕ → ApiCall
  get_inbox : ℕ → ApiCall
  mark_as_read : Option ℤ → Option ℤ → Bool → ApiCall

abbrev get_at : String → Outgoing
get_at path = record { method = "GET"; path = path; body = none }

abbrev post_at : String → Option RequestBody → Outgoing
post_at path body = record { method = "POST"; path = path; body = body }

module _ {J : Type 0} (L : Library J) where
  abbrev id_path : String → ℤ → String → String
  id_path before id after = numbered before (L.decimal id) after

  abbrev limited : String → ℕ → String
  limited path limit = path ++ ("?limit=" ++ L.decimal (pos limit))

  abbrev pub outgoing : ApiCall → Outgoing
  outgoing (login req) = post_at "/api/v1/auth/login" (some (auth_request req))
  outgoing (register req) = post_at "/api/v1/auth/register" (some (auth_request req))
  outgoing list_rooms = get_at "/api/v1/rooms"
  outgoing (create_room name) = post_at "/api/v1/rooms" (some (create_room_request name))
  outgoing (join_room room) = post_at (id_path "/api/v1/rooms/" room "/join") none
  outgoing (leave_room room) = record {
    method = "DELETE";
    path = id_path "/api/v1/rooms/" room "/leave";
    body = none;
  }
  outgoing (get_messages room limit) =
      get_at (limited (id_path "/api/v1/rooms/" room "/messages") limit)
  outgoing (get_user_by_username name) =
      get_at ("/api/v1/users" ++ ("?username=" ++ L.query_escape name))
  outgoing list_conversations = get_at "/api/v1/conversations"
  outgoing (get_conversation_messages conv limit) =
      get_at (limited (id_path "/api/v1/conversations/" conv "/messages") limit)
  outgoing (get_inbox limit) = get_at (limited "/api/v1/inbox" limit)
  outgoing (mark_as_read conv room all) =
      post_at "/api/v1/inbox/read"
        (some (mark_as_read_req (record { conversation_id = conv; room_id = room; all = all })))
