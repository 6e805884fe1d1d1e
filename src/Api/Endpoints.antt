-- ===== src/Api/Endpoints.antt =====
-- The handlers of cmd/server/internal/api/handlers/{auth,auth_mapper,users,rooms,conversations,
-- inbox,system}.go, but for the join and the leave of Api/Rooms.antt, with the user service of
-- cmd/server/internal/user and the lists of cmd/server/internal/conversation and room. A body is what
-- JSON decodes of it, or none; a number of the URL is as it was parsed.
use chattui.Common.{
  ℕ, ℤ, pos, String, Bool, Option, none, some, List, map, if◌then◌else◌, ◌==◌, string_key,
}
use chattui.Errs.{
  Error, not_found, no_params, ambiguous_params, username_taken, invalid_creds, user_not_found,
  Result, ok, err,
}
use chattui.Store.Models as Models
use chattui.Store.Params.{ListMessagesByRoomRow}
use chattui.World.{World}
use chattui.Dto
use chattui.Dto.{InboxFeed}
use chattui.Auth.{Input, Session}
use chattui.Room.{get_room_by_slug, get_messages_by_room_id, no_rows_is_not_found}
use chattui.Room
use chattui.Inbox
use chattui.Inbox.{list_by_user, mark_as_read, int8}
use chattui.Api.Errors.{HandlerError, http_error, plain, bad_request}
use chattui.Api.Inbox.{to_inbox_res}
use chattui.Api.Limit.{parse_limit}

pub data Body : Type 0 where
  nothing ok_text : Body
  session : Dto.Auth → Body
  user : Dto.User → Body
  room : Dto.Room → Body
  rooms : List Dto.Room → Body
  messages : List Dto.Message → Body
  conversations : List Dto.Conversation → Body
  feed : List InboxFeed → Body

-- httpx.JSON with its status, or the error that the handler returns.
pub data Answer : Type 0 where
  json : ℕ → Body → Answer
  refused : HandlerError → Answer

abbrev pub http : ℕ → String → String → HandlerError
http status code msg = http_error (record { status = status; code = code; msg = msg })

abbrev pub answer {ℓ} : {A : Type ℓ} → (A → Answer) → (Error → HandlerError) → Result A → Answer
answer f g (ok a) = f a
answer f g (err e) = refused (g e)

-- authResultToRes
unfoldable pub auth_result_to_res : Session → Dto.Auth
auth_result_to_res s = record {
  user = record { id = s.user_id; username = s.username; created_at = s.created_at };
  token = s.token;
  expires_at = pos s.expires_at;
}

abbrev pub register_error : Error → HandlerError
register_error username_taken = http 409 "username_taken" "username already in use"
register_error e = plain e

abbrev pub login_error : Error → HandlerError
login_error user_not_found = http 401 "invalid_credentials" "invalid credentials"
login_error invalid_creds = http 401 "invalid_credentials" "invalid credentials"
login_error e = plain e

abbrev pub or_not_found : String → Error → HandlerError
or_not_found msg not_found = http 404 "not_found" msg
or_not_found msg e = plain e

abbrev pub read_error : Error → HandlerError
read_error no_params = bad_request "invalid_parameters" "invalid parameters"
read_error ambiguous_params = bad_request "invalid_parameters" "invalid parameters"
read_error e = plain e

abbrev pub invalid_json : HandlerError
invalid_json = bad_request "invalid_json" "invalid json"

abbrev pub room_dto : Models.Room → Dto.Room
room_dto r = record { id = r.id; name = r.name; slug = r.slug; created_at = r.created_at.time }

abbrev pub room_message_dto : ℤ → ListMessagesByRoomRow → Dto.Message
room_message_dto at m = record {
  id = m.id;
  room_id = some at;
  conversation_id = none;
  sender_id = m.sender_id;
  sender_username = m.sender_username;
  body = m.body;
  created_at = m.created_at.time;
}

abbrev pub direct_message_dto : ℤ → Models.Message → Dto.Message
direct_message_dto conv m = record {
  id = m.id;
  room_id = none;
  conversation_id = some conv;
  sender_id = m.sender_id;
  sender_username = "";
  body = m.body;
  created_at = m.created_at.time;
}

-- A call that sets the database, behind the decoded body.
abbrev pub with_db {ℓ} :
    {D : Type 0} {A : Type ℓ}
    → (A → Answer)
    → (Error → HandlerError)
    → Result A × D
    → World D
    → Answer × World D
with_db f g (r, d) w = (answer f g r, record w { db = d })

-- AuthHandler, with the service's Register and Login.
module _ {D : Type 0} (register : Input → D → Result Session × D)
    (login : Input → D → Result Session) where
  unfoldable pub handle_register : Option Input → World D → Answer × World D
  unfolding auth_result_to_res
  handle_register none w = (refused invalid_json, w)
  handle_register (some in_) w =
      with_db (λ s. json 200 (session (auth_result_to_res s))) register_error (register in_ w.db) w

  unfoldable pub handle_login : Option Input → World D → Answer × World D
  unfolding auth_result_to_res
  handle_login none w = (refused invalid_json, w)
  handle_login (some in_) w =
      (answer (λ s. json 200 (session (auth_result_to_res s))) login_error (login in_ w.db), w)

-- UserHandler, with the user service over its store.
module _ {D : Type 0} (get_user_by_username : String → D → Result Models.User) where
  unfoldable pub get_by_username : String → World D → Result Models.User
  get_by_username name w = elim (get_user_by_username name w.db) [
    | ok u ↦ ok u
    | err e ↦ err (no_rows_is_not_found e)
  ]

  unfoldable pub handle_get_by_username : String → World D → Answer
  unfolding get_by_username
  handle_get_by_username name w =
      if name == ""
      then refused (bad_request "missing_username" "username query param is required")
      else answer
          (λ u.
            json 200
              (user (record { id = u.id; username = u.username; created_at = u.created_at.time })))
          (or_not_found "user not found") (get_by_username name w)

-- RoomHandler; `create` is the room service's Create, of a name and a creator.
module _ {D : Type 0} (S : Room.Store D)
    (create : String → ℤ → World D → Result Models.Room × World D) where
  unfoldable pub handle_create : Option String → ℤ → World D → Answer × World D
  handle_create none me w = (refused invalid_json, w)
  handle_create (some name) me w =
      if name == ""
      then (refused (bad_request "missing_name" "room name is required"), w)
      else (let (r, w') = create name me w in
          (answer (λ r. json 201 (room (room_dto r))) plain r, w'))

  unfoldable pub handle_list_rooms : World D → Answer
  handle_list_rooms w = answer (λ rs. json 200 (rooms (map room_dto rs))) plain (S.list_rooms w.db)

  unfoldable pub handle_get_by_slug : String → World D → Answer
  handle_get_by_slug slug w =
      answer (λ r. json 200 (room (room_dto r))) (or_not_found "room not found")
        (get_room_by_slug S slug w)

  unfoldable pub handle_messages : Option ℤ → String → World D → Answer
  handle_messages none limit w = refused (bad_request "invalid_room_id" "invalid room id")
  handle_messages (some id) limit w =
      answer (λ ms. json 200 (messages (map (room_message_dto id) ms))) plain
        (get_messages_by_room_id S id (parse_limit limit) w)

-- What ConversationHandler reads of the store of its service: the conversations of a user and the
-- messages of a conversation, each up to a limit.
pub record ConversationLists (D : Type 0) : Type 0 where
  pub list_conversations_by_user : ℤ → ℕ → D → Result (List Dto.Conversation)
  pub list_messages_by_conversation : Models.Int8 → ℕ → D → Result (List Models.Message)

module _ {D : Type 0} (S : ConversationLists D) where
  unfoldable pub handle_list_conversations : ℤ → String → World D → Answer
  handle_list_conversations me limit w =
      answer (λ cs. json 200 (conversations cs)) plain
        (S.list_conversations_by_user me (parse_limit limit) w.db)

  unfoldable pub handle_list_messages : Option ℤ → String → World D → Answer
  handle_list_messages none limit w =
      refused (bad_request "invalid_conversation_id" "invalid conversation id")
  handle_list_messages (some id) limit w =
      answer (λ ms. json 200 (messages (map (direct_message_dto id) ms))) plain
        (S.list_messages_by_conversation (int8 id) (parse_limit limit) w.db)

-- MarkAsReadReq
pub record MarkAsReadReq : Type 0 where
  pub conversation_id : Option ℤ
  pub room_id : Option ℤ
  pub all : Bool

abbrev pub read_done : Option Error → Answer
read_done none = json 204 nothing
read_done (some e) = refused (read_error e)

module _ {D : Type 0} (S : Inbox.Store D) where
  unfoldable pub handle_list_inbox : ℤ → String → World D → Answer × World D
  handle_list_inbox me limit w =
      let (r, w') = list_by_user S me (parse_limit limit) w in
      (answer (λ es. json 200 (feed (map to_inbox_res es))) plain r, w')

  unfoldable pub handle_mark_as_read : Option MarkAsReadReq → ℤ → World D → Answer × World D
  handle_mark_as_read none me w = (refused invalid_json, w)
  handle_mark_as_read (some req) me w =
      let (failure, w') = mark_as_read S req.conversation_id req.room_id req.all me w in
      (read_done failure, w')
