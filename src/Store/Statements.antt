-- ===== src/Store/Statements.antt =====
-- The statements of cmd/server/internal/store/*.sql.go that write to the tables of
-- Store/Database.antt, as steps, and the interfaces of the services that the queries are made for.
pub mod Growth
pub mod Accounts
pub mod Membership
pub mod Connected
pub mod Pairs
pub mod Keys
pub mod Senders
pub mod History
mod Tests
use chattui.Common.{ℤ, String, Option, List, [], ◌∷◌, map}
use chattui.Errs.{Error, Result, ok, err}
use chattui.Dto
use chattui.Store.Params.{
  CreateRoomParams, JoinRoomParams, LeaveRoomParams, CreateMessageParams,
  GetOrCreateConversationParams,
}
use chattui.Store.Database.{Database}
use chattui.Store.Users
use chattui.Store.Users.{get_user_by_username}
use chattui.Store.Rooms
use chattui.Store.Rooms.{get_room_by_slug, list_rooms}
use chattui.Store.RoomMembers
use chattui.Store.RoomMembers.{get_rooms_for_user}
use chattui.Store.Conversations
use chattui.Store.Conversations.{list_conversations_by_user, ListConversationsByUserRow}
use chattui.Store.Messages
use chattui.Store.Messages.{list_messages_by_room, list_messages_by_conversation}
use chattui.Auth
use chattui.Auth.{CreateUserParams}
use chattui.Room
use chattui.Conversation
use chattui.Api.Endpoints.{ConversationLists}

-- A statement, or time that goes by up to some time.
pub data Statement : Type 0 where
  create_user : CreateUserParams → Statement
  create_room : CreateRoomParams → Statement
  join_room : JoinRoomParams → Statement
  leave_room : LeaveRoomParams → Statement
  get_or_create_conversation : GetOrCreateConversationParams → Statement
  create_message : CreateMessageParams → Statement
  wait : ℤ → Statement

-- What the statement leaves, whether it fails or not.
unfoldable pub execute : Statement → Database → Database
unfolding Users.create_user Rooms.create_room RoomMembers.join_room RoomMembers.leave_room
    Conversations.get_or_create_conversation Messages.create_message
execute (create_user p) d = (Users.create_user p d).1
execute (create_room p) d = (Rooms.create_room p d).1
execute (join_room p) d = (RoomMembers.join_room p d).1
execute (leave_room p) d = (RoomMembers.leave_room p d).1
execute (get_or_create_conversation p) d = (Conversations.get_or_create_conversation p d).1
execute (create_message p) d = (Messages.create_message p d).1
execute (wait t) d = record d { now = t }

-- All of them, the last one of the list first.
unfoldable pub run : List Statement → Database → Database
unfolding execute
run [] d = d
run (s ∷ past) d = execute s (run past d)

abbrev pub user_store : Auth.Store Database
user_store = record { get_user_by_username = get_user_by_username; create_user = Users.create_user }

abbrev pub room_store : Room.Store Database
room_store = record {
  get_room_by_slug = get_room_by_slug;
  create_room = Rooms.create_room;
  list_rooms = list_rooms;
  join_room = RoomMembers.join_room;
  leave_room = RoomMembers.leave_room;
  list_messages_by_room = list_messages_by_room;
  get_rooms_for_user = get_rooms_for_user;
  create_message = Messages.create_message;
}

abbrev pub conversation_queries : Conversation.Queries Database
conversation_queries = record {
  get_or_create_conversation = Conversations.get_or_create_conversation;
  create_message = Messages.create_message;
}

-- The handler's mapping of the rows.
abbrev pub conversation_dto : ListConversationsByUserRow → Dto.Conversation
conversation_dto r = record { id = r.id; peer_id = r.peer_id; peer_username = r.peer_username }

abbrev pub dtos : Result (List ListConversationsByUserRow) → Result (List Dto.Conversation)
dtos (ok rs) = ok (map conversation_dto rs)
dtos (err e) = err e

abbrev pub conversation_lists : ConversationLists Database
conversation_lists = record {
  list_conversations_by_user =
      λ u n d. dtos (list_conversations_by_user (record { user_id = u; lim = n }) d);
  list_messages_by_conversation =
      λ c n d. list_messages_by_conversation (record { conversation_id = c; limit = n }) d;
}
