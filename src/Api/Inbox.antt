-- ===== src/Api/Inbox.antt =====
-- cmd/server/internal/api/handlers/inbox.go: the mapping of an inbox entry to its DTO.
use chattui.Common.{ℤ, pos, String, Option, none, some, if◌then◌else◌, ◌==◌, string_key}
use chattui.Dto.{InboxFeed, InboxRoom, InboxLastMessage}
use chattui.Inbox.Mapper.{FeedEntry}

-- `if e.RefRoomID != nil && e.RefRoomName != nil`
abbrev pub room_ref : Option ℤ → Option String → Option InboxRoom
room_ref none name = none
room_ref (some id) none = none
room_ref (some id) (some name) = some (record { id = id; name = name })

-- The sender is 0 where it is nil.
abbrev pub sender_or_zero : Option ℤ → ℤ
sender_or_zero none = pos 0
sender_or_zero (some id) = id

abbrev pub last_message_ref : Option String → Option ℤ → Option InboxLastMessage
last_message_ref none sender = none
last_message_ref (some body) sender =
    some (record { body = body; sender_id = sender_or_zero sender })

unfoldable pub to_inbox_res : FeedEntry → InboxFeed
to_inbox_res e =
    if e.entry_type == "event"
    then record {
      entry_type = e.entry_type;
      kind = e.kind;
      source_user = some (record { id = e.source_user_id; username = e.source_username });
      room = room_ref e.ref_room_id e.ref_room_name;
      ref_conversation_id = none;
      unread_count = 0;
      last_message = none;
      created_at = e.created_at;
    }
    else record {
      entry_type = e.entry_type;
      kind = "";
      source_user =
          if e.peer_username == ""
          then none
          else some (record { id = e.peer_id; username = e.peer_username });
      room = room_ref e.ref_room_id e.ref_room_name;
      ref_conversation_id = e.ref_conversation_id;
      unread_count = e.unread_count;
      last_message = last_message_ref e.last_message_body e.last_message_sender_id;
      created_at = e.created_at;
    }
