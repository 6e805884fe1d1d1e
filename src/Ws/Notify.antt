-- ===== src/Ws/Notify.antt =====
-- `handleInboxEntryUpdated` of cmd/server/internal/ws/hub.go: an inbox event becomes a message for
-- the hub. json.Marshal at the payload's type is a parameter.
use chattui.Common.{pos, Option, none, some, [], ◌∷◌}
use chattui.Event.{Event, inbox_entry_updated, InboxEntryUpdatedEvent}
use chattui.Ws.Message.{Json, InboxUpdatedPayload, type_inbox_updated}
use chattui.Ws.Hub.{BroadcastMsg}

pub data Notified : Type 0 where
  broadcasts : BroadcastMsg → Notified
  -- "ws hub: marshaling inbox payload"
  not_marshalled : Notified
  -- "ws hub: unexpected event type"
  unexpected : Notified

abbrev pub inbox_payload : InboxEntryUpdatedEvent → InboxUpdatedPayload
inbox_payload e = record {
  entry_type = e.entry_type;
  kind = e.entry_kind;
  source_user_id = e.source_user_id;
  source_username = e.source_username;
  ref_room_id = e.ref_room_id;
  ref_room_name = e.ref_room_name;
  ref_conversation_id = e.ref_conversation_id;
  unread_count = e.unread_count;
  last_message_body = e.last_message_body;
  last_message_sender_id = e.last_message_sender_id;
  peer_id = e.peer_id;
  peer_username = e.peer_username;
}

-- The zero time is 0; the target room is the zero value.
abbrev pub inbox_broadcast : InboxEntryUpdatedEvent → Json → BroadcastMsg
inbox_broadcast e j = record {
  msg = record { kind = type_inbox_updated; payload = j; timestamp = pos 0 };
  target_room_id = pos 0;
  target_user_ids = e.user_id ∷ [];
}

unfoldable pub handle_inbox_entry_updated : (InboxUpdatedPayload → Option Json) → Event → Notified
handle_inbox_entry_updated marshal (inbox_entry_updated e) = elim (marshal (inbox_payload e)) [
  | none ↦ not_marshalled
  | some j ↦ broadcasts (inbox_broadcast e j)
]
handle_inbox_entry_updated marshal e = unexpected
