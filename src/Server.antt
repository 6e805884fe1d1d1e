-- ===== src/Server.antt =====
-- cmd/server/main.go: how the parts of the server are put together around the event bus.
pub mod Wiring
mod Tests
use chattui.Common.{ℕ, String, Bool, true, false, Option, List, [], ◌∷◌, string_key}
use chattui.Event.{Event}
use chattui.Bus.{Bus, new_bus, subscribe}
use chattui.World.{World}
use chattui.Inbox.{
  Store, Handled, done, failed, unexpected, handle_room_joined, handle_room_left,
  handle_conversation_created, handle_room_message_sent, handle_dm_sent,
}
use chattui.Ws.Message.{Json, InboxUpdatedPayload}
use chattui.Ws.Hub.{BroadcastMsg}
use chattui.Ws.Notify.{Notified, handle_inbox_entry_updated}

-- The functions that are subscribed: the inbox service's, and the hub's.
pub data Handler : Type 0 where
  room_joined_handler room_left_handler conversation_created_handler : Handler
  room_message_sent_handler dm_sent_handler : Handler
  inbox_entry_updated_handler : Handler

-- `inbox.NewService`
unfoldable pub subscribe_inbox : Bus Handler → Bus Handler
subscribe_inbox b = subscribe "direct_message" dm_sent_handler (
    subscribe "room_message" room_message_sent_handler (
      subscribe "conversation_created" conversation_created_handler
        (subscribe "room_leave" room_left_handler (subscribe "room_join" room_joined_handler b))))

-- `ws.NewHub`
unfoldable pub subscribe_hub : Bus Handler → Bus Handler
subscribe_hub b = subscribe "inbox_entry_updated" inbox_entry_updated_handler b

-- The bus that `main` builds.
unfoldable pub server_bus : Bus Handler
unfolding subscribe_inbox subscribe_hub
server_bus = subscribe_hub (subscribe_inbox new_bus)

-- What a handler does with an event: what it changes, and what the hub is handed.
pub data Handling (D : Type 0) : Type 0 where
  by_inbox : Handled → World D → Handling D
  by_hub : Notified → Handling D

module _ {D : Type 0} (S : Store D) (marshal : InboxUpdatedPayload → Option Json) where
  abbrev pub inbox_handling : Handled × World D → Handling D
  inbox_handling (r, w) = by_inbox r w

  unfoldable pub handle : Handler → Event → World D → Handling D
  handle room_joined_handler e w = inbox_handling (handle_room_joined S e w)
  handle room_left_handler e w = inbox_handling (handle_room_left S e w)
  handle conversation_created_handler e w = inbox_handling (handle_conversation_created S e w)
  handle room_message_sent_handler e w = inbox_handling (handle_room_message_sent S e w)
  handle dm_sent_handler e w = inbox_handling (handle_dm_sent S e w)
  handle inbox_entry_updated_handler e w = by_hub (handle_inbox_entry_updated marshal e)
