-- ===== src/Server/Wiring.antt =====
-- That the handlers of cmd/server/main.go's bus fit the events.
use chattui.Common.{arith, Option, [], ◌∷◌, ◌≡◌, ◌≢◌, refl, string_key, insert, lookup}
use chattui.Event.{
  Event, kind, room_joined, room_left, room_message_sent, direct_message_sent, conversation_created,
  inbox_entry_updated,
}
use chattui.Bus.{new_bus, subscribe, fan_out}
use chattui.World.{World}
use chattui.Inbox.{
  Store, Handled, done, failed, handle_room_joined, handle_room_left, handle_conversation_created,
  handle_room_message_sent, handle_dm_sent,
}
use chattui.Ws.Message.{Json, InboxUpdatedPayload}
use chattui.Ws.Notify.{Notified, handle_inbox_entry_updated}
use chattui.Ws.Notify
use chattui.Inbox
use chattui.Server.{
  Handler, Handling, by_inbox, by_hub, handle, server_bus, room_joined_handler, room_left_handler,
  conversation_created_handler, room_message_sent_handler, dm_sent_handler,
  inbox_entry_updated_handler,
}

-- The handler takes the event for one of its own type.
abbrev pub Expected : {D : Type 0} → Handling D → Type 0
Expected (by_inbox r w) = r ≢ Inbox.unexpected
Expected (by_hub r) = r ≢ Notify.unexpected

abbrev pub handler_of : Event → Handler
handler_of (room_joined e) = room_joined_handler
handler_of (room_left e) = room_left_handler
handler_of (room_message_sent e) = room_message_sent_handler
handler_of (direct_message_sent e) = dm_sent_handler
handler_of (conversation_created e) = conversation_created_handler
handler_of (inbox_entry_updated e) = inbox_entry_updated_handler

fan_out-server_bus : (e : Event) → fan_out server_bus.handlers e ≡ (handler_of e, e) ∷ []
unfolding fan_out server_bus subscribe new_bus kind lookup insert
fan_out-server_bus (room_joined e) = refl
fan_out-server_bus (room_left e) = refl
fan_out-server_bus (room_message_sent e) = refl
fan_out-server_bus (direct_message_sent e) = refl
fan_out-server_bus (conversation_created e) = refl
fan_out-server_bus (inbox_entry_updated e) = refl

module _ {D : Type 0} (S : Store D) (marshal : InboxUpdatedPayload → Option Json) where
  handle-Expected : (e : Event) (w : World D) → Expected (handle S marshal (handler_of e) e w)
  unfolding handle handle_room_joined handle_room_left handle_conversation_created
      handle_room_message_sent handle_dm_sent handle_inbox_entry_updated
  handle-Expected (room_joined e) w = ground arith
  handle-Expected (room_left e) w = ground arith
  handle-Expected (room_message_sent e) w = ground arith
  handle-Expected (direct_message_sent e) w = ground arith
  handle-Expected (conversation_created e) w = ground arith
  handle-Expected (inbox_entry_updated e) w = ground arith

  -- On the server's bus every event starts exactly one handler, and this handler takes it for an
  -- event of its own type: none of the "unexpected event type" errors can arise.
  pub every_event_has_its_handler :
      (e : Event) (w : World D)
      → (h : Handler) × (fan_out server_bus.handlers e ≡ (h, e) ∷ [])
        × Expected (handle S marshal h e w)
  every_event_has_its_handler e w = (handler_of e, fan_out-server_bus e, handle-Expected e w)
