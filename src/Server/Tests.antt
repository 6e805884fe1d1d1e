-- ===== src/Server/Tests.antt =====
-- The theorem about cmd/server/main.go's bus at a direct message.
use chattui.Common.{ℕ, suc, pos, Option, none, [], ◌∷◌, ◌≡◌}
use chattui.Errs.{ok}
use chattui.Event.{Event, direct_message_sent}
use chattui.Bus.{fan_out}
use chattui.World.{World}
use chattui.Inbox.{Store}
use chattui.Ws.Message.{Json, InboxUpdatedPayload}
use chattui.Server.{Handler, server_bus, handle}
use chattui.Server.Wiring.{Expected, every_event_has_its_handler}

-- A store that counts its changes.
abbrev counting : Store ℕ
counting = record {
  save_inbox_room_event = λ p d. (none, suc d);
  upsert_inbox_conversation_cursor = λ p d. (none, suc d);
  update_inbox_cursor_on_room_message = λ p d. ([], none, suc d);
  update_inbox_cursor_on_dm_message = λ p d. ([], none, suc d);
  list_inbox_feed = λ p d. (ok [], d);
  reset_room_unread_count = λ p d. (none, suc d);
  reset_dm_unread_count = λ p d. (none, suc d);
  reset_all_unread_count = λ u d. (none, suc d);
}

abbrev no_json : InboxUpdatedPayload → Option Json
no_json p = none

abbrev direct : Event
direct = direct_message_sent (record {
  conversation_id = pos 5;
  sender_id = pos 1;
  recipient_id = pos 2;
  message_id = pos 9;
  body = "hi";
})

abbrev start : World ℕ
start = record { db = 0; events = [] }

every_event_has_its_handler_example :
    (h : Handler) × (fan_out server_bus.handlers direct ≡ (h, direct) ∷ [])
    × Expected (handle counting no_json h direct start)
every_event_has_its_handler_example = every_event_has_its_handler counting no_json direct start
