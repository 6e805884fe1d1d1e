-- ===== src/Inbox/Handlers.antt =====
-- What the handlers of cmd/server/internal/inbox/service.go publish.
use mathlib.Core.List.{append_assoc, append-nil}
use chattui.Common.{List, [], ◌∷◌, ◌++◌, map, ◌≡◌, refl, sym, ◌∙◌}
use chattui.Event.{
  Event, inbox_entry_updated, room_message_sent, direct_message_sent, RoomMessageSentEvent,
  DirectMessageSentEvent,
}
use chattui.Store.Inbox.{
  UpdateInboxCursorRow, UpdateInboxCursorOnRoomMessageParams, UpdateInboxCursorOnDmMessageParams,
}
use chattui.World.{World, publish_all}
use chattui.Inbox.Mapper.{
  int_ref, text_ref, to_inbox_entry_updated_event, feed_entry_from_room_update,
  feed_entry_from_dm_update,
}
use chattui.Inbox.{Store, done, int8, text, handle_room_message_sent, handle_dm_sent}

pub events-publish_all :
    {D : Type 0} (es : List Event) (w : World D) → (publish_all es w).events ≡ w.events ++ es
events-publish_all [] w = sym (append-nil w.events)
events-publish_all (e ∷ es) w =
    events-publish_all es (record w { events = w.events ++ e ∷ [] })
    ∙ append_assoc w.events (e ∷ []) es

pub db-publish_all : {D : Type 0} (es : List Event) (w : World D) → (publish_all es w).db ≡ w.db
db-publish_all [] w = refl
db-publish_all (e ∷ es) w = db-publish_all es (record w { events = w.events ++ e ∷ [] })

-- The notice of a row: its values, with a null for each value that is not valid, for the row's user.
abbrev pub notice : UpdateInboxCursorRow → Event
notice row = inbox_entry_updated (record {
  user_id = row.user_id;
  entry_type = row.entry_type;
  entry_kind = row.kind;
  source_user_id = row.source_user_id;
  source_username = "";
  ref_room_id = int_ref row.ref_room_id;
  ref_room_name = text_ref row.room_name;
  ref_conversation_id = int_ref row.ref_conversation_id;
  unread_count = row.unread_count;
  last_message_body = text_ref row.last_message_body;
  last_message_sender_id = int_ref row.last_message_sender_id;
  peer_id = row.peer_id;
  peer_username = row.peer_username;
})

-- The query's parameters for a room message: its room, sender and text, each of them valid.
abbrev pub room_params : RoomMessageSentEvent → UpdateInboxCursorOnRoomMessageParams
room_params e = record {
  body = text e.body;
  sender_id = int8 e.sender_id;
  room_id = int8 e.room_id;
}

abbrev pub direct_params : DirectMessageSentEvent → UpdateInboxCursorOnDmMessageParams
direct_params e = record {
  body = text e.body;
  sender_id = int8 e.sender_id;
  recipient_id = e.recipient_id;
  conversation_id = int8 e.conversation_id;
}

module _ {D : Type 0} (S : Store D) where
  -- A room message changes the database by the one cursor query for its room, sender and text, and
  -- is followed by exactly one notice for each row that the query returns, in the rows' order and
  -- addressed to the row's user, also where the query reports an error beside them.
  pub room_message_notifies :
      (e : RoomMessageSentEvent) (w : World D)
      → let (rows, failure, d) = S.update_inbox_cursor_on_room_message (room_params e) w.db in
        let (r, w') = handle_room_message_sent S (room_message_sent e) w in
        (r ≡ done) × (w'.db ≡ d) × (w'.events ≡ w.events ++ map notice rows)
  unfolding handle_room_message_sent to_inbox_entry_updated_event feed_entry_from_room_update
  room_message_notifies e w =
      let a = room_params e in
      let w' = record w { db = (S.update_inbox_cursor_on_room_message a w.db).2 } in
      let rows = (S.update_inbox_cursor_on_room_message a w.db).0 in
      (refl, db-publish_all (map notice rows) w', events-publish_all (map notice rows) w')

  -- A direct message changes the database by the one cursor query for its conversation, sender,
  -- recipient and text, and is followed by exactly one notice for each row that the query returns,
  -- in the rows' order and addressed to the row's user, also where the query reports an error
  -- beside them.
  pub direct_message_notifies :
      (e : DirectMessageSentEvent) (w : World D)
      → let (rows, failure, d) = S.update_inbox_cursor_on_dm_message (direct_params e) w.db in
        let (r, w') = handle_dm_sent S (direct_message_sent e) w in
        (r ≡ done) × (w'.db ≡ d) × (w'.events ≡ w.events ++ map notice rows)
  unfolding handle_dm_sent to_inbox_entry_updated_event feed_entry_from_dm_update
  direct_message_notifies e w =
      let a = direct_params e in
      let w' = record w { db = (S.update_inbox_cursor_on_dm_message a w.db).2 } in
      let rows = (S.update_inbox_cursor_on_dm_message a w.db).0 in
      (refl, db-publish_all (map notice rows) w', events-publish_all (map notice rows) w')
