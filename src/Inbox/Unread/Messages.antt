-- ===== src/Inbox/Unread/Messages.antt =====
-- The messages: what the handlers of cmd/server/internal/inbox/service.go do to the table of
-- cursors.
use chattui.Common.{ℤ, false, some, List, [], ◌∷◌, map, ◌==◌, ◌&&◌, int_key, nat_key, ◌≡◌, refl, ap}
use chattui.Event.{
  Event, RoomMessageSentEvent, DirectMessageSentEvent, room_message_sent, direct_message_sent,
  inbox_entry_updated,
}
use chattui.Store.Sql.{
  Tables, sql_eq, sql_ne, update_where, bump, update_returning, update_inbox_cursor_on_room_message,
  update_inbox_cursor_on_dm_message,
}
use chattui.World.{World, publish_all}
use chattui.Inbox.{handle_room_message_sent, handle_dm_sent, int8, text}
use chattui.Inbox.Mapper.{
  to_inbox_entry_updated_event, feed_entry_from_room_update, feed_entry_from_dm_update,
}
use chattui.Inbox.Unread.{happened, handle, Ref, room, conversation, opens, counts}
use chattui.Inbox.Unread.Statements.{Whole, room_of, conversation_of, and_false}
use chattui.Inbox.Unread.Openings.{Refines}
use chattui.Inbox.Unread.Updates.{rows_where, bump-Refines}

publish_all-db : (es : List Event) (w : World Tables) → (publish_all es w).db ≡ w.db
publish_all-db [] w = refl
publish_all-db (e ∷ es) w = publish_all-db es _

message-where :
    (e : RoomMessageSentEvent) (u : ℤ) (ref : Ref)
    → (sql_eq (room_of ref) (some e.room_id) && sql_ne u (some e.sender_id))
      ≡ counts u ref (happened (room_message_sent e))
message-where e u (room r) = refl
message-where e u (conversation v) = refl

message-opens :
    (e : RoomMessageSentEvent) (u : ℤ) (ref : Ref)
    → opens u ref (happened (room_message_sent e)) ≡ false
message-opens e u (room r) = refl
message-opens e u (conversation v) = refl

message-cursors :
    (e : RoomMessageSentEvent) (w : World Tables)
    → (handle (room_message_sent e) w).db.cursors
      ≡ update_where
          (rows_where (λ u r v. sql_eq r (some e.room_id) && sql_ne u (some e.sender_id)))
          (bump (some e.body) (some e.sender_id) w.db.now)
          w.db.cursors
unfolding handle_room_message_sent update_inbox_cursor_on_room_message update_returning
message-cursors e w =
    let (rows, failure, d) =
      update_inbox_cursor_on_room_message
        (record { body = text e.body; sender_id = int8 e.sender_id; room_id = int8 e.room_id })
        w.db in
    ap (λ t. t.cursors)
      (publish_all-db
        (map
          (λ row.
            inbox_entry_updated
              (to_inbox_entry_updated_event row.user_id (feed_entry_from_room_update row)))
          rows)
        (record w { db = d }))

pub message-Refines :
    (e : RoomMessageSentEvent) (w : World Tables)
    → Whole w.db.cursors
    → Refines
        (happened (room_message_sent e))
        w.db.cursors
        (handle (room_message_sent e) w).db.cursors
message-Refines e w h = rw (message-cursors e w) (
    bump-Refines (room_message_sent e)
      (λ u r v. sql_eq r (some e.room_id) && sql_ne u (some e.sender_id)) (some e.body)
      (some e.sender_id) w.db.now w.db.cursors (message-opens e) (message-where e) h)

dm-where :
    (e : DirectMessageSentEvent) (u : ℤ) (ref : Ref)
    → (u == e.recipient_id && sql_eq (conversation_of ref) (some e.conversation_id))
      ≡ counts u ref (happened (direct_message_sent e))
dm-where e u (room r) = and_false (u == e.recipient_id)
dm-where e u (conversation v) = refl

dm-opens :
    (e : DirectMessageSentEvent) (u : ℤ) (ref : Ref)
    → opens u ref (happened (direct_message_sent e)) ≡ false
dm-opens e u (room r) = refl
dm-opens e u (conversation v) = refl

dm-cursors :
    (e : DirectMessageSentEvent) (w : World Tables)
    → (handle (direct_message_sent e) w).db.cursors
      ≡ update_where
          (rows_where (λ u r v. u == e.recipient_id && sql_eq v (some e.conversation_id)))
          (bump (some e.body) (some e.sender_id) w.db.now)
          w.db.cursors
unfolding handle_dm_sent update_inbox_cursor_on_dm_message update_returning
dm-cursors e w =
    let (rows, failure, d) =
      update_inbox_cursor_on_dm_message
        (record {
          body = text e.body;
          sender_id = int8 e.sender_id;
          recipient_id = e.recipient_id;
          conversation_id = int8 e.conversation_id;
        })
        w.db in
    ap (λ t. t.cursors)
      (publish_all-db
        (map
          (λ row.
            inbox_entry_updated
              (to_inbox_entry_updated_event row.user_id (feed_entry_from_dm_update row)))
          rows)
        (record w { db = d }))

pub dm-Refines :
    (e : DirectMessageSentEvent) (w : World Tables)
    → Whole w.db.cursors
    → Refines
        (happened (direct_message_sent e))
        w.db.cursors
        (handle (direct_message_sent e) w).db.cursors
dm-Refines e w h = rw (dm-cursors e w) (
    bump-Refines (direct_message_sent e)
      (λ u r v. u == e.recipient_id && sql_eq v (some e.conversation_id)) (some e.body)
      (some e.sender_id) w.db.now w.db.cursors (dm-opens e) (dm-where e) h)
