-- ===== src/Inbox/Unread.antt =====
-- cmd/server/internal/inbox/service.go over the SQL of cmd/server/internal/store/inbox.sql.go: the
-- unread counts. The table of cursors is seen as what one user has to read of one room or
-- conversation, and what happens as a list, the newest first.
pub mod Statements
pub mod Openings
pub mod Updates
pub mod Messages
pub mod Requests
pub mod Refinement
mod Tests
use chattui.Common.{
  ℕ, suc, ◌+◌, ℤ, pos, String, Bool, true, false, not, Option, none, some, List, [], ◌∷◌, ◌++◌, map,
  if◌then◌else◌, ◌==◌, ◌&&◌, ◌||◌, int_key, nat_key, ◌≡◌, refl, sym, ap, ◌∙◌, arith, eqb-cases,
  eqb-eq_true, eqb_refl, Bool-cases, Option-cases, inl, inr, subst, ltb,
}
use chattui.Errs.{Error}
use chattui.Event.{
  Event, room_joined, room_left, room_message_sent, direct_message_sent, conversation_created,
  inbox_entry_updated,
}
use chattui.Store.Sql.{
  Cursor, Tables, sql_eq, sql_ne, is_set, update_where, any, conflicts, fresh, one_ref, bump,
  zeroed, save_inbox_room_event, upsert_inbox_conversation_cursor,
  update_inbox_cursor_on_room_message, update_inbox_cursor_on_dm_message, reset_room_unread_count,
  reset_dm_unread_count, reset_all_unread_count, update_returning,
}
use chattui.Store.Feed.{list_inbox_feed}
use chattui.World.{World, publish, publish_all}
use chattui.Inbox.{
  Store, handle_room_joined, handle_room_left, handle_room_message_sent, handle_dm_sent,
  handle_conversation_created, mark_as_read, upsert_cursor, reset_selected,
}

-- The store that sends the SQL.
abbrev pub sql_store : Store Tables
sql_store = record {
  save_inbox_room_event = save_inbox_room_event;
  upsert_inbox_conversation_cursor = upsert_inbox_conversation_cursor;
  update_inbox_cursor_on_room_message = update_inbox_cursor_on_room_message;
  update_inbox_cursor_on_dm_message = update_inbox_cursor_on_dm_message;
  list_inbox_feed = list_inbox_feed;
  reset_room_unread_count = reset_room_unread_count;
  reset_dm_unread_count = reset_dm_unread_count;
  reset_all_unread_count = reset_all_unread_count;
}

-- What the service is told: an event of the bus, or a request to mark as read, with its parameters
-- and its user.
pub data Act : Type 0 where
  happened : Event → Act
  read : Option ℤ → Option ℤ → Bool → ℤ → Act

-- The handler that the service subscribed for the event.
abbrev pub handle : Event → World Tables → World Tables
handle (room_joined e) w = (handle_room_joined sql_store (room_joined e) w).1
handle (room_left e) w = (handle_room_left sql_store (room_left e) w).1
handle (room_message_sent e) w = (handle_room_message_sent sql_store (room_message_sent e) w).1
handle (direct_message_sent e) w = (handle_dm_sent sql_store (direct_message_sent e) w).1
handle (conversation_created e) w =
    (handle_conversation_created sql_store (conversation_created e) w).1
handle (inbox_entry_updated e) w = w

abbrev pub perform : Act → World Tables → World Tables
perform (happened e) w = handle e w
perform (read c r all u) w = (mark_as_read sql_store c r all u w).1

-- All of them, the last one of the list first.
abbrev pub run : List Act → World Tables → World Tables
run [] w = w
run (a ∷ past) w = perform a (run past w)

pub data Ref : Type 0 where
  room conversation : ℤ → Ref

-- The row of the user for it.
abbrev pub is_of : ℤ → Ref → Cursor → Bool
is_of u (room r) c = c.user_id == u && sql_eq c.ref_room_id (some r)
is_of u (conversation v) c = c.user_id == u && sql_eq c.ref_conversation_id (some v)

-- What the table says that the user has not read of it; no row is none.
unfoldable pub unread : List Cursor → ℤ → Ref → Option ℕ
unread [] u ref = none
unread (c ∷ cs) u ref =
    let rest = unread cs u ref in if is_of u ref c then some c.unread_count else rest

-- The events that open it for the user, the messages that count for the user, and the requests that
-- mark it as read.
abbrev pub opens : ℤ → Ref → Act → Bool
opens u (room r) (happened (room_joined e)) = e.user_id == u && e.room_id == r
opens u (conversation v) (happened (conversation_created e)) =
    (e.user_a_id == u || e.user_b_id == u) && e.conversation_id == v
opens u ref a = false

abbrev pub counts : ℤ → Ref → Act → Bool
counts u (room r) (happened (room_message_sent e)) = r == e.room_id && not (u == e.sender_id)
counts u (conversation v) (happened (direct_message_sent e)) =
    u == e.recipient_id && v == e.conversation_id
counts u ref a = false

abbrev pub marks : ℤ → Ref → Act → Bool
marks u ref (read none none true w) = u == w
marks u (room r) (read none (some x) false w) = r == x && u == w
marks u (conversation v) (read (some x) none false w) = v == x && u == w
marks u ref a = false

abbrev pub after : Act → ℤ → Ref → Option ℕ → Option ℕ
after a u ref none = if opens u ref a then some 0 else none
after a u ref (some n) = some (if marks u ref a then 0 else if counts u ref a then suc n else n)

-- The specification: nothing before it is opened, and then the messages since it was last read.
abbrev pub spec : List Act → ℤ → Ref → Option ℕ
spec [] u ref = none
spec (a ∷ past) u ref = after a u ref (spec past u ref)
