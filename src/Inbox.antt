-- ===== src/Inbox.antt =====
-- cmd/server/internal/inbox/service.go: the inbox service. The store's methods are a parameter.
pub mod Mapper
pub mod Handlers
pub mod Read
pub mod Unread
mod Tests
use chattui.Common.{
  ℕ, suc, ◌+◌, ℤ, pos, String, Bool, true, false, Option, none, some, List, [], ◌∷◌, ◌++◌, map, ltb,
  if◌then◌else◌, ◌==◌, nat_key,
}
use chattui.Errs.{Error, no_params, ambiguous_params, Result, ok, err}
use chattui.Event.{
  Event, kind, room_joined, room_left, room_message_sent, direct_message_sent, conversation_created,
  inbox_entry_updated,
}
use chattui.Store.Models.{Int8, Text, Timestamptz}
use chattui.Store.Inbox.{
  SaveInboxRoomEventParams, UpsertInboxConversationCursorParams,
  UpdateInboxCursorOnRoomMessageParams, UpdateInboxCursorOnDmMessageParams, ListInboxFeedParams,
  ResetRoomUnreadCountParams, ResetDmUnreadCountParams, ListInboxFeedRow, UpdateInboxCursorRow,
}
use chattui.World.{World, publish, publish_all}
use Mapper.{
  FeedEntry, to_inbox_entry_updated_event, feed_entry_from_list, feed_entry_from_dm_update,
  feed_entry_from_room_update,
}

-- The interface Store, over the database `D`. A query that returns rows and an error returns both.
pub record Store (D : Type 0) : Type 0 where
  pub save_inbox_room_event : SaveInboxRoomEventParams → D → Option Error × D
  pub upsert_inbox_conversation_cursor : UpsertInboxConversationCursorParams → D → Option Error × D
  pub update_inbox_cursor_on_room_message :
      UpdateInboxCursorOnRoomMessageParams → D → List UpdateInboxCursorRow × Option Error × D
  pub update_inbox_cursor_on_dm_message :
      UpdateInboxCursorOnDmMessageParams → D → List UpdateInboxCursorRow × Option Error × D
  pub list_inbox_feed : ListInboxFeedParams → D → Result (List ListInboxFeedRow) × D
  pub reset_room_unread_count : ResetRoomUnreadCountParams → D → Option Error × D
  pub reset_dm_unread_count : ResetDmUnreadCountParams → D → Option Error × D
  pub reset_all_unread_count : ℤ → D → Option Error × D

-- `pgtype.Int8{Int64: n, Valid: true}`
abbrev pub int8 : ℤ → Int8
int8 n = record { int64 = n; valid = true }

-- `pgtype.Int8{Valid: false}`
abbrev pub null_int8 : Int8
null_int8 = record { int64 = pos 0; valid = false }

abbrev pub text : String → Text
text s = record { string = s; valid = true }

-- What a handler returns.
pub data Handled : Type 0 where
  done : Handled
  failed : Error → Handled
  -- "inbox: unexpected event type"
  unexpected : Handled

module _ {D : Type 0} (S : Store D) where
  -- A cursor; an error is logged and forgotten.
  unfoldable pub upsert_cursor : ℤ → Int8 → Int8 → World D → World D
  upsert_cursor u r c w = record w {
    db =
        (S.upsert_inbox_conversation_cursor
          (record { user_id = u; ref_room_id = r; ref_conversation_id = c }) w.db).1;
  }

  unfoldable pub handle_room_joined : Event → World D → Handled × World D
  unfolding upsert_cursor
  handle_room_joined (room_joined e) w =
      let (failure, d) =
        S.save_inbox_room_event
          (record {
            kind = kind (room_joined e);
            room_id = int8 e.room_id;
            source_user_id = e.user_id;
          })
          w.db in
      elim failure [
        | some x ↦ (failed x, record w { db = d })
        | none ↦ (done, upsert_cursor e.user_id (int8 e.room_id) null_int8 (record w { db = d }))
      ]
  handle_room_joined e w = (unexpected, w)

  unfoldable pub handle_room_left : Event → World D → Handled × World D
  handle_room_left (room_left e) w =
      let (failure, d) =
        S.save_inbox_room_event
          (record {
            kind = kind (room_left e);
            room_id = int8 e.room_id;
            source_user_id = e.user_id;
          })
          w.db in
      elim failure [ some x ↦ (failed x, record w { db = d }) | none ↦ (done, record w { db = d }) ]
  handle_room_left e w = (unexpected, w)

  unfoldable pub handle_conversation_created : Event → World D → Handled × World D
  unfolding upsert_cursor
  handle_conversation_created (conversation_created e) w = (
    done,
    upsert_cursor e.user_b_id null_int8 (int8 e.conversation_id)
        (upsert_cursor e.user_a_id null_int8 (int8 e.conversation_id) w),
  )
  handle_conversation_created e w = (unexpected, w)

  unfoldable pub handle_room_message_sent : Event → World D → Handled × World D
  handle_room_message_sent (room_message_sent e) w =
      let (rows, failure, d) =
        S.update_inbox_cursor_on_room_message
          (record { body = text e.body; sender_id = int8 e.sender_id; room_id = int8 e.room_id })
          w.db in
      (
        done,
        publish_all
            (map
              (λ row.
                inbox_entry_updated
                  (to_inbox_entry_updated_event row.user_id (feed_entry_from_room_update row)))
              rows)
            (record w { db = d }),
      )
  handle_room_message_sent e w = (unexpected, w)

  unfoldable pub handle_dm_sent : Event → World D → Handled × World D
  handle_dm_sent (direct_message_sent e) w =
      let (rows, failure, d) =
        S.update_inbox_cursor_on_dm_message
          (record {
            body = text e.body;
            sender_id = int8 e.sender_id;
            recipient_id = e.recipient_id;
            conversation_id = int8 e.conversation_id;
          })
          w.db in
      (
        done,
        publish_all
            (map
              (λ row.
                inbox_entry_updated
                  (to_inbox_entry_updated_event row.user_id (feed_entry_from_dm_update row)))
              rows)
            (record w { db = d }),
      )
  handle_dm_sent e w = (unexpected, w)

  unfoldable pub list_by_user : ℤ → ℕ → World D → Result (List FeedEntry) × World D
  list_by_user u limit w =
      let (r, d) = S.list_inbox_feed (record { lim = limit; user_id = u }) w.db in
      (elim r [ ok rows ↦ ok (map feed_entry_from_list rows) | err e ↦ err e ], record w { db = d })

  -- `set` counts the parameters that are given.
  abbrev pub one_if : Bool → ℕ
  one_if true = 1
  one_if false = 0

  abbrev pub given : Option ℤ → Bool
  given none = false
  given (some n) = true

  -- The `if` ladder behind the checks of `MarkAsRead`.
  unfoldable pub reset_selected : Option ℤ → Option ℤ → Bool → ℤ → D → Option Error × D
  reset_selected (some c) r all u d =
      S.reset_dm_unread_count (record { conversation_id = int8 c; user_id = u }) d
  reset_selected none (some r) all u d =
      S.reset_room_unread_count (record { room_id = int8 r; user_id = u }) d
  reset_selected none none true u d = S.reset_all_unread_count u d
  reset_selected none none false u d = (none, d)

  unfoldable pub mark_as_read : Option ℤ → Option ℤ → Bool → ℤ → World D → Option Error × World D
  unfolding reset_selected
  mark_as_read c r all u w =
      let set = one_if (given c) + one_if (given r) + one_if all in
      if set == 0
      then (some no_params, w)
      else if ltb 1 set
      then (some ambiguous_params, w)
      else (let (failure, d) = reset_selected c r all u w.db in (failure, record w { db = d }))
