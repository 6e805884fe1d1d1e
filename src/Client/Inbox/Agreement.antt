-- ===== src/Client/Inbox/Agreement.antt =====
-- That an entry pushed over the WebSocket is the entry that the server lists: the mapping functions
-- of cmd/server/internal/{inbox,ws,api/handlers} and of cmd/client/internal/ui/inbox in a row.
use chattui.Common.{
  Option-cases, subst, ℤ, pos, not, Bool-cases, Option, some, [], ◌∷◌, ◌==◌, string_key, int_key,
  is_positive, ◌≡◌, refl, sym, ap, ◌∙◌, arith, inl, inr,
}
use chattui.Event.{inbox_entry_updated, InboxEntryUpdatedEvent}
use chattui.Store.Models.{Int8, Text}
use chattui.Store.Inbox.{ListInboxFeedRow, UpdateInboxCursorRow}
use chattui.Inbox.Mapper.{
  feed_entry_from_list, feed_entry_from_room_update, to_inbox_entry_updated_event, int_ref,
  text_ref,
}
use chattui.Ws.Message.{Json, InboxUpdatedPayload}
use chattui.Ws.Hub.{BroadcastMsg}
use chattui.Ws.Notify.{broadcasts, inbox_payload, inbox_broadcast, handle_inbox_entry_updated}
use chattui.Api.Inbox.{to_inbox_res, room_ref}
use chattui.Client.Inbox.{inbox_entry_from_payload, payload_room}

-- What the SELECT of UpdateInboxCursorOnRoomMessage makes of every row: the constants of its first
-- columns, a room's name wherever there is a room, and a peer with both a number and a name or none.
pub record IsCursorRow (row : ListInboxFeedRow) : Type 0 where
  pub is_conversation : row.entry_type ≡ "conversation"
  pub no_kind : row.kind ≡ ""
  pub no_source : row.source_user_id ≡ pos 0
  pub room_is_named : row.room_name.valid ≡ row.ref_room_id.valid
  pub peer_is_named : is_positive row.peer_id ≡ not (row.peer_username == "")

room_ref-payload_room :
    (r : Int8) (t : Text)
    → t.valid ≡ r.valid
    → payload_room (int_ref r) (text_ref t) ≡ room_ref (int_ref r) (text_ref t)
room_ref-payload_room r t h = elim (Bool-cases r.valid) [
  | inl p ↦ rw (h, p) refl
  | inr p ↦ rw (h, p) refl
]

pub entry_lem :
    (row : UpdateInboxCursorRow) (now : ℤ)
    → IsCursorRow row.row
    → inbox_entry_from_payload now
        (inbox_payload (to_inbox_entry_updated_event row.user_id (feed_entry_from_room_update row)))
      ≡ record (to_inbox_res (feed_entry_from_list row.row)) { created_at = now }
unfolding inbox_entry_from_payload to_inbox_entry_updated_event feed_entry_from_room_update
    to_inbox_res feed_entry_from_list
entry_lem row now h = elim (Bool-cases (row.peer_username == "")) [
  | inl p ↦
      rw
        (
          h.is_conversation,
          h.no_kind,
          h.no_source,
          h.peer_is_named,
          p,
          room_ref-payload_room row.ref_room_id row.room_name h.room_is_named,
        )
        refl
  | inr p ↦
      rw
        (
          h.is_conversation,
          h.no_kind,
          h.no_source,
          h.peer_is_named,
          p,
          room_ref-payload_room row.ref_room_id row.room_name h.room_is_named,
        )
        refl
]

handled-broadcasts :
    (marshal : InboxUpdatedPayload → Option Json) (e : InboxEntryUpdatedEvent) (b : BroadcastMsg)
    → handle_inbox_entry_updated marshal (inbox_entry_updated e) ≡ broadcasts b
    → (j : Json) × (marshal (inbox_payload e) ≡ some j) × (inbox_broadcast e j ≡ b)
unfolding handle_inbox_entry_updated
handled-broadcasts marshal e b n = elim (Option-cases (marshal (inbox_payload e))) [
  | inl p ↦ absurd (ground (arith, p))
  | inr (j, p) ↦ (j, p, ground (arith, p))
]

user_of :
    (row : UpdateInboxCursorRow)
    → (to_inbox_entry_updated_event row.user_id (feed_entry_from_room_update row)).user_id ∷ []
      ≡ row.user_id ∷ []
unfolding to_inbox_entry_updated_event
user_of row = refl

-- The payload that the hub marshals for the row.
abbrev pub payload_of : UpdateInboxCursorRow → InboxUpdatedPayload
payload_of row =
    inbox_payload (to_inbox_entry_updated_event row.user_id (feed_entry_from_room_update row))

-- Where JSON reads back the row's payload as it was written: what the hub broadcasts for a row of
-- the cursor query goes to the row's user alone, and the client makes the very entry of it that the
-- inbox endpoint lists for the row, but for the time, which is the client's own.
pub pushed_entry_is_listed :
    (marshal : InboxUpdatedPayload → Option Json) (unmarshal : Json → Option InboxUpdatedPayload)
    (row : UpdateInboxCursorRow) (now : ℤ) (b : BroadcastMsg)
    → IsCursorRow row.row
    → ((j : Json) → marshal (payload_of row) ≡ some j → unmarshal j ≡ some (payload_of row))
    → handle_inbox_entry_updated marshal (
        inbox_entry_updated
          (to_inbox_entry_updated_event row.user_id (feed_entry_from_room_update row)))
      ≡ broadcasts b
    → (b.target_user_ids ≡ row.user_id ∷ [])
      × ((p : InboxUpdatedPayload) × (unmarshal b.msg.payload ≡ some p)
          × (inbox_entry_from_payload now p
              ≡ record (to_inbox_res (feed_entry_from_list row.row)) { created_at = now }))
pushed_entry_is_listed marshal unmarshal row now b h reads_back n =
    let e = to_inbox_entry_updated_event row.user_id (feed_entry_from_room_update row) in
    let (j, wrote, same) = handled-broadcasts marshal e b n in
    let p = inbox_payload e in
    let read =
      subst (λ (x : BroadcastMsg). unmarshal x.msg.payload ≡ some p) same (reads_back j wrote) in
    (
      sym (ap (λ (x : BroadcastMsg). x.target_user_ids) same) ∙ user_of row,
      (p, read, entry_lem row now h),
    )
