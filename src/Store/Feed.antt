-- ===== src/Store/Feed.antt =====
-- cmd/server/internal/store/inbox.sql.go: the query listInboxFeed over the tables of Store/Sql.antt.
-- Rows of one time come in some order, which is here that of the tables.
use chattui.Common.{
  ℤ, pos, negsuc, Bool, true, false, none, some, List, [], ◌∷◌, ◌++◌, map, if◌then◌else◌, ◌==◌,
  ◌&&◌, int_key, leb, take,
}
use chattui.Errs.{Result, ok}
use chattui.Store.Inbox.{ListInboxFeedParams, ListInboxFeedRow}
use chattui.Store.Sql.{
  InboxEvent, Tables, to_int8, to_text, is_set, those, room_name, conversation_row,
}

-- `a <= b`
abbrev pub int_leb : ℤ → ℤ → Bool
int_leb (pos a) (pos b) = leb a b
int_leb (pos a) (negsuc b) = false
int_leb (negsuc a) (pos b) = true
int_leb (negsuc a) (negsuc b) = leb b a

-- JOIN users: an event whose source user is gone has no row.
unfoldable pub event_rows : Tables → List InboxEvent → List ListInboxFeedRow
event_rows t [] = []
event_rows t (e ∷ es) =
    let rest = event_rows t es in
    elim (t.users e.source_user_id) [
      | none ↦ rest
      | some name ↦
          (record {
            entry_type = "event";
            kind = e.kind;
            source_user_id = e.source_user_id;
            source_username = name;
            ref_room_id = to_int8 e.room_id;
            ref_conversation_id = to_int8 none;
            unread_count = 0;
            last_message_body = to_text none;
            last_message_sender_id = to_int8 none;
            room_name = to_text (room_name t e.room_id);
            peer_id = pos 0;
            peer_username = "";
            created_at = record { time = e.created_at; valid = true };
          })
          ∷ rest
    ]

abbrev pub later : ListInboxFeedRow → ListInboxFeedRow → Bool
later a b = int_leb b.created_at.time a.created_at.time

-- ORDER BY created_at DESC
unfoldable pub put : ListInboxFeedRow → List ListInboxFeedRow → List ListInboxFeedRow
put x [] = x ∷ []
put x (y ∷ ys) = let rest = put x ys in if later x y then x ∷ y ∷ ys else y ∷ rest

unfoldable pub sort : List ListInboxFeedRow → List ListInboxFeedRow
unfolding put
sort [] = []
sort (x ∷ xs) = put x (sort xs)

unfoldable pub list_inbox_feed :
    ListInboxFeedParams → Tables → Result (List ListInboxFeedRow) × Tables
unfolding event_rows sort conversation_row
list_inbox_feed p t = (
  ok (
      take p.lim (
        sort (
          event_rows t (those (λ e. e.user_id == p.user_id) t.inbox_events)
          ++ map (conversation_row t)
              (those (λ c. c.user_id == p.user_id && is_set c.last_message_at) t.cursors)))),
  t,
)
