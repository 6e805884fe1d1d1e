-- ===== src/Store/Sql.antt =====
-- cmd/server/internal/store/inbox.sql.go: what the SQL of the inbox queries says, over the tables of
-- cmd/server/migrations/002_inbox.sql and 003_inbox_denormalize.sql. A column that may be NULL is an
-- option, and a comparison with NULL is not true. The time of a statement is a field, and so are the
-- tables that the inbox only reads. The upper bound of the INT column unread_count is left out.
use chattui.Common.{
  ℕ, suc, ℤ, pos, String, Bool, true, false, not, Option, none, some, List, [], ◌∷◌, ◌++◌, map,
  if◌then◌else◌, ◌==◌, ◌&&◌, ◌||◌, int_key, string_key,
}
use chattui.Errs.{Error, other}
use chattui.Store.Models.{Int8, Text}
use chattui.Store.Inbox.{
  SaveInboxRoomEventParams, UpsertInboxConversationCursorParams,
  UpdateInboxCursorOnRoomMessageParams, UpdateInboxCursorOnDmMessageParams,
  ResetRoomUnreadCountParams, ResetDmUnreadCountParams, ListInboxFeedRow, UpdateInboxCursorRow,
}

-- A row of inbox_conversations.
pub record Cursor : Type 0 where
  pub user_id : ℤ
  pub ref_room_id : Option ℤ
  pub ref_conversation_id : Option ℤ
  pub last_message_body : Option String
  pub last_message_at : Option ℤ
  pub last_message_sender_id : Option ℤ
  pub unread_count : ℕ

-- A row of inbox_events.
pub record InboxEvent : Type 0 where
  pub user_id : ℤ
  pub kind : String
  pub room_id : Option ℤ
  pub source_user_id : ℤ
  pub created_at : ℤ

pub record Tables : Type 0 where
  pub cursors : List Cursor
  pub inbox_events : List InboxEvent
  pub room_members : List (ℤ × ℤ)  -- room and user
  pub rooms : ℤ → Option String  -- the name
  pub conversations : ℤ → Option (ℤ × ℤ)  -- user_a and user_b
  pub users : ℤ → Option String  -- the name
  pub now : ℤ

abbrev pub nullable : Int8 → Option ℤ
nullable i = if i.valid then some i.int64 else none

abbrev pub null_text : Text → Option String
null_text t = if t.valid then some t.string else none

abbrev pub to_int8 : Option ℤ → Int8
to_int8 none = record { int64 = pos 0; valid = false }
to_int8 (some n) = record { int64 = n; valid = true }

abbrev pub to_text : Option String → Text
to_text none = record { string = ""; valid = false }
to_text (some s) = record { string = s; valid = true }

-- `a = b` of two columns: true, or else false or NULL.
abbrev pub sql_eq : Option ℤ → Option ℤ → Bool
sql_eq (some a) (some b) = a == b
sql_eq (some a) none = false
sql_eq none b = false

-- `a != b`
abbrev pub sql_ne : ℤ → Option ℤ → Bool
sql_ne a (some b) = not (a == b)
sql_ne a none = false

abbrev pub is_set : {A : Type 0} → Option A → Bool
is_set none = false
is_set (some a) = true

abbrev pub those : {A : Type 0} → (A → Bool) → List A → List A
those p [] = []
those p (x ∷ xs) = let rest = those p xs in if p x then x ∷ rest else rest

abbrev pub update_where : (Cursor → Bool) → (Cursor → Cursor) → List Cursor → List Cursor
update_where p f [] = []
update_where p f (c ∷ cs) = (if p c then f c else c) ∷ update_where p f cs

abbrev pub any : (Cursor → Bool) → List Cursor → Bool
any p [] = false
any p (c ∷ cs) = p c || any p cs

-- The constraint kind_enum.
abbrev pub is_kind : String → Bool
is_kind k = k == "room_join" || (k == "room_leave" || (k == "friend_request" || k == "room_invite"))

unfoldable pub save_inbox_room_event : SaveInboxRoomEventParams → Tables → Option Error × Tables
save_inbox_room_event p t =
    if is_kind p.kind
    then (
      none,
      record t {
        inbox_events =
            t.inbox_events
            ++ map
                (λ m. record {
                  user_id = m.1;
                  kind = p.kind;
                  room_id = nullable p.room_id;
                  source_user_id = p.source_user_id;
                  created_at = t.now;
                })
                (those
                  (λ m. sql_eq (some m.0) (nullable p.room_id) && not (m.1 == p.source_user_id))
                  t.room_members);
      },
    )
    else (some (other "kind_enum"), t)

-- A row that one of the two unique indexes takes for the same.
abbrev pub conflicts : ℤ → Option ℤ → Option ℤ → Cursor → Bool
conflicts u r v c = c.user_id == u && (sql_eq c.ref_room_id r || sql_eq c.ref_conversation_id v)

abbrev pub fresh : ℤ → Option ℤ → Option ℤ → Cursor
fresh u r v = record {
  user_id = u;
  ref_room_id = r;
  ref_conversation_id = v;
  last_message_body = none;
  last_message_at = none;
  last_message_sender_id = none;
  unread_count = 0;
}

-- The constraint room_conv_refs.
abbrev pub one_ref : Option ℤ → Option ℤ → Bool
one_ref r v = (is_set r && not (is_set v)) || (not (is_set r) && is_set v)

unfoldable pub upsert_inbox_conversation_cursor :
    UpsertInboxConversationCursorParams → Tables → Option Error × Tables
upsert_inbox_conversation_cursor p t =
    let r = nullable p.ref_room_id in
    let v = nullable p.ref_conversation_id in
    if one_ref r v
    then (
      none,
      if any (conflicts p.user_id r v) t.cursors
          then t
          else record t { cursors = t.cursors ++ fresh p.user_id r v ∷ [] },
    )
    else (some (other "room_conv_refs"), t)

-- The SET of the two cursor updates.
abbrev pub bump : Option String → Option ℤ → ℤ → Cursor → Cursor
bump body sender now c = record c {
  last_message_body = body;
  last_message_at = some now;
  last_message_sender_id = sender;
  unread_count = suc c.unread_count;
}

-- The LEFT JOINs: the peer of a user in a conversation, if it has one.
abbrev pub peer_of : Tables → ℤ → Option ℤ → Option (ℤ × String)
peer_of t u none = none
peer_of t u (some v) = elim (t.conversations v) [
  | none ↦ none
  | some (a, b) ↦
      let p = if a == u then b else a in
      elim (t.users p) [ none ↦ none | some name ↦ some (p, name) ]
]

abbrev pub room_name : Tables → Option ℤ → Option String
room_name t none = none
room_name t (some r) = t.rooms r

unfoldable pub conversation_row : Tables → Cursor → ListInboxFeedRow
conversation_row t c = record {
  entry_type = "conversation";
  kind = "";
  source_user_id = pos 0;
  source_username = "";
  ref_room_id = to_int8 c.ref_room_id;
  ref_conversation_id = to_int8 c.ref_conversation_id;
  unread_count = c.unread_count;
  last_message_body = to_text c.last_message_body;
  last_message_sender_id = to_int8 c.last_message_sender_id;
  room_name = to_text (room_name t c.ref_room_id);
  peer_id = elim (peer_of t c.user_id c.ref_conversation_id) [ none ↦ pos 0 | some (p, n) ↦ p ];
  peer_username = elim (peer_of t c.user_id c.ref_conversation_id) [ none ↦ "" | some (p, n) ↦ n ];
  created_at = elim c.last_message_at [
    | none ↦ record { time = pos 0; valid = false }
    | some at ↦ record { time = at; valid = true }
  ];
}

-- UPDATE inbox_conversations with a SET and a WHERE, RETURNING the new rows, joined.
unfoldable pub update_returning :
    (Cursor → Bool) → (Cursor → Cursor) → Tables → List UpdateInboxCursorRow × Option Error × Tables
unfolding conversation_row
update_returning p f t = (
  map (λ c. record { row = conversation_row t (f c); user_id = c.user_id }) (those p t.cursors),
  none,
  record t { cursors = update_where p f t.cursors },
)

unfoldable pub update_inbox_cursor_on_room_message :
    UpdateInboxCursorOnRoomMessageParams
    → Tables
    → List UpdateInboxCursorRow × Option Error × Tables
unfolding update_returning
update_inbox_cursor_on_room_message p t =
    update_returning
      (λ c. sql_eq c.ref_room_id (nullable p.room_id) && sql_ne c.user_id (nullable p.sender_id))
      (bump (null_text p.body) (nullable p.sender_id) t.now) t

unfoldable pub update_inbox_cursor_on_dm_message :
    UpdateInboxCursorOnDmMessageParams → Tables → List UpdateInboxCursorRow × Option Error × Tables
unfolding update_returning
update_inbox_cursor_on_dm_message p t =
    update_returning
      (λ c.
        c.user_id == p.recipient_id && sql_eq c.ref_conversation_id (nullable p.conversation_id))
      (bump (null_text p.body) (nullable p.sender_id) t.now) t

abbrev pub zeroed : Cursor → Cursor
zeroed c = record c { unread_count = 0 }

unfoldable pub reset_room_unread_count : ResetRoomUnreadCountParams → Tables → Option Error × Tables
reset_room_unread_count p t = (
  none,
  record t {
    cursors =
        update_where (λ c. sql_eq c.ref_room_id (nullable p.room_id) && c.user_id == p.user_id)
          zeroed t.cursors;
  },
)

unfoldable pub reset_dm_unread_count : ResetDmUnreadCountParams → Tables → Option Error × Tables
reset_dm_unread_count p t = (
  none,
  record t {
    cursors =
        update_where
          (λ c. sql_eq c.ref_conversation_id (nullable p.conversation_id) && c.user_id == p.user_id)
          zeroed t.cursors;
  },
)

unfoldable pub reset_all_unread_count : ℤ → Tables → Option Error × Tables
reset_all_unread_count u t =
    (none, record t { cursors = update_where (λ c. c.user_id == u) zeroed t.cursors })
