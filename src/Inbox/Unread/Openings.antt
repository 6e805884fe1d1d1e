-- ===== src/Inbox/Unread/Openings.antt =====
-- The events that open a room or a conversation for a user: what the handlers of
-- cmd/server/internal/inbox/service.go do to the table of cursors.
use chattui.Common.{
  ℕ, suc, ℤ, Bool, true, false, Option, none, some, List, [], ◌∷◌, ◌++◌, string_key, if◌then◌else◌,
  ◌==◌, ◌&&◌, ◌||◌, int_key, ◌≡◌, refl, ap, ◌∙◌,
}
use chattui.Event.{
  Event, RoomJoinedEvent, ConversationCreatedEvent, RoomLeftEvent, kind, room_joined, room_left,
  conversation_created,
}
use chattui.Store.Sql.{
  Cursor, Tables, any, conflicts, to_int8, save_inbox_room_event, upsert_inbox_conversation_cursor,
}
use chattui.World.{World}
use chattui.Inbox.{
  handle_room_joined, handle_room_left, handle_conversation_created, upsert_cursor, int8, null_int8,
}
use chattui.Inbox.Unread.{
  Act, happened, handle, Ref, room, conversation, is_of, unread, opens, counts, marks, after,
  sql_store,
}
use chattui.Inbox.Unread.Statements.{
  Whole, applied, opened, room_of, conversation_of, row_for, upserted, unread-upserted,
  upserted-Whole, and_false,
}

-- One step of the table is the step of the specification, for every user and room or conversation.
abbrev pub Refines : Act → List Cursor → List Cursor → Type 0
Refines a cs cs' =
    Whole cs' × ((u : ℤ) (ref : Ref) → unread cs' u ref ≡ after a u ref (unread cs u ref))

after-opened :
    (a : Act) (u : ℤ) (ref : Ref) (o : Option ℕ)
    → marks u ref a ≡ false
    → counts u ref a ≡ false
    → opened (opens u ref a) o ≡ after a u ref o
after-opened a u ref none m c = refl
after-opened a u ref (some n) m c = rw (m, c) refl

pub after-counted :
    (a : Act) (u : ℤ) (ref : Ref) (o : Option ℕ)
    → opens u ref a ≡ false
    → marks u ref a ≡ false
    → applied (counts u ref a) suc o ≡ after a u ref o
after-counted a u ref none p m = rw p refl
after-counted a u ref (some n) p m = rw m refl

pub after-marked :
    (a : Act) (u : ℤ) (ref : Ref) (o : Option ℕ)
    → opens u ref a ≡ false
    → counts u ref a ≡ false
    → applied (marks u ref a) (λ n. 0) o ≡ after a u ref o
after-marked a u ref none p c = rw p refl
after-marked a u ref (some n) p c = rw c refl

inserted :
    (b : Bool) (t : Tables) (cs : List Cursor)
    → (if b then t else record t { cursors = cs }).cursors ≡ (if b then t.cursors else cs)
inserted true t cs = refl
inserted false t cs = refl

opens-joined :
    (e : RoomJoinedEvent) (u : ℤ) (ref : Ref)
    → is_of u ref (row_for e.user_id (room e.room_id)) ≡ opens u ref (happened (room_joined e))
opens-joined e u (room r) = refl
opens-joined e u (conversation v) = and_false (e.user_id == u)

pub no_marks : (e : Event) (u : ℤ) (ref : Ref) → marks u ref (happened e) ≡ false
no_marks e u (room r) = refl
no_marks e u (conversation v) = refl

upsert_cursor-cursors :
    (u : ℤ) (own : Ref) (w : World Tables)
    → (upsert_cursor sql_store u
        (to_int8 (room_of own))
        (to_int8 (conversation_of own))
        w).db.cursors
      ≡ upserted u own w.db.cursors
unfolding upsert_cursor upsert_inbox_conversation_cursor
upsert_cursor-cursors u (room r) w =
    inserted (any (conflicts u (some r) none) w.db.cursors) w.db
      (w.db.cursors ++ row_for u (room r) ∷ [])
upsert_cursor-cursors u (conversation v) w =
    inserted (any (conflicts u none (some v)) w.db.cursors) w.db
      (w.db.cursors ++ row_for u (conversation v) ∷ [])

joined-cursors :
    (e : RoomJoinedEvent) (w : World Tables)
    → (handle (room_joined e) w).db.cursors ≡ upserted e.user_id (room e.room_id) w.db.cursors
unfolding handle_room_joined save_inbox_room_event kind
joined-cursors e w = upsert_cursor-cursors e.user_id (room e.room_id) (record w {
  db =
      (save_inbox_room_event
        (record { kind = "room_join"; room_id = int8 e.room_id; source_user_id = e.user_id })
        w.db).1;
})

joined-counts :
    (e : RoomJoinedEvent) (u : ℤ) (ref : Ref) → counts u ref (happened (room_joined e)) ≡ false
joined-counts e u (room r) = refl
joined-counts e u (conversation v) = refl

pub joined-Refines :
    (e : RoomJoinedEvent) (w : World Tables)
    → Whole w.db.cursors
    → Refines (happened (room_joined e)) w.db.cursors (handle (room_joined e) w).db.cursors
joined-Refines e w h = rw (joined-cursors e w) (
  upserted-Whole e.user_id (room e.room_id) w.db.cursors h,
  λ u ref.
      unread-upserted u e.user_id ref (room e.room_id) w.db.cursors
      ∙ (ap (λ b. opened b (unread w.db.cursors u ref)) (opens-joined e u ref)
          ∙ after-opened (happened (room_joined e)) u ref (unread w.db.cursors u ref)
              (no_marks (room_joined e) u ref) (joined-counts e u ref)),
)

pub left-Refines :
    (e : RoomLeftEvent) (w : World Tables)
    → Whole w.db.cursors
    → Refines (happened (room_left e)) w.db.cursors (handle (room_left e) w).db.cursors
unfolding handle_room_left save_inbox_room_event kind
left-Refines e w h = (h, λ u ref. unchanged u ref (unread w.db.cursors u ref))
  where
    unchanged : (u : ℤ) (ref : Ref) (o : Option ℕ) → o ≡ after (happened (room_left e)) u ref o
    unchanged u (room r) none = refl
    unchanged u (room r) (some n) = refl
    unchanged u (conversation v) none = refl
    unchanged u (conversation v) (some n) = refl

-- Two rows of one conversation.
opened_twice :
    (p q c : Bool) (o : Option ℕ) → opened (q && c) (opened (p && c) o) ≡ opened ((p || q) && c) o
opened_twice p q c (some n) = refl
opened_twice true q true none = refl
opened_twice true q false none = rw (and_false q) refl
opened_twice false q c none = refl

opens-created :
    (e : ConversationCreatedEvent) (u : ℤ) (ref : Ref) (o : Option ℕ)
    → opened
        (is_of u ref (row_for e.user_b_id (conversation e.conversation_id)))
        (opened (is_of u ref (row_for e.user_a_id (conversation e.conversation_id))) o)
      ≡ after (happened (conversation_created e)) u ref o
opens-created e u (room r) none =
    rw (and_false (e.user_a_id == u), and_false (e.user_b_id == u)) refl
opens-created e u (room r) (some n) = refl
opens-created e u (conversation v) none =
    opened_twice (e.user_a_id == u) (e.user_b_id == u) (e.conversation_id == v) none
opens-created e u (conversation v) (some n) = refl

pub created-Refines :
    (e : ConversationCreatedEvent) (w : World Tables)
    → Whole w.db.cursors
    → Refines
        (happened (conversation_created e))
        w.db.cursors
        (handle (conversation_created e) w).db.cursors
unfolding handle_conversation_created
created-Refines e w h =
    let own = conversation e.conversation_id in
    let w' = upsert_cursor sql_store e.user_a_id null_int8 (int8 e.conversation_id) w in
    let first = upsert_cursor-cursors e.user_a_id own w in
    let second = upsert_cursor-cursors e.user_b_id own w' ∙ ap (upserted e.user_b_id own) first in
    rw second (
      upserted-Whole e.user_b_id own (upserted e.user_a_id own w.db.cursors)
          (upserted-Whole e.user_a_id own w.db.cursors h),
      λ u ref.
          unread-upserted u e.user_b_id ref own (upserted e.user_a_id own w.db.cursors)
          ∙ (ap (opened (is_of u ref (row_for e.user_b_id own)))
                (unread-upserted u e.user_a_id ref own w.db.cursors)
              ∙ opens-created e u ref (unread w.db.cursors u ref)),
    )
