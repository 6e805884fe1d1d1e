-- ===== src/Inbox/Unread/Refinement.antt =====
-- The unread counts of the inbox service are those of the specification.
use chattui.Common.{
  ℕ, ◌+◌, ℤ, false, some, List, [], ◌∷◌, ◌++◌, length, int_key, nat_key, ◌≡◌, refl, ap, ◌∙◌, arith,
  Bool-cases, inl, inr, or_left, or_right,
}
use chattui.Event.{
  RoomLeftEvent, room_joined, room_left, room_message_sent, direct_message_sent,
  conversation_created, inbox_entry_updated,
}
use chattui.Store.Sql.{Tables, those}
use chattui.Store.Relations.{any}
use chattui.World.{World}
use chattui.Inbox.Unread.{
  Act, happened, read, perform, run, Ref, room, unread, opens, counts, marks, after, spec,
}
use chattui.Inbox.Unread.Statements.{Whole}
use chattui.Inbox.Unread.Openings.{Refines, no_marks, joined-Refines, left-Refines, created-Refines}
use chattui.Inbox.Unread.Updates.{by_ref}
use chattui.Inbox.Unread.Messages.{message-Refines, dm-Refines}
use chattui.Inbox.Unread.Requests.{same-Refines, read-Refines}

perform-Refines :
    (a : Act) (w : World Tables)
    → Whole w.db.cursors
    → Refines a w.db.cursors (perform a w).db.cursors
perform-Refines (happened (room_joined e)) w h = joined-Refines e w h
perform-Refines (happened (room_left e)) w h = left-Refines e w h
perform-Refines (happened (room_message_sent e)) w h = message-Refines e w h
perform-Refines (happened (direct_message_sent e)) w h = dm-Refines e w h
perform-Refines (happened (conversation_created e)) w h = created-Refines e w h
perform-Refines (happened (inbox_entry_updated e)) w h =
    same-Refines (happened (inbox_entry_updated e)) w.db.cursors
      (λ u. by_ref (λ ref. opens u ref (happened (inbox_entry_updated e))) (λ n. refl) (λ n. refl))
      (λ u. by_ref (λ ref. counts u ref (happened (inbox_entry_updated e))) (λ n. refl) (λ n. refl))
      (no_marks (inbox_entry_updated e)) h
perform-Refines (read v r all x) w h = read-Refines v r all x w h

run-Refines :
    (acts : List Act) (w : World Tables)
    → w.db.cursors ≡ []
    → Whole (run acts w).db.cursors
      × ((u : ℤ) (ref : Ref) → unread (run acts w).db.cursors u ref ≡ spec acts u ref)
unfolding unread
run-Refines [] w e = rw e (tt, λ u ref. refl)
run-Refines (a ∷ past) w e =
    let (h, before) = run-Refines past w e in
    let (h', step) = perform-Refines a (run past w) h in
    (h', λ u ref. step u ref ∙ ap (after a u ref) (before u ref))

-- From an empty table of cursors, and whatever happens, in any order: what the table says that a
-- user has not read of a room or conversation is what the specification says, the messages to the
-- user since it was last read, or since it was opened for the user, and nothing before that.
pub unread-run :
    (acts : List Act) (w : World Tables) (u : ℤ) (ref : Ref)
    → w.db.cursors ≡ []
    → unread (run acts w).db.cursors u ref ≡ spec acts u ref
unread-run acts w u ref e = (run-Refines acts w e).1 u ref

-- Acts that do not mark it as read count the messages among them on top of what was unread.
spec-append :
    (later past : List Act) (u : ℤ) (ref : Ref) (n : ℕ)
    → spec past u ref ≡ some n
    → any (marks u ref) later ≡ false
    → spec (later ++ past) u ref ≡ some (n + length (those (counts u ref) later))
unfolding any
spec-append [] past u ref n e h = e ∙ ap some (omega arith)
spec-append (a ∷ later) past u ref n e h =
    let unmarked = or_left (marks u ref a) (any (marks u ref) later) h in
    let rest = or_right (marks u ref a) (any (marks u ref) later) h in
    let before = spec-append later past u ref n e rest in
    elim (Bool-cases (counts u ref a)) [
      | inl t ↦ rw (before, unmarked, t) (ap some (omega arith))
      | inr f ↦ rw (before, unmarked, f) refl
    ]

-- Whatever happens after a user has left a room, in any order, except that the user marks it as
-- read: the row of the user stays, and all messages that other users have sent to the room since
-- then are added to what was unread before the user left.
pub left_room_still_counts :
    (past later : List Act) (w : World Tables) (gone : RoomLeftEvent) (n : ℕ)
    → w.db.cursors ≡ []
    → spec past gone.user_id (room gone.room_id) ≡ some n
    → any (marks gone.user_id (room gone.room_id)) later ≡ false
    → unread
        (run (later ++ happened (room_left gone) ∷ past) w).db.cursors
        gone.user_id
        (room gone.room_id)
      ≡ some (n + length (those (counts gone.user_id (room gone.room_id)) later))
left_room_still_counts past later w gone n e before unmarked =
    let u = gone.user_id in
    let ref = room gone.room_id in
    let left : spec (happened (room_left gone) ∷ past) u ref ≡ some n = rw before refl in
    unread-run (later ++ happened (room_left gone) ∷ past) w u ref e
    ∙ spec-append later (happened (room_left gone) ∷ past) u ref n left unmarked
