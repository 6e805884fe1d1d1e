-- ===== src/Inbox/Unread/Tests.antt =====
-- User 1 of room 4: two messages of user 2 and one of their own, after a first one was read.
use chattui.Common.{ℤ, pos, none, some, false, List, [], ◌∷◌, ◌≡◌, refl}
use chattui.Event.{RoomLeftEvent, RoomMessageSentEvent, room_joined, room_left, room_message_sent}
use chattui.Store.Sql.{Tables}
use chattui.Store.Relations.{any}
use chattui.World.{World}
use chattui.Inbox.Unread.{Act, happened, read, run, room, unread, spec}
use chattui.Inbox.Unread.Refinement.{unread-run, left_room_still_counts}

abbrev world : World Tables
world = record {
  db = record {
    cursors = [];
    inbox_events = [];
    room_members = (pos 4, pos 1) ∷ (pos 4, pos 2) ∷ [];
    rooms = λ r. some "lobby";
    conversations = λ v. none;
    users = λ u. some "user";
    now = pos 100;
  };
  events = [];
}

abbrev says : ℤ → RoomMessageSentEvent
says u = record { room_id = pos 4; sender_id = u; message_id = pos 9; body = "hi" }

abbrev joins : Act
joins = happened (room_joined (record { user_id = pos 1; room_id = pos 4 }))

abbrev said : ℤ → Act
said u = happened (room_message_sent (says u))

-- The newest first.
abbrev acts : List Act
acts =
    said (pos 2)
    ∷ said (pos 1)
    ∷ said (pos 2)
    ∷ read none (some (pos 4)) false (pos 1)
    ∷ said (pos 2)
    ∷ joins
    ∷ []

two_unread : spec acts (pos 1) (room (pos 4)) ≡ some 2
two_unread = refl

unread-run_example :
    unread (run acts world).db.cursors (pos 1) (room (pos 4)) ≡ spec acts (pos 1) (room (pos 4))
unread-run_example = unread-run acts world (pos 1) (room (pos 4)) refl

abbrev gone : RoomLeftEvent
gone = record { user_id = pos 1; room_id = pos 4 }

left_room_still_counts_example :
    unread
      (run
        (said (pos 2) ∷ said (pos 1) ∷ said (pos 2) ∷ happened (room_left gone) ∷ acts)
        world).db.cursors
      (pos 1)
      (room (pos 4))
    ≡ some 4
unfolding any
left_room_still_counts_example =
    left_room_still_counts acts (said (pos 2) ∷ said (pos 1) ∷ said (pos 2) ∷ []) world gone 2 refl
      refl refl
