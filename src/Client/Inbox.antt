-- ===== src/Client/Inbox.antt =====
-- cmd/client/internal/ui/inbox/model.go: the entries of the inbox screen and the unread badges. The
-- list widget is the list of its items, each of which is an entry.
pub mod Badges
pub mod Agreement
pub mod Marked
pub mod Screen
mod Tests
use chattui.Common.{
  ℕ, ◌+◌, ℤ, pos, String, Bool, true, false, not, Option, none, some, List, [], ◌∷◌, map,
  if◌then◌else◌, ◌==◌, nat_key, int_key, is_positive, Map, insert,
}
use chattui.Dto.{InboxFeed, InboxRoom, InboxUser, InboxLastMessage}
use chattui.Ws.Message.{InboxUpdatedPayload}

abbrev pub same_room : Option InboxRoom → Option InboxRoom → Bool
same_room none s = false
same_room (some r) none = false
same_room (some r) (some s) = r.id == s.id

-- The `if` ladder of `sameEntry`: the conversations decide where both entries have one.
abbrev pub same_refs : Option ℤ → Option ℤ → Option InboxRoom → Option InboxRoom → Bool
same_refs none d r s = same_room r s
same_refs (some c) none r s = same_room r s
same_refs (some c) (some d) r s = c == d

unfoldable pub same_entry : InboxFeed → InboxFeed → Bool
same_entry a b = same_refs a.ref_conversation_id b.ref_conversation_id a.room b.room

unfoldable pub zero_unread_count : List InboxFeed → InboxFeed → List InboxFeed
zero_unread_count [] entry = []
zero_unread_count (e ∷ es) entry =
    (if same_entry e entry then record e { unread_count = 0 } else e) ∷ zero_unread_count es entry

-- The items that are not the entry's.
unfoldable pub others : List InboxFeed → InboxFeed → List InboxFeed
others [] entry = []
others (e ∷ es) entry = let rest = others es entry in if same_entry e entry then rest else e ∷ rest

unfoldable pub upsert_entry : List InboxFeed → InboxFeed → List InboxFeed
unfolding others
upsert_entry items entry = entry ∷ others items entry

abbrev pub name_or_empty : Option String → String
name_or_empty none = ""
name_or_empty (some name) = name

abbrev pub payload_room : Option ℤ → Option String → Option InboxRoom
payload_room none name = none
payload_room (some id) name = some (record { id = id; name = name_or_empty name })

abbrev pub sender_or_zero : Option ℤ → ℤ
sender_or_zero none = pos 0
sender_or_zero (some id) = id

abbrev pub payload_message : Option String → Option ℤ → Option InboxLastMessage
payload_message none sender = none
payload_message (some body) sender =
    some (record { body = body; sender_id = sender_or_zero sender })

-- `now` is the value of `time.Now()`.
unfoldable pub inbox_entry_from_payload : ℤ → InboxUpdatedPayload → InboxFeed
inbox_entry_from_payload now p = record {
  entry_type = p.entry_type;
  kind = p.kind;
  source_user =
      if is_positive p.peer_id
      then some (record { id = p.peer_id; username = p.peer_username })
      else if is_positive p.source_user_id
      then some (record { id = p.source_user_id; username = p.source_username })
      else none;
  room = payload_room p.ref_room_id p.ref_room_name;
  ref_conversation_id = p.ref_conversation_id;
  unread_count = p.unread_count;
  last_message = payload_message p.last_message_body p.last_message_sender_id;
  created_at = now;
}

pub record BadgesMsg : Type 0 where
  pub room_badges : Map ℤ ℕ
  pub conv_badges : Map ℤ ℕ

abbrev pub add_badge_for : Option InboxRoom → Option ℤ → ℕ → BadgesMsg → BadgesMsg
add_badge_for (some r) c n m = record m { room_badges = insert r.id n m.room_badges }
add_badge_for none (some c) n m = record m { conv_badges = insert c n m.conv_badges }
add_badge_for none none n m = m

-- One round of the loop of `computeBadges`.
unfoldable pub add_badge : InboxFeed → BadgesMsg → BadgesMsg
add_badge e m =
    if e.unread_count == 0 then m else add_badge_for e.room e.ref_conversation_id e.unread_count m

unfoldable pub add_badges : List InboxFeed → BadgesMsg → BadgesMsg
unfolding add_badge
add_badges [] m = m
add_badges (e ∷ es) m = add_badges es (add_badge e m)

unfoldable pub compute_badges : List InboxFeed → BadgesMsg
unfolding add_badges
compute_badges items = add_badges items (record { room_badges = []; conv_badges = [] })

-- `for _, v := range m { t += v }`
unfoldable pub total : Map ℤ ℕ → ℕ
total [] = 0
total ((k, v) ∷ m) = v + total m

unfoldable pub rooms_total : BadgesMsg → ℕ
unfolding total
rooms_total m = total m.room_badges

unfoldable pub dms_total : BadgesMsg → ℕ
unfolding total
dms_total m = total m.conv_badges

-- What `markAsReadCmd` asks the server for: a conversation and a room of which one is nil, or
-- nothing at all.
abbrev pub mark_target : Option ℤ → Option InboxRoom → Option (Option ℤ × Option ℤ)
mark_target (some c) r = some (some c, none)
mark_target none (some r) = some (none, some r.id)
mark_target none none = none

unfoldable pub mark_as_read_request : InboxFeed → Option (Option ℤ × Option ℤ)
mark_as_read_request e = mark_target e.ref_conversation_id e.room
