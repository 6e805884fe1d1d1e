-- ===== src/Client/App/Badges.antt =====
-- The badges that cmd/client/internal/ui/app.go keeps and shows.
use chattui.Common.{
  ℕ, ℤ, true, Option, none, some, [], ◌∷◌, ◌≡◌, refl, insert, int_key, ◌==◌, string_key,
  some-injective,
}
use chattui.Ws.Message.{Message, InboxUpdatedPayload, type_inbox_updated}
use chattui.Client.Tea
use chattui.Client.Tea.{Msg, Cmd}
use chattui.Client.Rooms
use chattui.Client.App.{
  screen_rooms, Kit, App, goes_on, update, intercept, switch, note_payload, note_room, note_conv,
  to_screen,
}

module _ {R D E T : Type 0} (K : Kit R D E T) where
  note-conv :
      (a : App R D E T) (ref : Option ℤ) (c : ℤ) (n : ℕ)
      → a.active ≡ screen_rooms
      → ref ≡ some c
      → note_conv K ref n a ≡ goes_on (record a { conv_badges = insert c n a.conv_badges })
  unfolding note_conv
  note-conv a none c n e h = absurd (cc)
  note-conv a (some d) c n e h = rw (e, some-injective _ _ h) refl

  note-room :
      (a : App R D E T) (ref conv : Option ℤ) (c : ℤ) (n : ℕ)
      → a.active ≡ screen_rooms
      → ref ≡ none
      → conv ≡ some c
      → note_room K ref conv n a ≡ goes_on (record a { conv_badges = insert c n a.conv_badges })
  unfolding note_room
  note-room a none conv c n e h k = note-conv a conv c n e k
  note-room a (some r) conv c n e h k = absurd (cc)

  -- On the rooms screen, an inbox_updated message of a direct conversation changes the badge that
  -- the app keeps for it, and nothing of the rooms screen but its list: the sums that the screen
  -- shows stay as they were.
  pub dm_badge_on_rooms :
      (msg : Message) (p : InboxUpdatedPayload) (c : ℤ) (a : App R D E T)
      → a.active ≡ screen_rooms
      → (msg.kind == type_inbox_updated) ≡ true
      → K.unmarshal_inbox msg.payload ≡ some p
      → p.ref_room_id ≡ none
      → p.ref_conversation_id ≡ some c
      → update K (Tea.incoming msg) a
        ≡ some (
          record a {
            conv_badges = insert c p.unread_count a.conv_badges;
            rooms = record a.rooms {
              list = (Kit.rooms_list K).update (Tea.incoming msg) a.rooms.list;
            };
          },
          Tea.widget ∷ [],
        )
  unfolding update intercept note_payload switch to_screen Rooms.update
  dm_badge_on_rooms msg p c a e k u h q =
      rw (k, u, note-room a p.ref_room_id p.ref_conversation_id c p.unread_count e h q, e) refl
