-- ===== src/Client/App/Tests.antt =====
-- The client of a user who logs in and opens a room, with widgets that hold a text or a list.
use chattui.Common.{
  pos, String, Bool, true, false, Option, none, some, List, [], ◌∷◌, ◌++◌, if◌then◌else◌, ◌≡◌,
  arith, refl, ap, sym, string_key, int_key,
}
use chattui.Dto
use chattui.Dto.{Room, Conversation, InboxFeed}
use chattui.Ws.Message.{InboxUpdatedPayload}
use chattui.Client.Tea
use chattui.Client.Tea.{Msg, Cmd, ListWidget, InputWidget, unfiltered}
use chattui.Client.Auth
use chattui.Client.Rooms
use chattui.Client.Rooms.Picker.{IsPicked, update-IsPicked}
use chattui.Client.App.{
  Kit, App, screen_chat, update, new_app, show_rooms, leave, switch, intercept, quits, to_screen,
}
use chattui.Client.App.Machine.{
  Api, Reply, Issues, reply, failed, answer, System, arrives, answers, Reach, here, next, start,
}
use chattui.Client.App.Kept.{is_auth, is_chat}
use chattui.Client.App.Reachable.{Reach-Sound}
use chattui.Client.App.Panics.{double_esc-panics}

abbrev first {ℓ} : {A : Type ℓ} → List A → Option A
first [] = none
first (x ∷ xs) = some x

abbrev items : (I : Type 0) → ListWidget (List I) I
items I = record {
  empty = [];
  items = λ l. l;
  set_items = λ xs l. xs;
  selected = first;
  filter_state = λ l. unfiltered;
  update = λ msg l. l;
}

-- An input: whether it has the focus, and its text.
record Field : Type 0 where
  focus : Bool
  text : String

abbrev typed : Msg → Field → Field
typed (Tea.paste s) f = if f.focus then record f { text = s } else f
typed msg f = f

abbrev field : InputWidget Field
field = record {
  blank = record { focus = false; text = "" };
  value = λ f. f.text;
  set_value = λ s f. record f { text = s };
  set_focus = λ b f. record f { focus = b };
  update = typed;
}

-- JSON that knows one inbox_updated payload, for conversation 7.
abbrev payload : InboxUpdatedPayload
payload = record {
  entry_type = "conversation";
  kind = "";
  source_user_id = pos 0;
  source_username = "";
  ref_room_id = none;
  ref_room_name = none;
  ref_conversation_id = some (pos 7);
  unread_count = 3;
  last_message_body = some "hi";
  last_message_sender_id = some (pos 2);
  peer_id = pos 2;
  peer_username = "bob";
}

abbrev kit : Kit (List Room) (List Conversation) (List InboxFeed) Field
kit = record {
  rooms_list = items Room;
  dm_list = items Conversation;
  inbox_list = items InboxFeed;
  input = field;
  chat_codec = record { unmarshal_room = λ j. none; unmarshal_error = λ j. none };
  dm_codec = record { unmarshal_direct = λ j. none; unmarshal_error = λ j. none };
  unmarshal_inbox = λ j. some payload;
  trim_space = λ s. s;
  now = pos 100;
}

abbrev lobby : Room
lobby = record { id = pos 4; name = "lobby"; slug = "lobby"; created_at = pos 0 }

abbrev session : Dto.Auth
session = record {
  user = record { id = pos 1; username = "ann"; created_at = pos 0 };
  token = "tok";
  expires_at = pos 900;
}

abbrev api : Api
api = record {
  login = λ u p. reply session;
  register = λ u p. failed "taken";
  list_rooms = reply (lobby ∷ []);
  create_room = λ name. failed "no";
  join_room = λ room. none;
  list_conversations = reply [];
  get_user_by_username = λ name. failed "no";
  get_inbox = reply [];
  get_messages = λ room. reply [];
  get_conversation_messages = λ conv. reply [];
  connect = none;
}

abbrev Client : Type 0
Client = System (List Room) (List Conversation) (List InboxFeed) Field

-- The client after a message, with what it has still to run.
abbrev after : List Cmd → Msg → Client → Client
after rest msg s = elim (update kit msg s.app) [
  | none ↦ s
  | some (a, cmds) ↦ record { app = a; pending = rest ++ cmds }
]

abbrev w : Cmd
w = Tea.widget

abbrev typed_in : Client
typed_in =
    let a = start kit "catppuccin" in
    let b = after a.pending (Tea.paste "ann") a in
    let c = after b.pending (Tea.key "tab") b in after c.pending (Tea.paste "secret") c

abbrev submitted : Client
submitted = after typed_in.pending (Tea.key "enter") typed_in

abbrev in_rooms : Client
in_rooms = after (w ∷ w ∷ w ∷ w ∷ w ∷ w ∷ w ∷ []) (Tea.success "tok" (pos 1) "ann") submitted

abbrev Token : String → Type 0
Token t = t ≡ "tok"

abbrev w7 : List Cmd
w7 = w ∷ w ∷ w ∷ w ∷ w ∷ w ∷ w ∷ []

abbrev others : List Cmd
others = w7 ++ w ∷ Tea.connect_ws ∷ Tea.fetch_badges ∷ []

abbrev listed : Client
listed = after others (Tea.rooms_loaded (lobby ∷ [])) in_rooms

abbrev in_chat : Client
in_chat =
    let b = after others (Tea.key "enter") listed in
    let c = after others (Tea.room_joined lobby) b in after others (Tea.room_selected lobby) c

abbrev token_of : Reply Dto.Auth → String
token_of (reply res) = res.token
token_of (failed e) = "tok"

issues : Issues kit Token api
issues = (λ u p res h. ap token_of (sym h), λ u p res h. ap token_of (sym h))

typed_in-Reach : Reach kit Token (start kit "catppuccin") typed_in
unfolding start new_app Auth.init update intercept switch quits to_screen
typed_in-Reach =
    next
      (next (next here (arrives (Tea.paste "ann") _ _ refl refl refl))
        (arrives (Tea.key "tab") _ _ refl refl refl))
      (arrives (Tea.paste "secret") _ _ refl refl refl)

in_rooms-Reach : Reach kit Token (start kit "catppuccin") in_rooms
unfolding start new_app Auth.init update intercept switch quits to_screen answer Auth.update
    Auth.new
in_rooms-Reach = next (next typed_in-Reach (arrives (Tea.key "enter") _ _ refl refl refl)) (
    answers api (w ∷ w ∷ w ∷ w ∷ w ∷ w ∷ []) (w ∷ []) (Tea.login_with "ann" "secret")
      (Tea.success "tok" (pos 1) "ann") _ _ issues refl refl refl refl)

in_chat-Reach : Reach kit Token (start kit "catppuccin") in_chat
unfolding start new_app Auth.init update intercept switch quits to_screen answer Rooms.update
    Rooms.new
in_chat-Reach =
    next
      (next
        (next
          (next in_rooms-Reach (
            answers api w7 (w ∷ Tea.connect_ws ∷ Tea.fetch_badges ∷ []) Tea.fetch_rooms
              (Tea.rooms_loaded (lobby ∷ [])) _ _ issues refl refl refl refl))
          (arrives (Tea.key "enter") _ _ refl refl refl))
        (answers api others [] (Tea.join_and_select lobby) (Tea.room_joined lobby) _ _ issues refl
          refl refl refl))
      (answers api others [] (Tea.emit (Tea.room_selected lobby)) (Tea.room_selected lobby) _ _
        issues refl refl refl refl)

-- The client has come to the room, with the token of the login.
Reach-Sound_example :
    (is_auth in_chat.app.active ≡ false → in_chat.app.token ≡ "tok")
    × (is_chat in_chat.app.active ≡ true → in_chat.app.current_room ≡ some in_chat.app.chat.room)
Reach-Sound_example = Reach-Sound Token kit "catppuccin" in_chat in_chat-Reach

-- The room screen of the lobby, and the app after it has left it.
abbrev lobby_app : App (List Room) (List Conversation) (List InboxFeed) Field
lobby_app = in_chat.app

leaves :
    update kit Tea.leave_room lobby_app
    ≡ some ((after [] Tea.leave_room in_chat).app, Tea.fetch_rooms ∷ w ∷ Tea.fetch_badges ∷ [])
unfolding start new_app Auth.init update intercept switch quits to_screen show_rooms leave
leaves = refl

in_lobby : lobby_app.active ≡ screen_chat
unfolding start new_app Auth.init update intercept switch quits to_screen
in_lobby = refl

double_esc-panics_example :
    (update kit (Tea.key "esc") lobby_app ≡ some (lobby_app, Tea.emit Tea.leave_room ∷ []))
    × (update kit Tea.leave_room (after [] Tea.leave_room in_chat).app ≡ none)
double_esc-panics_example =
    double_esc-panics kit lobby_app (after [] Tea.leave_room in_chat).app
      (Tea.fetch_rooms ∷ w ∷ Tea.fetch_badges ∷ []) in_lobby leaves

opened : IsPicked in_rooms.app.rooms
unfolding start new_app Auth.init update intercept switch quits to_screen Rooms.new
opened = record { named = (0, omega arith, refl); cursor = λ h. absurd (ground (arith, h)) }

-- The picker opens on the theme that is set.
update-IsPicked_example :
    IsPicked
      (Rooms.update kit.rooms_list kit.input kit.trim_space (Tea.key "t") in_rooms.app.rooms).0
update-IsPicked_example =
    update-IsPicked kit.rooms_list kit.input kit.trim_space (Tea.key "t") in_rooms.app.rooms opened
