-- ===== src/Client/App/Machine.antt =====
-- The client as a machine: the app of cmd/client/internal/ui/app.go, and the commands that its
-- updates have returned and that still run. Bubble Tea runs the commands side by side, so their
-- messages come in any order, with the keys and the messages of the WebSocket in between.
use chattui.Common.{ℤ, String, Bool, true, false, Option, none, some, List, ◌∷◌, ◌++◌, ◌≡◌}
use chattui.Dto
use chattui.Dto.{Room, Conversation, InboxFeed}
use chattui.Client.Chat.{StoredMessage}
use chattui.Client.Inbox.{compute_badges}
use chattui.Client.Auth
use chattui.Client.Tea
use chattui.Client.Tea.{Msg, Cmd}
use chattui.Client.App.{Kit, App, update, new_app}

pub data Reply {ℓ} (A : Type ℓ) : Type ℓ where
  reply : A → Reply A
  failed : String → Reply A  -- with err.Error()

-- What the calls of the API client return at one moment, and the dial of the WebSocket.
pub record Api : Type 0 where
  pub login : String → String → Reply Dto.Auth
  pub register : String → String → Reply Dto.Auth
  pub list_rooms : Reply (List Room)
  pub create_room : String → Reply Room
  pub join_room : ℤ → Option String
  pub list_conversations : Reply (List Conversation)
  pub get_user_by_username : String → Reply Dto.User
  pub get_inbox : Reply (List InboxFeed)
  pub get_messages : ℤ → Reply (List StoredMessage)
  pub get_conversation_messages : ℤ → Reply (List StoredMessage)
  pub connect : Option String

abbrev pub or_else {ℓ κ} : {A : Type ℓ} {B : Type κ} → (A → B) → (String → B) → Reply A → B
or_else f g (reply a) = f a
or_else f g (failed e) = g e

abbrev pub authenticated : Dto.Auth → Msg
authenticated res = Tea.success res.token res.user.id res.user.username

abbrev pub joined : Room → Option String → Msg
joined room none = Tea.room_joined room
joined room (some e) = Tea.room_error e

abbrev pub dialled : Option String → Msg
dialled none = Tea.ws_connected
dialled (some e) = Tea.ws_error e

-- The message that a command sends when it has run, if any: the closures that the screens return.
-- What a widget asks for comes back as a tick or a key, which the machine lets come at any time.
unfoldable pub answer : Api → Cmd → Option Msg
answer A (Tea.emit msg) = some msg
answer A Tea.quit = none
answer A Tea.widget = none
answer A (Tea.login_with u p) = some (or_else authenticated Tea.auth_error (A.login u p))
answer A (Tea.register_with u p) = some (or_else authenticated Tea.auth_error (A.register u p))
answer A Tea.connect_ws = some (dialled A.connect)
answer A Tea.fetch_badges =
    or_else (λ es. some (Tea.badges (compute_badges es))) (λ e. none) A.get_inbox
answer A Tea.fetch_rooms = some (or_else Tea.rooms_loaded Tea.room_error A.list_rooms)
answer A Tea.fetch_convs = some (or_else Tea.convs_loaded Tea.dm_error A.list_conversations)
answer A Tea.fetch_entries = some (or_else Tea.entries_loaded Tea.inbox_error A.get_inbox)
answer A (Tea.create_room name) =
    some (or_else Tea.room_created Tea.room_error (A.create_room name))
answer A (Tea.join_and_select room) = some (joined room (A.join_room room.id))
answer A (Tea.lookup_user name) =
    some (or_else Tea.peer_found Tea.dm_error (A.get_user_by_username name))
answer A (Tea.load_history room) =
    some (or_else Tea.chat_history Tea.ws_error (A.get_messages room))
answer A (Tea.load_dm_history conv) =
    some (or_else Tea.dm_history Tea.ws_error (A.get_conversation_messages conv))
answer A (Tea.mark_as_read conv room) = none
answer A (Tea.mark_entry conv room e) = some (Tea.marked_as_read e)
answer A (Tea.send_room_message room content) = none
answer A (Tea.send_direct_message peer content) = none

-- The messages that come from outside: the terminal, the spinner and the WebSocket.
abbrev pub is_external : Msg → Bool
is_external (Tea.key k) = true
is_external (Tea.paste s) = true
is_external (Tea.window_size w h) = true
is_external Tea.tick = true
is_external (Tea.incoming msg) = true
is_external (Tea.ws_error e) = true
is_external Tea.reconnecting = true
is_external Tea.connected = true
is_external msg = false

pub record System (R D E T : Type 0) : Type 0 where
  pub app : App R D E T
  pub pending : List Cmd

-- The program as main starts it: NewApp, and the command of its Init.
unfoldable pub start : {R D E T : Type 0} → Kit R D E T → String → System R D E T
start K theme = record { app = new_app K theme; pending = Auth.init }

module _ {R D E T : Type 0} (K : Kit R D E T) (P : String → Type 0) where
  -- Each token that a login or a registration returns has the property `P`.
  abbrev pub Issues : Api → Type 0
  Issues A =
      ((u p : String) (res : Dto.Auth) → A.login u p ≡ reply res → P res.token)
      × ((u p : String) (res : Dto.Auth) → A.register u p ≡ reply res → P res.token)

  pub data Step (s u : System R D E T) : Type 0 where
    arrives :
        (msg : Msg) (a : App R D E T) (cmds : List Cmd)
        → is_external msg ≡ true
        → update K msg s.app ≡ some (a, cmds)
        → u ≡ record { app = a; pending = s.pending ++ cmds }
        → Step s u
    answers :
        (A : Api) (before after : List Cmd) (c : Cmd) (msg : Msg) (a : App R D E T)
        (cmds : List Cmd)
        → Issues A
        → s.pending ≡ before ++ c ∷ after
        → answer A c ≡ some msg
        → update K msg s.app ≡ some (a, cmds)
        → u ≡ record { app = a; pending = (before ++ after) ++ cmds }
        → Step s u
    ends :
        (A : Api) (before after : List Cmd) (c : Cmd)
        → s.pending ≡ before ++ c ∷ after
        → answer A c ≡ none
        → u ≡ record { app = s.app; pending = before ++ after }
        → Step s u

  pub data Reach (s : System R D E T) : System R D E T → Type 0 where
    here : Reach s s
    next : {t u : System R D E T} → Reach s t → Step t u → Reach s u
