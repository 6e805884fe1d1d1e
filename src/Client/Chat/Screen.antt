-- ===== src/Client/Chat/Screen.antt =====
-- cmd/client/internal/ui/chat/model.go: the room screen around its transcript.
use chattui.Common.{
  ℕ, String, Bool, true, none, some, List, [], ◌∷◌, if◌then◌else◌, ◌==◌, ◌||◌, string_key,
}
use chattui.Dto.{Room}
use chattui.Client.Chat
use chattui.Client.Chat.{Codec}
use chattui.Client.Tea.{
  Msg, key, window_size, incoming, ws_error, leave_room, chat_history, Cmd, emit, widget,
  load_history, mark_as_read, send_room_message, InputWidget,
}

pub record Model (T : Type 0) : Type 0 where
  pub room : Room
  pub chat : Chat.Model
  pub input : T
  pub has_ws : Bool  -- wsClient != nil
  pub width : ℕ
  pub height : ℕ

-- A key of the message history rather than of the composer.
unfoldable pub is_scroll_key : String → Bool
is_scroll_key k = k == "pgup" || (k == "pgdown" || (k == "ctrl+u" || k == "ctrl+d"))

module _ {T : Type 0} (I : InputWidget T) (J : Codec) (trim_space : String → String) where
  unfoldable pub new : Bool → Room → ℕ → ℕ → Model T
  new has_ws room width height = record {
    room = room;
    chat = record { room_id = room.id; messages = []; loading = true; err = "" };
    input = I.set_focus true I.blank;
    has_ws = has_ws;
    width = width;
    height = height;
  }

  unfoldable pub init : Model T → List Cmd
  init m = load_history m.room.id ∷ widget ∷ mark_as_read none (some m.room.id) ∷ []

  -- The payload always marshals: it is a number and a text.
  unfoldable pub send_message : Model T → Model T × List Cmd
  send_message m =
      let content = trim_space (I.value m.input) in
      if content == ""
      then (m, [])
      else if m.has_ws
      then (record m { input = I.set_value "" m.input }, send_room_message m.room.id content ∷ [])
      else (m, [])

  abbrev pub update_input : Msg → Model T → Model T × List Cmd
  update_input msg m = (record m { input = I.update msg m.input }, widget ∷ [])

  abbrev pub to_chat : Chat.Msg → Model T → Model T × List Cmd
  to_chat x m = (record m { chat = Chat.update J x m.chat }, [])

  unfoldable pub update : Msg → Model T → Model T × List Cmd
  unfolding send_message is_scroll_key
  update (key k) m =
      if k == "esc"
      then (m, emit leave_room ∷ [])
      else if k == "enter"
      then send_message m
      else if is_scroll_key k
      then (m, widget ∷ [])
      else update_input (key k) m
  update (chat_history stored) m = to_chat (Chat.history_loaded stored) m
  update (incoming msg) m = to_chat (Chat.incoming msg) m
  update (ws_error e) m = to_chat (Chat.ws_error e) m
  update (window_size w h) m = update_input (window_size w h) (record m { width = w; height = h })
  update msg m = update_input msg m
