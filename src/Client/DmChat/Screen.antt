-- ===== src/Client/DmChat/Screen.antt =====
-- cmd/client/internal/ui/dmchat/model.go: the direct message screen around its transcript.
use chattui.Common.{
  ℕ, ℤ, pos, String, Bool, true, false, none, some, List, [], ◌∷◌, if◌then◌else◌, ◌==◌, string_key,
  int_key,
}
use chattui.Client.DmChat
use chattui.Client.DmChat.{Codec}
use chattui.Client.Chat.Screen.{is_scroll_key}
use chattui.Client.Tea.{
  Msg, key, window_size, incoming, ws_error, leave_dm, dm_history, Cmd, emit, widget,
  load_dm_history, mark_as_read, send_direct_message, InputWidget,
}

pub record Model (T : Type 0) : Type 0 where
  pub chat : DmChat.Model
  pub input : T
  pub has_ws : Bool  -- wsClient != nil
  pub width : ℕ
  pub height : ℕ

module _ {T : Type 0} (I : InputWidget T) (J : Codec) (trim_space : String → String) where
  unfoldable pub new : Bool → ℤ → ℤ → String → ℤ → String → ℕ → ℕ → Model T
  new has_ws conv peer peer_name me my_name width height = record {
    chat = record {
      conversation_id = conv;
      peer_id = peer;
      peer_username = peer_name;
      my_user_id = me;
      my_username = my_name;
      messages = [];
      loading = if conv == pos 0 then false else true;
      err = "";
    };
    input = I.set_focus true I.blank;
    has_ws = has_ws;
    width = width;
    height = height;
  }

  unfoldable pub init : Model T → List Cmd
  init m =
      let conv = m.chat.conversation_id in
      widget
      ∷ (if conv == pos 0 then [] else load_dm_history conv ∷ mark_as_read (some conv) none ∷ [])

  unfoldable pub send_message : Model T → Model T × List Cmd
  send_message m =
      let content = trim_space (I.value m.input) in
      if content == ""
      then (m, [])
      else if m.has_ws
      then (
        record m { input = I.set_value "" m.input },
        send_direct_message m.chat.peer_id content ∷ [],
      )
      else (m, [])

  abbrev pub update_input : Msg → Model T → Model T × List Cmd
  update_input msg m = (record m { input = I.update msg m.input }, widget ∷ [])

  abbrev pub to_chat : DmChat.Msg → Model T → Model T × List Cmd
  to_chat x m = (record m { chat = DmChat.update J x m.chat }, [])

  unfoldable pub update : Msg → Model T → Model T × List Cmd
  unfolding send_message is_scroll_key
  update (key k) m =
      if k == "esc"
      then (m, emit leave_dm ∷ [])
      else if k == "enter"
      then send_message m
      else if is_scroll_key k
      then (m, widget ∷ [])
      else update_input (key k) m
  update (dm_history stored) m = to_chat (DmChat.history_loaded stored) m
  update (incoming msg) m = to_chat (DmChat.incoming msg) m
  update (ws_error e) m = to_chat (DmChat.ws_error e) m
  update (window_size w h) m = update_input (window_size w h) (record m { width = w; height = h })
  update msg m = update_input msg m
