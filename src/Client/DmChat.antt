-- ===== src/Client/DmChat.antt =====
-- cmd/client/internal/ui/dmchat/model.go: the messages of the direct message screen. JSON is a
-- parameter, and the viewport, the input line and the HTTP client are left out.
pub mod Filter
pub mod Screen
mod Tests
use chattui.Common.{
  ℤ, pos, String, Bool, true, false, not, Option, none, some, List, [], ◌∷◌, ◌++◌, if◌then◌else◌,
  ◌==◌, ◌&&◌, ◌||◌, string_key, int_key,
}
use chattui.Ws.Message.{Json, Message, DirectMessagePayload, type_direct_message}
use chattui.Client.ChatView.{Shown}
use chattui.Client.Chat.{StoredMessage, type_error}

pub record Model : Type 0 where
  pub conversation_id : ℤ
  pub peer_id : ℤ
  pub peer_username : String
  pub my_user_id : ℤ
  pub my_username : String
  pub messages : List Shown
  pub loading : Bool
  pub err : String

pub record Codec : Type 0 where
  pub unmarshal_direct : Json → Option DirectMessagePayload
  pub unmarshal_error : Json → Option String

pub data Msg : Type 0 where
  history_loaded : List StoredMessage → Msg
  incoming : Message → Msg
  ws_error : String → Msg

-- isFromPeer || isFromMe
abbrev pub belongs : Model → DirectMessagePayload → Bool
belongs m p = p.sender_id == m.peer_id || (p.sender_id == m.my_user_id && p.to_user_id == m.peer_id)

-- The conversation's number is taken from the first message that has one.
abbrev pub conversation_after : Model → DirectMessagePayload → ℤ
conversation_after m p =
    if m.conversation_id == pos 0 && not (p.conversation_id == pos 0)
    then p.conversation_id
    else m.conversation_id

abbrev pub of_direct : Model → Message → DirectMessagePayload → Shown
of_direct m msg p = record {
  sender_id = p.sender_id;
  sender = if p.sender_id == m.my_user_id then m.my_username else p.sender_username;
  body = p.content;
  at = msg.timestamp;
}

abbrev pub of_stored : Model → StoredMessage → Shown
of_stored m s = record {
  sender_id = s.sender_id;
  sender = if s.sender_id == m.my_user_id then m.my_username else m.peer_username;
  body = s.body;
  at = s.created_at;
}

-- The loop of `historyLoadedMsg`, which runs from the last message to the first.
unfoldable pub add_history : Model → List StoredMessage → List Shown → List Shown
add_history m [] shown = shown
add_history m (s ∷ older) shown = add_history m older shown ++ of_stored m s ∷ []

unfoldable pub show_direct : Message → DirectMessagePayload → Model → Model
show_direct msg p m =
    if belongs m p
    then record m {
      conversation_id = conversation_after m p;
      messages = m.messages ++ of_direct m msg p ∷ [];
    }
    else m

module _ (J : Codec) where
  unfoldable pub handle_ws_message : Message → Model → Model
  unfolding show_direct
  handle_ws_message msg m =
      if msg.kind == type_direct_message
      then (elim (J.unmarshal_direct msg.payload) [ none ↦ m | some p ↦ show_direct msg p m ])
      else if msg.kind == type_error
      then (elim (J.unmarshal_error msg.payload) [ none ↦ m | some e ↦ record m { err = e } ])
      else m

  unfoldable pub update : Msg → Model → Model
  unfolding handle_ws_message add_history
  update (history_loaded stored) m = record m {
    loading = false;
    messages = add_history m stored m.messages;
  }
  update (incoming msg) m = handle_ws_message msg m
  update (ws_error e) m = record m { err = e }

  unfoldable pub run : List Msg → Model → Model
  unfolding update
  run [] m = m
  run (x ∷ xs) m = run xs (update x m)
