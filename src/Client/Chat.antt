-- ===== src/Client/Chat.antt =====
-- cmd/client/internal/ui/chat/model.go: the messages of the room screen. JSON is a parameter, and
-- the viewport, the input line and the HTTP client are left out.
pub mod Transcript
pub mod Screen
mod Tests
use chattui.Common.{
  ℤ, String, Bool, true, false, Option, none, some, List, [], ◌∷◌, ◌++◌, if◌then◌else◌, ◌==◌,
  string_key,
}
use chattui.Ws.Message.{Json, Message, RoomMessagePayload, type_room_message}
use chattui.Client.ChatView.{Shown}

-- dto.Message, as far as the screen reads it
pub record StoredMessage : Type 0 where
  pub sender_id : ℤ
  pub sender_username : String
  pub body : String
  pub created_at : ℤ

pub record Model : Type 0 where
  pub room_id : ℤ
  pub messages : List Shown
  pub loading : Bool
  pub err : String

-- json.Unmarshal at the payloads that the screen reads; the second is the text of an ErrorPayload.
pub record Codec : Type 0 where
  pub unmarshal_room : Json → Option RoomMessagePayload
  pub unmarshal_error : Json → Option String

pub data Msg : Type 0 where
  history_loaded : List StoredMessage → Msg
  incoming : Message → Msg
  ws_error : String → Msg

abbrev pub type_error : String
type_error = "error"

abbrev pub of_stored : StoredMessage → Shown
of_stored s = record {
  sender_id = s.sender_id;
  sender = s.sender_username;
  body = s.body;
  at = s.created_at;
}

abbrev pub of_payload : Message → RoomMessagePayload → Shown
of_payload msg p = record {
  sender_id = p.sender_id;
  sender = p.sender_username;
  body = p.content;
  at = msg.timestamp;
}

-- The loop of `historyLoadedMsg`, which runs from the last message to the first.
unfoldable pub add_history : List StoredMessage → List Shown → List Shown
add_history [] shown = shown
add_history (s ∷ older) shown = add_history older shown ++ of_stored s ∷ []

module _ (J : Codec) where
  unfoldable pub handle_ws_message : Message → Model → Model
  handle_ws_message msg m =
      if msg.kind == type_room_message
      then (elim (J.unmarshal_room msg.payload) [
        | none ↦ m
        | some p ↦ record m { messages = m.messages ++ of_payload msg p ∷ [] }
      ])
      else if msg.kind == type_error
      then (elim (J.unmarshal_error msg.payload) [ none ↦ m | some e ↦ record m { err = e } ])
      else m

  unfoldable pub update : Msg → Model → Model
  unfolding handle_ws_message
  update (history_loaded stored) m = record m {
    loading = false;
    messages = add_history stored m.messages;
  }
  update (incoming msg) m = handle_ws_message msg m
  update (ws_error e) m = record m { err = e }

  unfoldable pub run : List Msg → Model → Model
  unfolding update
  run [] m = m
  run (x ∷ xs) m = run xs (update x m)
