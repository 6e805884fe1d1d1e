-- ===== src/Client/Chat/Tests.antt =====
-- The room screen of room 4 with a history of two messages and a message of room 5.
use chattui.Common.{true, pos, String, none, some, List, [], ◌∷◌, ◌++◌, string_key, ◌≡◌, refl}
use chattui.Client.ChatView.{Shown}
use chattui.Client.Chat.{
  StoredMessage, Model, Codec, Msg, history_loaded, incoming, run, add_history,
}
use chattui.Client.Chat.Transcript.{transcript, transcript_lem}

abbrev stored : String → StoredMessage
stored body = record { sender_id = pos 1; sender_username = "ana"; body = body; created_at = pos 0 }

abbrev shown : String → Shown
shown body = record { sender_id = pos 1; sender = "ana"; body = body; at = pos 0 }

-- JSON that knows one payload, for room 5.
abbrev codec : Codec
codec = record {
  unmarshal_room = λ j. some (record {
    room_id = pos 5;
    content = "elsewhere";
    sender_id = pos 1;
    sender_username = "ana";
    message_id = pos 9;
  });
  unmarshal_error = λ j. none;
}

abbrev screen : Model
screen = record { room_id = pos 4; messages = []; loading = true; err = "" }

abbrev arrivals : List Msg
arrivals =
    history_loaded (stored "second" ∷ stored "first" ∷ [])
    ∷ incoming (record { kind = "room_message"; payload = []; timestamp = pos 0 })
    ∷ []

transcript_lem_example : (run codec arrivals screen).messages ≡ [] ++ transcript codec arrivals
transcript_lem_example = transcript_lem codec arrivals screen

-- The message of room 5 stands in the transcript of room 4.
shown_in_room_4 :
    (run codec arrivals screen).messages ≡ shown "first" ∷ shown "second" ∷ shown "elsewhere" ∷ []
unfolding run add_history
shown_in_room_4 = refl
