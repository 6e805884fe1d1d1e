-- ===== src/Client/Chat/Transcript.antt =====
-- What stands in the transcript of cmd/client/internal/ui/chat/model.go.
use chattui.Common.{
  Bool-cases, none, some, Option-cases, List, [], ◌∷◌, ◌++◌, map, reverse, if◌then◌else◌, ◌==◌,
  string_key, ◌≡◌, refl, sym, ap, ◌∙◌, inl, inr,
}
use mathlib.Core.List.{append_assoc, append-nil, reverse-cons}
use chattui.Ws.Message.{Message, type_room_message}
use chattui.Client.ChatView.{Shown}
use chattui.Client.Chat.{
  StoredMessage, Model, Codec, Msg, history_loaded, incoming, ws_error, type_error, of_stored,
  of_payload, add_history, handle_ws_message, update, run,
}

add_history-reverse :
    (stored : List StoredMessage) (shown : List Shown)
    → add_history stored shown ≡ shown ++ reverse (map of_stored stored)
unfolding add_history
add_history-reverse [] shown = sym (append-nil shown)
add_history-reverse (s ∷ older) shown =
    rw (add_history-reverse older shown, reverse-cons (of_stored s) (map of_stored older))
      (append_assoc shown (reverse (map of_stored older)) (of_stored s ∷ []))

module _ (J : Codec) where
  -- What one message adds to the transcript.
  abbrev pub shown_of : Msg → List Shown
  shown_of (history_loaded stored) = reverse (map of_stored stored)
  shown_of (incoming msg) =
      if msg.kind == type_room_message
      then (elim (J.unmarshal_room msg.payload) [ none ↦ [] | some p ↦ of_payload msg p ∷ [] ])
      else []
  shown_of (ws_error e) = []

  abbrev pub transcript : List Msg → List Shown
  transcript [] = []
  transcript (x ∷ xs) = shown_of x ++ transcript xs

  messages-handle_ws_message :
      (msg : Message) (m : Model)
      → (handle_ws_message J msg m).messages ≡ m.messages ++ shown_of (incoming msg)
  unfolding handle_ws_message
  messages-handle_ws_message msg m = elim (Bool-cases (msg.kind == type_room_message)) [
    | inl p ↦ elim (Option-cases (J.unmarshal_room msg.payload)) [
      | inl q ↦ rw (p, handle_ws_message, q) (sym (append-nil m.messages))
      | inr (x, q) ↦ rw (p, handle_ws_message, q) refl
    ]
    | inr p ↦ elim (Bool-cases (msg.kind == type_error)) [
      | inl e ↦ elim (Option-cases (J.unmarshal_error msg.payload)) [
        | inl q ↦ rw (p, handle_ws_message, e, q) (sym (append-nil m.messages))
        | inr (x, q) ↦ rw (p, handle_ws_message, e, q) (sym (append-nil m.messages))
      ]
      | inr e ↦ rw (p, handle_ws_message, e) (sym (append-nil m.messages))
    ]
  ]

  messages-update : (x : Msg) (m : Model) → (update J x m).messages ≡ m.messages ++ shown_of x
  unfolding update
  messages-update (history_loaded stored) m = add_history-reverse stored m.messages
  messages-update (incoming msg) m = messages-handle_ws_message msg m
  messages-update (ws_error e) m = sym (append-nil m.messages)

  -- Whatever reaches the room screen, in any order: the transcript is what it held before, and then
  -- the contributions in their order, which are a history's messages, oldest first, and the text of
  -- each room message that parses. None of this depends on the room that is open: the screen shows
  -- the messages of every room.
  pub transcript_lem :
      (xs : List Msg) (m : Model) → (run J xs m).messages ≡ m.messages ++ transcript xs
  unfolding run
  transcript_lem [] m = sym (append-nil m.messages)
  transcript_lem (x ∷ xs) m =
      transcript_lem xs (update J x m)
      ∙ ap (λ (l : List Shown). l ++ transcript xs) (messages-update x m)
      ∙ append_assoc m.messages (shown_of x) (transcript xs)
