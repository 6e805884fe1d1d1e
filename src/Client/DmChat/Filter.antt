-- ===== src/Client/DmChat/Filter.antt =====
-- Which messages reach the transcript of cmd/client/internal/ui/dmchat/model.go.
use chattui.Common.{
  ℤ, Bool-cases, Option-cases, List, [], ◌∷◌, ◌++◌, ◌==◌, string_key, int_key, int_eq_iff, ◌≡◌, ◌⊎◌,
  arith, inl, inr,
}
use chattui.Ws.Message.{Message, DirectMessagePayload, type_direct_message}
use chattui.Client.ChatView.{Shown}
use chattui.Client.Chat.{StoredMessage, type_error}
use chattui.Client.DmChat.{
  Model, Codec, Msg, history_loaded, incoming, ws_error, belongs, of_direct, of_stored, add_history,
  show_direct, handle_ws_message, update, run,
}

-- The message is of the user or of the peer.
abbrev pub OfTheTwo : ℤ → ℤ → Shown → Type 0
OfTheTwo peer me s = (s.sender_id ≡ peer) ⊎ (s.sender_id ≡ me)

abbrev pub AllOfTheTwo : ℤ → ℤ → List Shown → Type 0
AllOfTheTwo peer me [] = Unit {0}
AllOfTheTwo peer me (s ∷ ss) = OfTheTwo peer me s × AllOfTheTwo peer me ss

-- Every history that is loaded is of the two.
abbrev pub HistoryOfTheTwo : ℤ → ℤ → List StoredMessage → Type 0
HistoryOfTheTwo peer me [] = Unit {0}
HistoryOfTheTwo peer me (s ∷ ss) =
    ((s.sender_id ≡ peer) ⊎ (s.sender_id ≡ me)) × HistoryOfTheTwo peer me ss

abbrev pub LoadedOfTheTwo : ℤ → ℤ → List Msg → Type 0
LoadedOfTheTwo peer me [] = Unit {0}
LoadedOfTheTwo peer me (history_loaded stored ∷ xs) =
    HistoryOfTheTwo peer me stored × LoadedOfTheTwo peer me xs
LoadedOfTheTwo peer me (incoming msg ∷ xs) = LoadedOfTheTwo peer me xs
LoadedOfTheTwo peer me (ws_error e ∷ xs) = LoadedOfTheTwo peer me xs

AllOfTheTwo-append :
    (peer me : ℤ) (a : List Shown) (s : Shown)
    → AllOfTheTwo peer me a
    → OfTheTwo peer me s
    → AllOfTheTwo peer me (a ++ s ∷ [])
AllOfTheTwo-append peer me [] s h k = (k, tt)
AllOfTheTwo-append peer me (x ∷ a) s (p, h) k = (p, AllOfTheTwo-append peer me a s h k)

AllOfTheTwo-add_history :
    (peer me : ℤ) (m : Model) (stored : List StoredMessage) (shown : List Shown)
    → HistoryOfTheTwo peer me stored
    → AllOfTheTwo peer me shown
    → AllOfTheTwo peer me (add_history m stored shown)
unfolding add_history
AllOfTheTwo-add_history peer me m [] shown h k = k
AllOfTheTwo-add_history peer me m (s ∷ older) shown (p, h) k =
    AllOfTheTwo-append peer me (add_history m older shown) (of_stored m s)
      (AllOfTheTwo-add_history peer me m older shown h k) p

-- The model is of the two users, and so is its transcript.
pub record Private (peer me : ℤ) (m : Model) : Type 0 where
  pub peer_id : m.peer_id ≡ peer
  pub my_user_id : m.my_user_id ≡ me
  pub messages : AllOfTheTwo peer me m.messages

show_direct-Private :
    (peer me : ℤ) (msg : Message) (p : DirectMessagePayload) (m : Model)
    → Private peer me m
    → Private peer me (show_direct msg p m)
unfolding show_direct
show_direct-Private peer me msg p m h = elim (Bool-cases (belongs m p)) [
  | inr q ↦ rw (q, show_direct) h
  | inl q ↦
      let of_two : OfTheTwo peer me (of_direct m msg p) =
        elim (Bool-cases (p.sender_id == m.peer_id)) [
          | inl a ↦ inl (ground (arith, a, int_eq_iff p.sender_id m.peer_id, h.peer_id))
          | inr a ↦ inr (ground (arith, a, q, int_eq_iff p.sender_id m.my_user_id, h.my_user_id))
        ] in
      rw (q, show_direct)
        (record {
          peer_id = h.peer_id;
          my_user_id = h.my_user_id;
          messages = AllOfTheTwo-append peer me m.messages (of_direct m msg p) h.messages of_two;
        })
]

module _ (J : Codec) where
  handle_ws_message-Private :
      (peer me : ℤ) (msg : Message) (m : Model)
      → Private peer me m
      → Private peer me (handle_ws_message J msg m)
  unfolding handle_ws_message
  handle_ws_message-Private peer me msg m h = elim (Bool-cases (msg.kind == type_direct_message)) [
    | inl p ↦ elim (Option-cases (J.unmarshal_direct msg.payload)) [
      | inl q ↦ rw (p, handle_ws_message, q) h
      | inr (x, q) ↦ rw (p, handle_ws_message, q) (show_direct-Private peer me msg x m h)
    ]
    | inr p ↦ elim (Bool-cases (msg.kind == type_error)) [
      | inl e ↦ elim (Option-cases (J.unmarshal_error msg.payload)) [
        | inl q ↦ rw (p, handle_ws_message, e, q) h
        | inr (x, q) ↦
            rw (p, handle_ws_message, e, q)
              (record { peer_id = h.peer_id; my_user_id = h.my_user_id; messages = h.messages })
      ]
      | inr e ↦ rw (p, handle_ws_message, e) h
    ]
  ]

  -- Where the histories that are loaded are of the user and the peer: whatever else reaches the
  -- direct message screen, in any order, each message of its transcript is of the user or of the
  -- peer, and the screen stays with this peer.
  pub run-Private :
      (peer me : ℤ) (xs : List Msg) (m : Model)
      → LoadedOfTheTwo peer me xs
      → Private peer me m
      → Private peer me (run J xs m)
  unfolding run update
  run-Private peer me [] m l h = h
  run-Private peer me (history_loaded stored ∷ xs) m (l, ls) h =
      run-Private peer me xs (update J (history_loaded stored) m) ls (record {
        peer_id = h.peer_id;
        my_user_id = h.my_user_id;
        messages = AllOfTheTwo-add_history peer me m stored m.messages l h.messages;
      })
  run-Private peer me (incoming msg ∷ xs) m l h =
      run-Private peer me xs (handle_ws_message J msg m) l
        (handle_ws_message-Private peer me msg m h)
  run-Private peer me (ws_error e ∷ xs) m l h =
      run-Private peer me xs (update J (ws_error e) m) l
        (record { peer_id = h.peer_id; my_user_id = h.my_user_id; messages = h.messages })
