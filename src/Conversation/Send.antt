-- ===== src/Conversation/Send.antt =====
-- `SendDirectMessage` of cmd/server/internal/conversation/service.go: all of it or nothing.
use chattui.Common.{
  ℤ, String, none, Option-cases, Bool-cases, List, [], ◌∷◌, ◌++◌, ◌≡◌, refl, ◌∙◌, inl, inr,
  if◌then◌else◌,
}
use mathlib.Core.List.{append_assoc}
use chattui.Errs.{Result, ok, err, Result-cases}
use chattui.Event.{Event, conversation_created, direct_message_sent}
use chattui.Store.Models.{Message}
use chattui.Store.Params.{GetOrCreateConversationRow}
use chattui.Db.{Beginner, IsTransactional}
use chattui.World.{World}
use chattui.Conversation.{
  Queries, message_params, send_direct_message, send_in, store_message, commit_sent, publish_sent,
}

-- What is published of a message: first that its conversation is new, where it is, with the users
-- in the row's order, then the message with its stored number.
abbrev pub told : GetOrCreateConversationRow → Message → ℤ → ℤ → String → List Event
told conv msg sender to body =
    (if conv.is_new
      then conversation_created
          (record { conversation_id = conv.id; user_a_id = conv.user_a; user_b_id = conv.user_b })
        ∷ []
      else [])
    ++ direct_message_sent (record {
      conversation_id = conv.id;
      sender_id = sender;
      recipient_id = to;
      message_id = msg.id;
      body = body;
    })
      ∷ []

events-publish_sent :
    {D : Type 0} (conv : GetOrCreateConversationRow) (msg : Message) (sender to : ℤ) (body : String)
    (w : World D)
    → (publish_sent conv msg sender to body w).events ≡ w.events ++ told conv msg sender to body
unfolding publish_sent
events-publish_sent conv msg sender to body w = elim (Bool-cases conv.is_new) [
  | inl p ↦ rw p (append_assoc w.events (_ ∷ []) (_ ∷ []))
  | inr p ↦ rw p refl
]

db-publish_sent :
    {D : Type 0} (conv : GetOrCreateConversationRow) (msg : Message) (sender to : ℤ) (body : String)
    (w : World D)
    → (publish_sent conv msg sender to body w).db ≡ w.db
unfolding publish_sent
db-publish_sent conv msg sender to body w = elim (Bool-cases conv.is_new) [
  | inl p ↦ rw p refl
  | inr p ↦ rw p refl
]

module _ {D T : Type 0} (B : Beginner D T) (q : Queries T) where
  -- The conversation was found or made and the message stored in one transaction, which was
  -- committed, and the events follow the commit. An error leaves all as it was.
  abbrev pub Atomic : ℤ → ℤ → String → World D → Result Message → World D → Type 0
  Atomic sender to body w (err e) w' = w' ≡ w
  Atomic sender to body w (ok msg) w' =
      (conv : GetOrCreateConversationRow) × (t t₁ t₂ : T) × ((B.begin w.db).0 ≡ ok t)
      × (q.get_or_create_conversation (record { user_a = sender; user_b = to }) t ≡ (ok conv, t₁))
      × (q.create_message (message_params conv.id sender body) t₁ ≡ (ok msg, t₂))
      × ((B.commit t₂ w.db).0 ≡ none)
      × (w'.db ≡ (B.commit t₂ w.db).1)
      × (w'.events ≡ w.events ++ told conv msg sender to body)

  module _ (L : IsTransactional B) where
    commit_sent_lem :
        (conv : GetOrCreateConversationRow) (msg : Message) (sender to : ℤ) (body : String)
        (t t₁ t₂ : T) (w : World D)
        → (B.begin w.db).0 ≡ ok t
        → q.get_or_create_conversation (record { user_a = sender; user_b = to }) t ≡ (ok conv, t₁)
        → q.create_message (message_params conv.id sender body) t₁ ≡ (ok msg, t₂)
        → let (r, w') = commit_sent B q conv msg sender to body t₂ w in Atomic sender to body w r w'
    unfolding commit_sent
    commit_sent_lem conv msg sender to body t t₁ t₂ w b c m =
        let d = (B.commit t₂ w.db).1 in
        let kept = L.rollback_keeps t₂ d in
        elim (Option-cases (B.commit t₂ w.db).0) [
          | inl p ↦
              let w' = record w { db = B.rollback t₂ d } in
              rw (p, commit_sent)
                (
                  conv,
                  t,
                  t₁,
                  t₂,
                  b,
                  c,
                  m,
                  p,
                  db-publish_sent conv msg sender to body w' ∙ kept,
                  events-publish_sent conv msg sender to body w',
                )
          | inr (e, p) ↦
              let same = kept ∙ L.commit_fails t₂ w.db d e (λ i. (p i, d)) in
              rw (p, commit_sent) (λ i. record w { db = same i })
        ]

    store_message_lem :
        (conv : GetOrCreateConversationRow) (sender to : ℤ) (body : String) (t t₁ : T) (w : World D)
        → (B.begin w.db).0 ≡ ok t
        → q.get_or_create_conversation (record { user_a = sender; user_b = to }) t ≡ (ok conv, t₁)
        → let (r, w') = store_message B q conv sender to body t₁ w in Atomic sender to body w r w'
    unfolding store_message
    store_message_lem conv sender to body t t₁ w b c =
        let call = q.create_message (message_params conv.id sender body) t₁ in
        elim (Result-cases call.0) [
          | inl (e, p) ↦
              rw (p, store_message) (λ i. record w { db = L.rollback_keeps call.1 w.db i })
          | inr (msg, p) ↦
              rw (p, store_message)
                (commit_sent_lem conv msg sender to body t t₁ call.1 w b c (λ i. (p i, call.1)))
        ]

    send_in_lem :
        (sender to : ℤ) (body : String) (t : T) (w : World D)
        → (B.begin w.db).0 ≡ ok t
        → let (r, w') = send_in B q sender to body t w in Atomic sender to body w r w'
    unfolding send_in
    send_in_lem sender to body t w b =
        let call = q.get_or_create_conversation (record { user_a = sender; user_b = to }) t in
        elim (Result-cases call.0) [
          | inl (e, p) ↦ rw (p, send_in) (λ i. record w { db = L.rollback_keeps call.1 w.db i })
          | inr (conv, p) ↦
              rw (p, send_in)
                (store_message_lem conv sender to body t call.1 w b (λ i. (p i, call.1)))
        ]

    -- Where the database keeps what pgx documents of transactions: sending a direct message finds
    -- or makes the conversation and stores the message in one committed transaction, then publishes
    -- that the conversation is new, if it is, and the message with its stored number, in this
    -- order; or it fails, and neither the database nor the events change.
    pub send_direct_message-Atomic :
        (sender to : ℤ) (body : String) (w : World D)
        → let (r, w') = send_direct_message B q sender to body w in Atomic sender to body w r w'
    unfolding send_direct_message
    send_direct_message-Atomic sender to body w =
        let d = (B.begin w.db).1 in
        elim (Result-cases (B.begin w.db).0) [
          | inl (e, p) ↦
              let same = L.begin_fails w.db d e (λ i. (p i, d)) in
              rw (p, send_direct_message) (λ i. record w { db = same i })
          | inr (t, p) ↦
              rw (p, send_direct_message, L.begin_keeps w.db d t (λ i. (p i, d)))
                (send_in_lem sender to body t w p)
        ]
