-- ===== src/Ws/Dispatch/Direct.antt =====
-- `dispatchDirectMessage` of cmd/server/internal/ws/client.go: what stands behind a broadcast.
use chattui.Common.{
  false, some, Option-cases, Bool-cases, [], ◌∷◌, int_key, string_key, pos, ◌≡◌, refl, ◌≢◌, ap,
  arith, int_eq_iff, inl, inr, ◌∙◌,
}
use text.Mathlib.TextEquality.{eq_iff}
use chattui.Errs.{Result, ok, err}
use chattui.Store.Models
use chattui.Ws.Message.{Json, Message, DirectMessagePayload}
use chattui.Ws.Hub.{Client, BroadcastMsg}
use chattui.Ws.Dispatch.{
  Codec, Senders, nothing, broadcasts, refuses_direct, complete_direct, direct_broadcast,
  after_direct_sent, dispatch_direct_message,
}

-- What a client must have sent for its room message to be accepted.
pub record IsAccepted (p : DirectMessagePayload) : Type 0 where
  pub to : p.to_user_id ≢ pos 0
  pub text : p.content ≢ ""

refuses_direct-IsAccepted : (p : DirectMessagePayload) → refuses_direct p ≡ false → IsAccepted p
refuses_direct-IsAccepted p e = record {
  to = ground (arith, int_eq_iff p.to_user_id (pos 0));
  text = ground (arith, eq_iff p.content "");
}

-- What a broadcast says when its payload is read again: the sender is the connection's own user,
-- and the number that of the stored message.
pub record IsAuthentic (J : Codec) (c : Client) (p : DirectMessagePayload) (m : Models.Message)
    (b : BroadcastMsg) : Type 0 where
  pub no_room : b.target_room_id ≡ pos 0
  pub targets : b.target_user_ids ≡ c.user_id ∷ p.to_user_id ∷ []
  pub read : J.unmarshal_direct b.msg.payload ≡ some (complete_direct c p m)

module _ (J : Codec) where
  after_direct_sent-broadcasts :
      (c : Client) (msg : Message) (p : DirectMessagePayload) (r : Result Models.Message)
      (b : BroadcastMsg)
      → after_direct_sent J c msg p r ≡ broadcasts b
      → (m : Models.Message) × (j : Json) × (r ≡ ok m)
        × (J.marshal_direct (complete_direct c p m) ≡ some j)
        × (b ≡ direct_broadcast c msg p j)
  unfolding after_direct_sent
  after_direct_sent-broadcasts c msg p (err e) b h = cc
  after_direct_sent-broadcasts c msg p (ok m) b h =
      elim (Option-cases (J.marshal_direct (complete_direct c p m))) [
        | inl none_ ↦ absurd (ground arith)
        | inr (j, e) ↦ (m, j, refl, e, ground arith)
      ]

module _ (J : Codec) {S : Type 0} (V : Senders S) where
  dispatch_direct_message-broadcasts :
      (c : Client) (msg : Message) (s s' : S) (b : BroadcastMsg)
      → dispatch_direct_message J V c msg s ≡ (broadcasts b, s')
      → (p : DirectMessagePayload) × (J.unmarshal_direct msg.payload ≡ some p)
        × (refuses_direct p ≡ false)
        × (let (r, z) = V.send_direct_message c.user_id p.to_user_id p.content s in
            (after_direct_sent J c msg p r ≡ broadcasts b) × (z ≡ s'))
  unfolding dispatch_direct_message
  dispatch_direct_message-broadcasts c msg s s' b h =
      elim (Option-cases (J.unmarshal_direct msg.payload)) [
        | inl e ↦ absurd (ground arith)
        | inr (p, e) ↦ elim (Bool-cases (refuses_direct p)) [
          | inl t ↦ absurd (ground arith)
          | inr f ↦ (p, e, f, (ground arith))
        ]
      ]

  -- A direct message that a client hands to the hub was stored first, with the same addressee and
  -- text and with the connection's own user as its sender; the addressee is not 0, and the text is
  -- not empty. It goes to the sender and the addressee. Whoever reads the broadcast's payload, where
  -- JSON reads back what it wrote, finds this sender and the stored message's number, whatever the
  -- client sent for them.
  pub direct_broadcast_is_stored :
      ((q : DirectMessagePayload) (j : Json)
        → J.marshal_direct q ≡ some j
        → J.unmarshal_direct j ≡ some q)
      → (c : Client) (msg : Message) (s s' : S) (b : BroadcastMsg)
      → dispatch_direct_message J V c msg s ≡ (broadcasts b, s')
      → (p : DirectMessagePayload) × (m : Models.Message) × (J.unmarshal_direct msg.payload
          ≡ some p)
        × IsAccepted p
        × (V.send_direct_message c.user_id p.to_user_id p.content s ≡ (ok m, s'))
        × IsAuthentic J c p m b
  direct_broadcast_is_stored back c msg s s' b h =
      let (p, e, f, sent) = dispatch_direct_message-broadcasts c msg s s' b h in
      let (m, j, r, w, same) =
        after_direct_sent-broadcasts J c msg p
          (V.send_direct_message c.user_id p.to_user_id p.content s).0 b sent.0 in
      (
        p,
        m,
        e,
        refuses_direct-IsAccepted p f,
        ground arith,
        record {
          no_room = ap (λ (x : BroadcastMsg). x.target_room_id) same;
          targets = ap (λ (x : BroadcastMsg). x.target_user_ids) same;
          read = ap (λ (x : BroadcastMsg). J.unmarshal_direct x.msg.payload) same ∙ back _ j w;
        },
      )

  -- A direct message that does not parse, that names addressee 0 or that has no text reaches
  -- neither the service nor the hub.
  pub refused_direct_message_is_dropped :
      (c : Client) (msg : Message) (s : S)
      → ((p : DirectMessagePayload) → J.unmarshal_direct msg.payload ≡ some p → ¬ IsAccepted p)
      → dispatch_direct_message J V c msg s ≡ (nothing, s)
  unfolding dispatch_direct_message
  refused_direct_message_is_dropped c msg s bad =
      elim (Option-cases (J.unmarshal_direct msg.payload)) [
        | inl e ↦ rw (e, dispatch_direct_message)
        | inr (p, e) ↦ elim (Bool-cases (refuses_direct p)) [
          | inl t ↦ rw (e, dispatch_direct_message) (rw t)
          | inr f ↦ absurd (bad p e (refuses_direct-IsAccepted p f))
        ]
      ]
