-- ===== src/Ws/Dispatch/Room.antt =====
-- `dispatchRoomMessage` of cmd/server/internal/ws/client.go: what stands behind a broadcast.
use chattui.Common.{
  true, false, some, Option-cases, Bool-cases, int_key, string_key, pos, has, ◌≡◌, refl, ◌≢◌, ap,
  arith, int_eq_iff, inl, inr, ◌∙◌,
}
use text.Mathlib.TextEquality.{eq_iff}
use chattui.Errs.{Result, ok, err}
use chattui.Store.Models
use chattui.Ws.Message.{Json, Message, RoomMessagePayload}
use chattui.Ws.Hub.{Client, BroadcastMsg}
use chattui.Ws.Dispatch.{
  Codec, Senders, nothing, broadcasts, refuses_room, complete_room, room_broadcast, after_room_sent,
  dispatch_room_message,
}

-- What a client must have sent for its room message to be accepted.
pub record IsAccepted (c : Client) (p : RoomMessagePayload) : Type 0 where
  pub room : p.room_id ≢ pos 0
  pub text : p.content ≢ ""
  pub member : has p.room_id c.room_ids ≡ true

refuses_room-IsAccepted :
    (c : Client) (p : RoomMessagePayload) → refuses_room c p ≡ false → IsAccepted c p
refuses_room-IsAccepted c p e = record {
  room = ground (arith, int_eq_iff p.room_id (pos 0));
  text = ground (arith, eq_iff p.content "");
  member = ground arith;
}

-- What a broadcast says when its payload is read again: the sender is the connection's own user,
-- and the number that of the stored message.
pub record IsAuthentic (J : Codec) (c : Client) (p : RoomMessagePayload) (m : Models.Message)
    (b : BroadcastMsg) : Type 0 where
  pub target : b.target_room_id ≡ p.room_id
  pub read : J.unmarshal_room b.msg.payload ≡ some (complete_room c p m)

module _ (J : Codec) where
  after_room_sent-broadcasts :
      (c : Client) (msg : Message) (p : RoomMessagePayload) (r : Result Models.Message)
      (b : BroadcastMsg)
      → after_room_sent J c msg p r ≡ broadcasts b
      → (m : Models.Message) × (j : Json) × (r ≡ ok m)
        × (J.marshal_room (complete_room c p m) ≡ some j)
        × (b ≡ room_broadcast msg p j)
  unfolding after_room_sent
  after_room_sent-broadcasts c msg p (err e) b h = cc
  after_room_sent-broadcasts c msg p (ok m) b h =
      elim (Option-cases (J.marshal_room (complete_room c p m))) [
        | inl none_ ↦ absurd (ground arith)
        | inr (j, e) ↦ (m, j, refl, e, ground arith)
      ]

module _ (J : Codec) {S : Type 0} (V : Senders S) where
  dispatch_room_message-broadcasts :
      (c : Client) (msg : Message) (s s' : S) (b : BroadcastMsg)
      → dispatch_room_message J V c msg s ≡ (broadcasts b, s')
      → (p : RoomMessagePayload) × (J.unmarshal_room msg.payload ≡ some p)
        × (refuses_room c p ≡ false)
        × (let (r, z) = V.send_room_message p.room_id c.user_id p.content s in
            (after_room_sent J c msg p r ≡ broadcasts b) × (z ≡ s'))
  unfolding dispatch_room_message
  dispatch_room_message-broadcasts c msg s s' b h =
      elim (Option-cases (J.unmarshal_room msg.payload)) [
        | inl e ↦ absurd (ground arith)
        | inr (p, e) ↦ elim (Bool-cases (refuses_room c p)) [
          | inl t ↦ absurd (ground arith)
          | inr f ↦ (p, e, f, (ground arith))
        ]
      ]

  -- A room message that a client hands to the hub was stored first, with the same room and text and
  -- with the connection's own user as its sender; the client is a member of the room, which is not
  -- 0, and the text is not empty. Whoever reads the broadcast's payload, where JSON reads back what
  -- it wrote, finds this sender and the stored message's number, whatever the client sent for them.
  pub room_broadcast_is_stored :
      ((q : RoomMessagePayload) (j : Json)
        → J.marshal_room q ≡ some j
        → J.unmarshal_room j ≡ some q)
      → (c : Client) (msg : Message) (s s' : S) (b : BroadcastMsg)
      → dispatch_room_message J V c msg s ≡ (broadcasts b, s')
      → (p : RoomMessagePayload) × (m : Models.Message) × (J.unmarshal_room msg.payload ≡ some p)
        × IsAccepted c p
        × (V.send_room_message p.room_id c.user_id p.content s ≡ (ok m, s'))
        × IsAuthentic J c p m b
  room_broadcast_is_stored back c msg s s' b h =
      let (p, e, f, sent) = dispatch_room_message-broadcasts c msg s s' b h in
      let (m, j, r, w, same) =
        after_room_sent-broadcasts J c msg p (V.send_room_message p.room_id c.user_id p.content s).0
          b sent.0 in
      (
        p,
        m,
        e,
        refuses_room-IsAccepted c p f,
        ground arith,
        record {
          target = ap (λ (x : BroadcastMsg). x.target_room_id) same;
          read = ap (λ (x : BroadcastMsg). J.unmarshal_room x.msg.payload) same ∙ back _ j w;
        },
      )

  -- A room message that does not parse, that names room 0, that has no text, or whose room the
  -- client does not know of reaches neither the service nor the hub.
  pub refused_room_message_is_dropped :
      (c : Client) (msg : Message) (s : S)
      → ((p : RoomMessagePayload) → J.unmarshal_room msg.payload ≡ some p → ¬ IsAccepted c p)
      → dispatch_room_message J V c msg s ≡ (nothing, s)
  unfolding dispatch_room_message
  refused_room_message_is_dropped c msg s bad = elim (Option-cases (J.unmarshal_room msg.payload)) [
    | inl e ↦ rw (e, dispatch_room_message)
    | inr (p, e) ↦ elim (Bool-cases (refuses_room c p)) [
      | inl t ↦ rw (e, dispatch_room_message) (rw t)
      | inr f ↦ absurd (bad p e (refuses_room-IsAccepted c p f))
    ]
  ]
