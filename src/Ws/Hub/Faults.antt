-- ===== src/Ws/Hub/Faults.antt =====
-- Two ways in which cmd/server/internal/ws/hub.go ends the process, each from any well-formed hub.
use chattui.Common.{
  ℕ, ℤ, true, false, none, some, ◌≡◌, ◌∙◌, ap, List, [], ◌∷◌, arith, int_key, nat_key, int_eq_iff,
  has, lookup, subst, contains, Unique, Distinct, is_positive,
}
use chattui.Ws.Message.{Message}
use chattui.Ws.Presence.{present, present-enter_rooms}
use chattui.Ws.Hub.{
  Hub, Client, panic, close_of_closed, nil_client, BroadcastMsg, register, unregister, broadcast,
  broadcast_message, unregister_client, register_client, step, run, each, send_to_member,
}
use chattui.Ws.Hub.Invariant.{Inv}
use chattui.Ws.Hub.Removal.{removed, unregister_client-eq_removed, lookup-removed, present-removed}
use chattui.Ws.Hub.Broadcast.Offer.{fits, received}
use chattui.Ws.Hub.Broadcast.Loop.{Reached}
use chattui.Ws.Hub.Broadcast.Rounds.{online}
use chattui.Ws.Hub.Safety.{broadcast_room_delivers}

unregister_closed :
    (p : ℕ) (h : Hub)
    → (h.heap p).send.closed ≡ true
    → unregister_client p h ≡ panic close_of_closed
unfolding unregister_client
unregister_closed p h e = rw e

received_closed : (m : Message) (c : Client) → fits c ≡ false → (received m c).send.closed ≡ true
unfolding received
received_closed m c e = rw e

-- A member of the room whose channel is full is kicked by a broadcast, which closes the channel.
-- When the read loop of that connection then ends and unregisters it, the channel is closed a
-- second time, and the process panics.
pub kicked_member_panics_at_unregister :
    (b : BroadcastMsg) (order : List ℤ) (h : Hub)
    → Inv h
    → is_positive b.target_room_id ≡ true
    → Unique order
    → ((u : ℤ) → online b.target_room_id u h ≡ true → contains u order ≡ true)
    → (u : ℤ) (p : ℕ) → lookup u h.clients ≡ some p
    → online b.target_room_id u h ≡ true
    → fits (h.heap p) ≡ false
    → run (broadcast b order ∷ unregister p ∷ []) h ≡ panic close_of_closed
unfolding run step
kicked_member_panics_at_unregister b order h v t once covers u p reg member full =
    let (h', e, reached) = broadcast_room_delivers b order h v t once covers u p reg in
    let kicked : Reached true b.msg u p h h' =
      subst (λ x. Reached x b.msg u p h h') member reached in
    rw (e, run)
      (rw (
        unregister_closed p h'
            (ap (λ (c : Client). c.send.closed) kicked.0 ∙ received_closed b.msg (h.heap p) full),
        run,
      ))

-- The next two: after the connection `q` of a user replaced `p` and `p` was removed.
replaced_gone :
    (p q : ℕ) (u : ℤ) (h : Hub)
    → (h.heap p).user_id ≡ u
    → lookup u (removed p (register_client q h)).clients ≡ none
unfolding register_client
replaced_gone p q u h mine =
    ground (arith, lookup-removed p (register_client q h) u, int_eq_iff (h.heap p).user_id u)

replaced_stays :
    (p q : ℕ) (r u : ℤ) (h : Hub)
    → (h.heap q).user_id ≡ u
    → Distinct (h.heap q).room_ids
    → lookup r (h.heap q).room_ids ≡ some true
    → has r (h.heap p).room_ids ≡ false
    → present (removed p (register_client q h)).rooms r u ≡ some true
unfolding register_client
replaced_stays p q r u h mine d room unknown = ground (
  arith,
  present-removed p (register_client q h) r u,
  present-enter_rooms (h.heap q).user_id (h.heap q).room_ids h.rooms r u d,
  int_eq_iff (h.heap q).user_id u,
)

nil_client_panics :
    (b : BroadcastMsg) (order : List ℤ) (u : ℤ) (h : Hub)
    → is_positive b.target_room_id ≡ true
    → present h.rooms b.target_room_id u ≡ some true
    → lookup u h.clients ≡ none
    → broadcast_message b (u ∷ order) h ≡ panic nil_client
unfolding broadcast_message each send_to_member
nil_client_panics b order u h t stays gone =
    rw t (rw (stays, send_to_member) (rw (gone, send_to_member)))

-- A user who is connected by `p` connects once more by `q`, and `q` knows of a room that `p` does
-- not. When `p` disconnects, the user is taken out of the map of clients and stays in the room, and
-- a broadcast to the room that meets the user first dereferences a nil client.
pub second_connection_panics :
    (b : BroadcastMsg) (order : List ℤ) (h : Hub) (p q : ℕ) (u : ℤ)
    → Inv h
    → lookup u h.clients ≡ some p
    → (h.heap q).user_id ≡ u
    → Distinct (h.heap q).room_ids
    → is_positive b.target_room_id ≡ true
    → lookup b.target_room_id (h.heap q).room_ids ≡ some true
    → has b.target_room_id (h.heap p).room_ids ≡ false
    → run (register q ∷ unregister p ∷ broadcast b (u ∷ order) ∷ []) h ≡ panic nil_client
unfolding run step
second_connection_panics b order h p q u v reg mine d t room unknown =
    rw
      (
        unregister_client-eq_removed p (register_client q h)
            (unfold register_client in v.live u p reg),
        run,
      )
      (rw (
        nil_client_panics b order u (removed p (register_client q h)) t
            (replaced_stays p q b.target_room_id u h mine d room unknown)
            (replaced_gone p q u h (v.owner u p reg)),
        run,
      ))
