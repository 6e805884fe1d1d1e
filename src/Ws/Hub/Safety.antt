-- ===== src/Ws/Hub/Safety.antt =====
-- The hub's loop of cmd/server/internal/ws/hub.go over any sequence of messages.
use chattui.Common.{
  ℕ, ℤ, Bool, true, false, none, some, ◌≡◌, refl, List, [], ◌∷◌, arith, ◌&&◌, int_key, nat_key,
  nat_eq_iff, inl, inr, lookup, Bool-cases, subst, contains, Unique, Distinct, is_positive,
}
use chattui.Ws.Message.{Message}
use chattui.Ws.Hub.{
  Hub, Client, Outcome, ok, panic, BroadcastMsg, Action, register, unregister, presence, broadcast,
  drain, broadcast_message, register_client, update_user_presence_in_room, drain_one, step, run,
  each, send_to_member, send_to_user, new_hub,
}
use chattui.Ws.Hub.Invariant.{Inv, buffers-Inv, new_hub-Inv}
use chattui.Ws.Hub.Removal.{unregister_client-Inv}
use chattui.Ws.Hub.Registration.{register_client-Inv}
use chattui.Ws.Hub.Membership.{update_user_presence_in_room-Inv}
use chattui.Ws.Hub.Broadcast.Loop.{
  Reached, Round, after_all, each-runs, after_all-Inv, each-Reached,
}
use chattui.Ws.Hub.Broadcast.Rounds.{online, member-Round, user-Round}

-- It went well, with a hub of which `P` holds.
abbrev pub Succeeds {ℓ} : (Hub → Type ℓ) → Outcome Hub → Type ℓ
Succeeds P o = (h : Hub) × (o ≡ ok h) × P h

each-Succeeds :
    {m : Message} {target : ℤ → Hub → Bool} {body : ℤ → Hub → Outcome Hub} (R : Round m target body)
    (us : List ℤ) (h : Hub)
    → Inv h
    → Succeeds Inv (each body us h)
each-Succeeds R us h v = (after_all R us h, each-runs R us h v, after_all-Inv R us h v)

-- A broadcast never panics, whatever the order in which the members are met.
pub broadcast_message-Inv :
    (b : BroadcastMsg) (order : List ℤ) (h : Hub)
    → Inv h
    → Succeeds Inv (broadcast_message b order h)
unfolding broadcast_message
broadcast_message-Inv b order h v = elim (Bool-cases (is_positive b.target_room_id)) [
  | inl t ↦ rw t (each-Succeeds (member-Round b.target_room_id b.msg) order h v)
  | inr f ↦ rw f (each-Succeeds (user-Round b.msg) b.target_user_ids h v)
]

drain_one-Inv : (p : ℕ) (h : Hub) → Inv h → Inv (drain_one p h)
unfolding drain_one
drain_one-Inv p h v = buffers-Inv h (drain_one p h).heap same v
  where
    same :
        (q : ℕ)
        → (((drain_one p h).heap q).user_id ≡ (h.heap q).user_id)
          × (((drain_one p h).heap q).send.closed ≡ (h.heap q).send.closed)
          × (((drain_one p h).heap q).room_ids ≡ (h.heap q).room_ids)
    same q = (
      ground (arith, nat_eq_iff p q),
      ground (arith, nat_eq_iff p q),
      ground (arith, nat_eq_iff p q),
    )

-- What the hub needs of its callers: a user connects with no other connection of theirs in the
-- hub, and a connection that ends is the one in the hub.
abbrev pub Allowed : Action → Hub → Type 0
Allowed (register p) h =
    Distinct (h.heap p).room_ids
    × (lookup (h.heap p).user_id h.clients ≡ none)
    × ((h.heap p).send.closed ≡ false)
Allowed (unregister p) h = lookup (h.heap p).user_id h.clients ≡ some p
Allowed (presence u) h = Unit {0}
Allowed (broadcast b order) h = Unit {0}
Allowed (drain p) h = Unit {0}

pub step-Inv : (a : Action) (h : Hub) → Inv h → Allowed a h → Succeeds Inv (step a h)
unfolding step
step-Inv (register p) h v w = (register_client p h, refl, register_client-Inv p h v w.0 w.1 w.2)
step-Inv (unregister p) h v w = unregister_client-Inv p h v w
step-Inv (presence u) h v w =
    (update_user_presence_in_room u h, refl, update_user_presence_in_room-Inv u h v)
step-Inv (broadcast b order) h v w = broadcast_message-Inv b order h v
step-Inv (drain p) h v w = (drain_one p h, refl, drain_one-Inv p h v)

-- `P` holds of the hub that a step leaves, if it leaves one.
abbrev pub IfOk : (Hub → Type 0) → Outcome Hub → Type 0
IfOk P (ok h) = P h
IfOk P (panic e) = Unit {0}

-- Each action is allowed in the hub that it meets.
abbrev pub AllAllowed : List Action → Hub → Type 0
AllAllowed [] h = Unit {0}
AllAllowed (a ∷ acts) h = Allowed a h × IfOk (AllAllowed acts) (step a h)

pub run-Inv : (acts : List Action) (h : Hub) → Inv h → AllAllowed acts h → Succeeds Inv (run acts h)
unfolding run
run-Inv [] h v w = (h, refl, v)
run-Inv (a ∷ acts) h v w =
    let (h', e, v') = step-Inv a h v w.0 in
    let (z, e', vz) = run-Inv acts h' v' (subst (IfOk (AllAllowed acts)) e w.1) in
    (z, rw (e, run) e', vz)

-- From an empty hub, any sequence of connects, disconnects, joins, leaves, broadcasts and receives
-- runs to its end without a panic, and keeps the invariant, provided that a user connects only
-- while no connection of theirs is in the hub, and that only connections in the hub disconnect.
pub run_never_panics :
    (acts : List Action) (heap : ℕ → Client)
    → AllAllowed acts (new_hub heap)
    → Succeeds Inv (run acts (new_hub heap))
run_never_panics acts heap = run-Inv acts (new_hub heap) (new_hub-Inv heap)

-- A room message goes to every connection whose user is online in the room and to no other: it is
-- put last in the channel, or, where the channel is full, the connection is dropped and its channel
-- closed. Every other connection is left as it was. The order is any that has each member once.
pub broadcast_room_delivers :
    (b : BroadcastMsg) (order : List ℤ) (h : Hub)
    → Inv h
    → is_positive b.target_room_id ≡ true
    → Unique order
    → ((u : ℤ) → online b.target_room_id u h ≡ true → contains u order ≡ true)
    → (u : ℤ) (p : ℕ) → lookup u h.clients ≡ some p
    → Succeeds (Reached (online b.target_room_id u h) b.msg u p h) (broadcast_message b order h)
unfolding broadcast_message
broadcast_room_delivers b order h v t once covers u p reg = rw t (
  after_all R order h,
  each-runs R order h v,
  subst (λ x. Reached x b.msg u p h (after_all R order h)) (meant u)
      (each-Reached R order h u p v once reg),
)
  where
    R : Round b.msg (online b.target_room_id) (send_to_member b.target_room_id b.msg)
    R = member-Round b.target_room_id b.msg

    meant :
        (u : ℤ) → (contains u order && online b.target_room_id u h) ≡ online b.target_room_id u h
    meant u = elim (Bool-cases (online b.target_room_id u h)) [
      | inl e ↦ rw (e, covers u e)
      | inr e ↦ rw e (ground arith)
    ]

-- A direct message goes to every connection of a user on its list and to no other, in the same
-- way. No user stands twice on the list.
pub broadcast_users_delivers :
    (b : BroadcastMsg) (order : List ℤ) (h : Hub)
    → Inv h
    → is_positive b.target_room_id ≡ false
    → Unique b.target_user_ids
    → (u : ℤ) (p : ℕ) → lookup u h.clients ≡ some p
    → Succeeds (Reached (contains u b.target_user_ids) b.msg u p h) (broadcast_message b order h)
unfolding broadcast_message
broadcast_users_delivers b order h v f once u p reg = rw f (
  after_all R b.target_user_ids h,
  each-runs R b.target_user_ids h v,
  subst (λ x. Reached x b.msg u p h (after_all R b.target_user_ids h))
      (and_true (contains u b.target_user_ids)) (each-Reached R b.target_user_ids h u p v once reg),
)
  where
    R : Round b.msg (λ u h'. true) (send_to_user b.msg)
    R = user-Round b.msg

    and_true : (x : Bool) → (x && true) ≡ x
    and_true x = ground arith
