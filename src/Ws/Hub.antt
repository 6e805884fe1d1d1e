-- ===== src/Ws/Hub.antt =====
-- cmd/server/internal/ws/hub.go: the hub's state, and what its loop does with each message that it
-- takes from its channels. A `*Client` is a number, and `heap` holds the object that it points to:
-- the hub and the client's own goroutines share the object, its `roomIDs` map and its channel.
pub mod Invariant
pub mod Removal
pub mod Registration
pub mod Membership
pub mod Broadcast
pub mod Safety
pub mod Faults
mod Tests
use chattui.Common.{
  ℕ, suc, ℤ, String, Bool, true, false, Option, none, some, List, [], ◌∷◌, ◌++◌, length, ltb,
  if◌then◌else◌, ◌==◌, int_key, nat_key, is_positive, Map, lookup, insert, delete,
}
use chattui.Ws.Message.{Message}
use chattui.Ws.Presence.{Rooms, present, enter_room, leave_room, enter_rooms, leave_rooms}

-- A buffered Go channel of messages: what was sent and not yet received, oldest first.
pub record Chan : Type 0 where
  pub buffer : List Message
  pub closed : Bool

pub record Client : Type 0 where
  pub user_id : ℤ
  pub username : String
  pub room_ids : Map ℤ Bool
  pub send : Chan

pub record Hub : Type 0 where
  pub clients : Map ℤ ℕ  -- userID → client
  pub rooms : Rooms
  pub heap : ℕ → Client

pub record UserRoomPresent : Type 0 where
  pub user_id : ℤ
  pub room_id : ℤ
  pub present : Bool

pub record BroadcastMsg : Type 0 where
  pub msg : Message
  pub target_room_id : ℤ
  pub target_user_ids : List ℤ

-- The run-time panics that the hub's code can meet; each ends the process.
pub data Panic : Type 0 where
  nil_client close_of_closed send_on_closed : Panic

pub data Outcome {ℓ} (A : Type ℓ) : Type ℓ where
  ok : A → Outcome A
  panic : Panic → Outcome A

infixl 5 ◌>>=◌
abbrev pub ◌>>=◌ {ℓ κ} : {A : Type ℓ} {B : Type κ} → Outcome A → (A → Outcome B) → Outcome B
ok a >>= f = f a
panic e >>= f = panic e

-- `make(chan Message, 256)`
abbrev pub send_capacity : ℕ
send_capacity = 256

unfoldable pub update : (ℕ → Client) → ℕ → Client → ℕ → Client
update heap p c q = if p == q then c else heap q

-- `close(ch)`
unfoldable pub close : Chan → Outcome Chan
close ch = if ch.closed then panic close_of_closed else ok (record ch { closed = true })

unfoldable pub new_hub : (ℕ → Client) → Hub
new_hub heap = record { clients = []; rooms = []; heap = heap }

unfoldable pub register_client : ℕ → Hub → Hub
register_client p h =
    let c = h.heap p in
    record h {
      rooms = enter_rooms c.user_id c.room_ids h.rooms;
      clients = insert c.user_id p h.clients;
    }

-- The client out of both maps.
unfoldable pub forget : ℕ → Hub → Hub
forget p h =
    let c = h.heap p in
    record h {
      rooms = leave_rooms c.user_id c.room_ids h.rooms;
      clients = delete c.user_id h.clients;
    }

unfoldable pub close_send : ℕ → Hub → Outcome Hub
unfolding update close
close_send p h = do
  ch ← close (h.heap p).send
  ok (record h { heap = update h.heap p (record (h.heap p) { send = ch }) })

-- Both leave the maps first.
unfoldable pub unregister_client : ℕ → Hub → Outcome Hub
unfolding forget close_send
unregister_client p h = close_send p (forget p h)

-- Here the channel is closed first.
unfoldable pub kick_client : ℕ → Hub → Outcome Hub
unfolding forget close_send
kick_client p h = do h' ← close_send p h; ok (forget p h')

unfoldable pub update_user_presence_in_room : UserRoomPresent → Hub → Hub
unfolding update
update_user_presence_in_room u h = elim (lookup u.user_id h.clients) [
  | none ↦ h
  | some p ↦
      let c = h.heap p in
      if u.present
      then (record h {
        rooms = enter_room u.user_id true u.room_id h.rooms;
        heap = update h.heap p (record c { room_ids = insert u.room_id true c.room_ids });
      })
      else (elim (lookup u.room_id h.rooms) [
        | none ↦ h
        | some members ↦ record h {
          rooms = leave_room u.user_id u.room_id h.rooms;
          heap = update h.heap p (record c { room_ids = delete u.room_id c.room_ids });
        }
      ])
]

-- `select { case c.send <- msg: default: h.kickClient(c) }`
unfoldable pub send_or_kick : Message → ℕ → Hub → Outcome Hub
unfolding update
send_or_kick m p h =
    let c = h.heap p in
    let ch = c.send in
    if ch.closed
    then panic send_on_closed
    else if ltb (length ch.buffer) send_capacity
    then ok (record h {
      heap = update h.heap p (record c { send = record ch { buffer = ch.buffer ++ m ∷ [] } });
    })
    else kick_client p h

-- One round of the loop over `h.rooms[room]`: an entry that was deleted before it was reached is
-- not produced, and a nil client is dereferenced.
unfoldable pub send_to_member : ℤ → Message → ℤ → Hub → Outcome Hub
send_to_member r m u h = elim (present h.rooms r u) [
  | none ↦ ok h
  | some b ↦
      if b
      then (elim (lookup u h.clients) [ none ↦ panic nil_client | some p ↦ send_or_kick m p h ])
      else ok h
]

unfoldable pub send_to_user : Message → ℤ → Hub → Outcome Hub
send_to_user m u h = elim (lookup u h.clients) [ none ↦ ok h | some p ↦ send_or_kick m p h ]

-- A loop that makes `body` of each element in turn.
unfoldable pub each : (ℤ → Hub → Outcome Hub) → List ℤ → Hub → Outcome Hub
each body [] h = ok h
each body (u ∷ us) h = body u h >>= each body us

-- `order` is the order in which the runtime ranges over the map of the room.
unfoldable pub broadcast_message : BroadcastMsg → List ℤ → Hub → Outcome Hub
broadcast_message b order h =
    if is_positive b.target_room_id
    then each (send_to_member b.target_room_id b.msg) order h
    else each (send_to_user b.msg) b.target_user_ids h

-- What reaches the hub's `select`, and what the clients' goroutines do beside it: `presence` also
-- stands for `dispatchUserRoomUpdate`, which calls the hub's method from the client's goroutine,
-- and `drain` for a receive by `WritePump`.
pub data Action : Type 0 where
  register : ℕ → Action
  unregister : ℕ → Action
  presence : UserRoomPresent → Action
  broadcast : BroadcastMsg → List ℤ → Action
  drain : ℕ → Action

abbrev drop_first : List Message → List Message
drop_first [] = []
drop_first (m ∷ ms) = ms

unfoldable pub drain_one : ℕ → Hub → Hub
unfolding update
drain_one p h =
    let c = h.heap p in
    record h {
      heap =
          update h.heap p
            (record c { send = record (c.send) { buffer = drop_first c.send.buffer } });
    }

unfoldable pub step : Action → Hub → Outcome Hub
step (register p) h = ok (register_client p h)
step (unregister p) h = unregister_client p h
step (presence u) h = ok (update_user_presence_in_room u h)
step (broadcast b order) h = broadcast_message b order h
step (drain p) h = ok (drain_one p h)

unfoldable pub run : List Action → Hub → Outcome Hub
run [] h = ok h
run (a ∷ acts) h = step a h >>= run acts
