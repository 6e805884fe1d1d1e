-- ===== src/Client/Connection.antt =====
-- cmd/client/internal/ws/client.go: the loops of the client's connection. A loop is run on the list
-- of what its calls of the websocket library return; messages for the program are those of
-- Client/Tea.antt. Durations are in seconds.
pub mod Writing
pub mod Backoff
mod Tests
use chattui.Common.{
  ℤ, ℕ, suc, ◌+◌, ◌*◌, String, Bool, true, false, Option, none, some, List, [], ◌∷◌, ◌++◌, length,
  if◌then◌else◌, ltb,
}
use chattui.Ws.Message.{Json, Message}
use chattui.Client.Tea.{Msg, incoming, ws_error, reconnecting, connected}

-- What conn.Read returns: data, or an error, with whether the loops' context is done by then.
pub data Read : Type 0 where
  data_read : Json → Read
  read_fails : String → Bool → Read

-- What json.Marshal and conn.Write do with a message of the channel.
pub data Write : Type 0 where
  written : Write
  marshal_fails : Write
  write_fails : String → Bool → Write

abbrev pub told_error : String → Bool → List Msg
told_error e true = []
told_error e false = ws_error e ∷ []

module _ (unmarshal : Json → Option Message) where
  abbrev pub told_data : Option Message → List Msg
  told_data none = []
  told_data (some m) = incoming m ∷ []

  -- What the read loop sends to the program.
  unfoldable pub read_loop : List Read → List Msg
  read_loop [] = []
  read_loop (data_read d ∷ rs) = told_data (unmarshal d) ++ read_loop rs
  read_loop (read_fails e done ∷ rs) = told_error e done

-- The channel sendCh and the wire.
pub record Outbox : Type 0 where
  pub queue : List Message
  pub wire : List Message
  pub lost : List Message
  pub told : List Msg

abbrev pub send_capacity : ℕ
send_capacity = 64

-- `Send` at the time `now`, which waits while the channel is full: none.
unfoldable pub send : ℤ → Message → Outbox → Option Outbox
send now m o =
    if ltb (length o.queue) send_capacity
    then some (record o { queue = o.queue ++ record m { timestamp = now } ∷ [] })
    else none

-- One round of the write loop, and whether it goes on: it waits where the channel is empty, and ends
-- at a failed write.
unfoldable pub write_one : Write → List Message → Outbox → Outbox × Bool
write_one w [] o = (o, false)
write_one written (m ∷ q) o = (record o { queue = q; wire = o.wire ++ m ∷ [] }, true)
write_one marshal_fails (m ∷ q) o = (record o { queue = q; lost = o.lost ++ m ∷ [] }, true)
write_one (write_fails e done) (m ∷ q) o =
    (record o { queue = q; lost = o.lost ++ m ∷ []; told = o.told ++ told_error e done }, false)

unfoldable pub write_loop : List Write → Outbox → Outbox
unfolding write_one
write_loop [] o = o
write_loop (w ∷ ws) o =
    let (next, goes_on) = write_one w o.queue o in
    let rest = write_loop ws next in if goes_on then rest else next

-- What websocket.Dial returns in runLoopsWithRetry.
pub data Dial : Type 0 where
  dialed refused : Dial

-- runLoopsWithRetry: the wait before the next dial, the waits so far, and the messages sent.
pub record Link : Type 0 where
  pub backoff : ℕ
  pub waits : List ℕ
  pub told : List Msg

abbrev pub max_backoff_secs : ℕ
max_backoff_secs = 600

abbrev pub min : ℕ → ℕ → ℕ
min a b = if ltb a b then a else b

abbrev pub after_dial : Dial → List Msg
after_dial dialed = connected ∷ []
after_dial refused = []

-- One round of the loop: the loops of the connection end, having sent `loops`, and a dial follows.
unfoldable pub round : List Msg → Dial → Link → Link
round loops d l = record {
  backoff = min (l.backoff * 2) max_backoff_secs;
  waits = l.waits ++ l.backoff ∷ [];
  told = l.told ++ (loops ++ reconnecting ∷ after_dial d);
}

unfoldable pub rounds : List (List Msg × Dial) → Link → Link
unfolding round
rounds [] l = l
rounds ((loops, d) ∷ rs) l = rounds rs (round loops d l)

abbrev pub first_link : Link
first_link = record { backoff = 1; waits = []; told = [] }
