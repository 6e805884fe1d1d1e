-- ===== src/Bus.antt =====
-- cmd/server/internal/bus/bus.go: the in-process event bus. Handlers are values of `H`; a goroutine
-- that the bus starts is the pair of its handler and its event.
pub mod Delivery
mod Tests
use chattui.Common.{
  ℕ, suc, String, Bool, Option, none, some, List, [], ◌∷◌, ◌++◌, map, length, ltb, if◌then◌else◌,
  string_key, Map, lookup, insert,
}
use chattui.Event.{Event, kind}

-- const queueChanSize
abbrev pub queue_chan_size : ℕ
queue_chan_size = 512

pub record Bus (H : Type 0) : Type 0 where
  pub queue : List Event  -- oldest first
  pub handlers : Map String (List H)
  pub spawned : List (H × Event)  -- the goroutines started, oldest first

module _ {H : Type 0} where
  unfoldable pub new_bus : Bus H
  new_bus = record { queue = []; handlers = []; spawned = [] }

  -- `b.handlers[kind]`, where a missing key is the nil slice.
  unfoldable pub handlers_of : String → Map String (List H) → List H
  handlers_of k hs = elim (lookup k hs) [ none ↦ [] | some l ↦ l ]

  unfoldable pub subscribe : String → H → Bus H → Bus H
  unfolding handlers_of
  subscribe k fn b = record b {
    handlers = insert k (handlers_of k b.handlers ++ fn ∷ []) b.handlers;
  }

  -- `none` while the channel is full: the publisher waits.
  unfoldable pub publish : Event → Bus H → Option (Bus H)
  publish e b =
      if ltb (length b.queue) queue_chan_size
      then some (record b { queue = b.queue ++ e ∷ [] })
      else none

  -- The goroutines that one event starts.
  unfoldable pub fan_out : Map String (List H) → Event → List (H × Event)
  unfolding handlers_of
  fan_out hs e = map (λ h. (h, e)) (handlers_of (kind e) hs)

  -- One round of `dispatch`; `none` while the channel is empty.
  unfoldable pub dispatch_next : List Event → Bus H → Option (Bus H)
  unfolding fan_out
  dispatch_next [] b = none
  dispatch_next (e ∷ rest) b =
      some (record b { queue = rest; spawned = b.spawned ++ fan_out b.handlers e })

  unfoldable pub dispatch : Bus H → Option (Bus H)
  unfolding dispatch_next
  dispatch b = dispatch_next b.queue b

pub data Action : Type 0 where
  publishes : Event → Action
  dispatches : Action

module _ {H : Type 0} where
  unfoldable pub step : Action → Bus H → Option (Bus H)
  step (publishes e) b = publish e b
  step dispatches b = dispatch b

  -- Publishers and the dispatch loop in any order; `none` where one of them would have to wait.
  unfoldable pub run : List Action → Bus H → Option (Bus H)
  run [] b = some b
  run (a ∷ acts) b = elim (step a b) [ none ↦ none | some b' ↦ run acts b' ]
