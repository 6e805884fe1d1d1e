-- ===== src/Bus/Tests.antt =====
-- The theorems about cmd/server/internal/bus/bus.go at a bus with two handlers.
use chattui.Common.{
  ℕ, some, List, [], ◌∷◌, ◌++◌, length, replicate, string_key, lookup, insert, ◌≡◌, refl, ◌≤◌, pos,
  arith,
}
use chattui.Event.{Event, room_left, room_joined, kind}
use chattui.Bus.{
  Bus, queue_chan_size, new_bus, subscribe, publish, fan_out, dispatch, Action, publishes,
  dispatches, step, run,
}
use chattui.Bus.Delivery
use chattui.Bus.Delivery.{published, fan_out_all, run_delivers_once, dispatch_unblocks_publish}

abbrev left_room : Event
left_room = room_left (record { user_id = pos 1; room_id = pos 2 })

abbrev joined_room : Event
joined_room = room_joined (record { user_id = pos 1; room_id = pos 2 })

abbrev two_handlers : Bus ℕ
two_handlers = subscribe "room_leave" 8 (subscribe "room_leave" 7 new_bus)

abbrev history : List Action
history = publishes left_room ∷ publishes joined_room ∷ dispatches ∷ []

abbrev after_history : Bus ℕ
after_history = record two_handlers {
  queue = joined_room ∷ [];
  spawned = (7, left_room) ∷ (8, left_room) ∷ [];
}

run_delivers_once_example :
    (dispatched : List Event) × (left_room ∷ joined_room ∷ [] ≡ dispatched ++ joined_room ∷ [])
    × (after_history.spawned ≡ [] ++ fan_out_all two_handlers.handlers dispatched)
    × (1 ≤ queue_chan_size)
unfolding run step publish dispatch fan_out subscribe new_bus kind lookup insert
run_delivers_once_example = run_delivers_once history two_handlers after_history refl refl

abbrev full : Bus ℕ
full = record two_handlers { queue = replicate 512 left_room }

dispatch_unblocks_publish_example :
    (b' b'' : Bus ℕ) × (dispatch full ≡ some b')
    × (publish joined_room b' ≡ some b'')
    × (length full.queue ≡ queue_chan_size)
unfolding publish
dispatch_unblocks_publish_example = dispatch_unblocks_publish joined_room full (omega arith) refl

dispatch_drains_example :
    run (replicate 1 dispatches) after_history
    ≡ some (record after_history {
      queue = [];
      spawned = after_history.spawned ++ fan_out_all two_handlers.handlers (joined_room ∷ []);
    })
dispatch_drains_example = Delivery.dispatch_drains after_history
