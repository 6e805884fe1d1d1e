-- ===== src/World.antt =====
-- What the services of cmd/server/internal change: the database, and the event bus, of which a
-- service sees that its events are accepted.
use chattui.Common.{List, [], ◌∷◌, ◌++◌}
use chattui.Event.{Event}

pub record World (D : Type 0) : Type 0 where
  pub db : D
  pub events : List Event  -- published, oldest first

module _ {D : Type 0} where
  abbrev pub publish : Event → World D → World D
  publish e w = record w { events = w.events ++ e ∷ [] }

  abbrev pub publish_all : List Event → World D → World D
  publish_all [] w = w
  publish_all (e ∷ es) w = publish_all es (publish e w)
