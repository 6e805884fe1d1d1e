-- ===== src/Bus/Delivery.antt =====
-- What cmd/server/internal/bus/bus.go promises: each event once to each handler, in order.
use mathlib.Core.List.{append_assoc, append-nil}
use chattui.Common.{
  String, none, some, Option-cases, List, [], ◌∷◌, ◌++◌, length, length-append, string_key, Map,
  ◌≡◌, refl, sym, ◌∙◌, ap, ◌≤◌, arith, inl, inr, subst, replicate,
}
use chattui.Event.{Event}
use chattui.Bus.{
  Bus, queue_chan_size, publish, fan_out, dispatch, dispatch_next, Action, publishes, dispatches,
  step, run,
}

-- The events that a history publishes.
abbrev pub published : List Action → List Event
published [] = []
published (publishes e ∷ acts) = e ∷ published acts
published (dispatches ∷ acts) = published acts

published-cons :
    (a : Action) (acts : List Action) → published (a ∷ acts) ≡ published (a ∷ []) ++ published acts
published-cons (publishes e) acts = refl
published-cons dispatches acts = refl

module _ {H : Type 0} where
  abbrev pub fan_out_all : Map String (List H) → List Event → List (H × Event)
  fan_out_all hs [] = []
  fan_out_all hs (e ∷ es) = fan_out hs e ++ fan_out_all hs es

  -- What one step does: it published `new`, and took `taken` off the queue.
  record Stepped (new taken : List Event) (b b' : Bus H) : Type 0 where
    handlers : b'.handlers ≡ b.handlers
    queue : b.queue ++ new ≡ taken ++ b'.queue
    spawned : b'.spawned ≡ b.spawned ++ fan_out_all b.handlers taken
    bounded : length b.queue ≤ queue_chan_size → length b'.queue ≤ queue_chan_size

  publish-Stepped : (e : Event) (b b' : Bus H) → publish e b ≡ some b' → Stepped (e ∷ []) [] b b'
  unfolding publish
  publish-Stepped e b b' h = record {
    handlers = ground arith;
    queue = ground arith;
    spawned = sym (append-nil b.spawned ∙ ground arith);
    bounded = λ l. ground (arith, length-append b.queue (e ∷ []));
  }

  dispatch-Stepped :
      (e : Event) (rest : List Event) (b b' : Bus H)
      → b.queue ≡ e ∷ rest
      → dispatch_next (e ∷ rest) b ≡ some b'
      → Stepped [] (e ∷ []) b b'
  unfolding dispatch_next
  dispatch-Stepped e rest b b' same h = record {
    handlers = ground arith;
    queue = append-nil b.queue ∙ ground arith;
    spawned = started ∙ ap (λ x. b.spawned ++ x) (sym (append-nil (fan_out b.handlers e)));
    bounded = λ l. ground arith;
  }
    where
      started : b'.spawned ≡ b.spawned ++ fan_out b.handlers e
      started = ground arith

  dispatch_next-Stepped :
      (q : List Event) (b b' : Bus H)
      → b.queue ≡ q
      → dispatch_next q b ≡ some b'
      → (taken : List Event) × Stepped [] taken b b'
  unfolding dispatch_next
  dispatch_next-Stepped [] b b' same h = absurd (ground arith)
  dispatch_next-Stepped (e ∷ rest) b b' same h = (e ∷ [], dispatch-Stepped e rest b b' same h)

  fan_out_all-append :
      (hs : Map String (List H)) (xs ys : List Event)
      → fan_out_all hs (xs ++ ys) ≡ fan_out_all hs xs ++ fan_out_all hs ys
  fan_out_all-append hs [] ys = refl
  fan_out_all-append hs (x ∷ xs) ys = simp (fan_out_all-append hs xs ys, append_assoc)

  Stepped-trans :
      (n₁ n₂ t₁ t₂ : List Event) (b c d : Bus H)
      → Stepped n₁ t₁ b c
      → Stepped n₂ t₂ c d
      → Stepped (n₁ ++ n₂) (t₁ ++ t₂) b d
  Stepped-trans n₁ n₂ t₁ t₂ b c d x y = record {
    handlers = y.handlers ∙ x.handlers;
    queue =
        sym (append_assoc b.queue n₁ n₂)
        ∙ ap (λ z. z ++ n₂) x.queue
        ∙ append_assoc t₁ c.queue n₂
        ∙ ap (λ z. t₁ ++ z) y.queue
        ∙ sym (append_assoc t₁ t₂ d.queue);
    spawned =
        y.spawned
        ∙ ap (λ z. z ++ fan_out_all c.handlers t₂) x.spawned
        ∙ ap (λ hs. (b.spawned ++ fan_out_all b.handlers t₁) ++ fan_out_all hs t₂) x.handlers
        ∙ append_assoc b.spawned (fan_out_all b.handlers t₁) (fan_out_all b.handlers t₂)
        ∙ ap (λ z. b.spawned ++ z) (sym (fan_out_all-append b.handlers t₁ t₂));
    bounded = λ l. y.bounded (x.bounded l);
  }

  Stepped-refl : (b : Bus H) → Stepped [] [] b b
  Stepped-refl b = record {
    handlers = refl;
    queue = append-nil b.queue;
    spawned = sym (append-nil b.spawned);
    bounded = λ l. l;
  }

  step-Stepped :
      (a : Action) (b c : Bus H)
      → step a b ≡ some c
      → (taken : List Event) × Stepped (published (a ∷ [])) taken b c
  unfolding step dispatch
  step-Stepped (publishes e) b c h = ([], publish-Stepped e b c h)
  step-Stepped dispatches b c h = dispatch_next-Stepped b.queue b c refl h

  run-Stepped :
      (acts : List Action) (b b' : Bus H)
      → run acts b ≡ some b'
      → (taken : List Event) × Stepped (published acts) taken b b'
  unfolding run
  run-Stepped [] b b' h = ([], subst (Stepped [] [] b) (ground arith) (Stepped-refl b))
  run-Stepped (a ∷ acts) b b' h = elim (Option-cases (step a b)) [
    | inl stuck ↦ absurd (ground arith)
    | inr (c, went) ↦
        let (t₁, first) = step-Stepped a b c went in
        let (t₂, rest) = run-Stepped acts c b' (ground arith) in
        (
          t₁ ++ t₂,
          subst (λ n. Stepped n (t₁ ++ t₂) b b') (sym (published-cons a acts))
              (Stepped-trans (published (a ∷ [])) (published acts) t₁ t₂ b c b' first rest),
        )
  ]

  -- In any history of publishers and the dispatch loop that starts with an empty queue, the events
  -- published are, in order, those dispatched and then those still queued, of which there are 512 at
  -- most; and the goroutines started are, in order, one for each handler subscribed to the kind of
  -- each event dispatched.
  pub run_delivers_once :
      (acts : List Action) (b b' : Bus H)
      → b.queue ≡ []
      → run acts b ≡ some b'
      → (dispatched : List Event) × (published acts ≡ dispatched ++ b'.queue)
        × (b'.spawned ≡ b.spawned ++ fan_out_all b.handlers dispatched)
        × (length b'.queue ≤ queue_chan_size)
  run_delivers_once acts b b' empty h =
      let (taken, s) = run-Stepped acts b b' h in
      (
        taken,
        ap (λ q. q ++ published acts) (sym empty) ∙ s.queue,
        s.spawned,
        s.bounded (rw empty (omega arith)),
      )

  abbrev bus : List Event → Map String (List H) → List (H × Event) → Bus H
  bus q hs sp = record { queue = q; handlers = hs; spawned = sp }

  unblocked :
      (e : Event) (q : List Event) (hs : Map String (List H)) (sp : List (H × Event))
      → length q ≤ queue_chan_size
      → publish e (bus q hs sp) ≡ none
      → (b' b'' : Bus H) × (dispatch (bus q hs sp) ≡ some b')
        × (publish e b' ≡ some b'')
        × (length q ≡ queue_chan_size)
  unfolding publish dispatch
  unblocked e [] hs sp bounded waits = absurd (ground arith)
  unblocked e (x ∷ rest) hs sp bounded waits = (
    bus rest hs (sp ++ fan_out hs x),
    bus (rest ++ e ∷ []) hs (sp ++ fan_out hs x),
    refl,
    ground arith,
    ground arith,
  )

  -- A publisher that waits does so because 512 events are queued, and one round of the dispatch
  -- loop, which is then possible, lets it go on.
  pub dispatch_unblocks_publish :
      (e : Event) (b : Bus H)
      → length b.queue ≤ queue_chan_size
      → publish e b ≡ none
      → (b' b'' : Bus H) × (dispatch b ≡ some b')
        × (publish e b' ≡ some b'')
        × (length b.queue ≡ queue_chan_size)
  dispatch_unblocks_publish e b bounded waits =
      unblocked e b.queue b.handlers b.spawned bounded waits

  drained :
      (q : List Event) (hs : Map String (List H)) (sp : List (H × Event))
      → run (replicate (length q) dispatches) (bus q hs sp)
        ≡ some (bus [] hs (sp ++ fan_out_all hs q))
  unfolding run step dispatch
  drained [] hs sp = rw (append-nil sp)
  drained (x ∷ rest) hs sp =
      drained rest hs (sp ++ fan_out hs x)
      ∙ ap (λ z. some (bus [] hs z)) (append_assoc sp (fan_out hs x) (fan_out_all hs rest))

  -- As many rounds of the dispatch loop as there are queued events start every handler of each, and
  -- leave the queue empty.
  pub dispatch_drains :
      (b : Bus H)
      → run (replicate (length b.queue) dispatches) b
        ≡ some (record b { queue = []; spawned = b.spawned ++ fan_out_all b.handlers b.queue })
  dispatch_drains b = drained b.queue b.handlers b.spawned
