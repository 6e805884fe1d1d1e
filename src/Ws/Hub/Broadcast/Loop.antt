-- ===== src/Ws/Hub/Broadcast/Loop.antt =====
-- The loops of `broadcastMessage` in cmd/server/internal/ws/hub.go, over the members of a room and
-- over the users of a direct message.
use chattui.Common.{
  ℕ, ℤ, Bool, true, false, none, some, ◌≡◌, refl, sym, ◌∙◌, ap, List, [], ◌∷◌, arith, if◌then◌else◌,
  ◌&&◌, int_key, nat_key, int_eq_iff, eqb-cases, inl, inr, lookup, subst, contains, Unique,
}
use chattui.Ws.Message.{Message}
use chattui.Ws.Presence.{present}
use chattui.Ws.Hub.{Hub, Client, Outcome, ok, each}
use chattui.Ws.Hub.Invariant.{Inv}
use chattui.Ws.Hub.Broadcast.Offer.{fits, received, received-user_id}

-- What one round may do to the hub: it touches the connections of `u` alone.
pub record Local (u : ℤ) (h h' : Hub) : Type 0 where
  pub heap : (p : ℕ) → ¬ ((h.heap p).user_id ≡ u) → h'.heap p ≡ h.heap p
  pub clients : (w : ℤ) → ¬ (u ≡ w) → lookup w h'.clients ≡ lookup w h.clients
  pub rooms : (r w : ℤ) → ¬ (u ≡ w) → present h'.rooms r w ≡ present h.rooms r w

-- The message `m` was offered to the connection `p` of `u` between `h` and `h'`, or nothing was.
abbrev pub Reached : Bool → Message → ℤ → ℕ → Hub → Hub → Type 0
Reached true m u p h h' =
    (h'.heap p ≡ received m (h.heap p))
    × (lookup u h'.clients ≡ (if fits (h.heap p) then some p else none))
Reached false m u p h h' = (h'.heap p ≡ h.heap p) × (lookup u h'.clients ≡ some p)

Reached-user_id :
    (b : Bool) (m : Message) (u : ℤ) (p : ℕ) (h h' : Hub)
    → Reached b m u p h h'
    → (h'.heap p).user_id ≡ (h.heap p).user_id
Reached-user_id true m u p h h' e =
    ap (λ (c : Client). c.user_id) e.0 ∙ received-user_id m (h.heap p)
Reached-user_id false m u p h h' e = ap (λ (c : Client). c.user_id) e.0

Reached-from_same :
    (b : Bool) (m : Message) (u : ℤ) (p : ℕ) (h₀ h h' : Hub)
    → h.heap p ≡ h₀.heap p
    → Reached b m u p h h'
    → Reached b m u p h₀ h'
Reached-from_same true m u p h₀ h h' same e =
    (e.0 ∙ ap (received m) same, e.1 ∙ ap (λ (c : Client). if fits c then some p else none) same)
Reached-from_same false m u p h₀ h h' same e = (e.0 ∙ same, e.1)

Reached-into_same :
    (b : Bool) (m : Message) (u : ℤ) (p : ℕ) (h h' h₁ : Hub)
    → h₁.heap p ≡ h'.heap p
    → lookup u h₁.clients ≡ lookup u h'.clients
    → Reached b m u p h h'
    → Reached b m u p h h₁
Reached-into_same true m u p h h' h₁ same still e = (same ∙ e.0, still ∙ e.1)
Reached-into_same false m u p h h' h₁ same still e = (same ∙ e.0, still ∙ e.1)

-- What a round must be for the loop: it succeeds, keeps the invariant, touches its own user alone,
-- and offers the message to that user exactly if `target` says so.
pub record Round (m : Message) (target : ℤ → Hub → Bool) (body : ℤ → Hub → Outcome Hub)
    : Type 0 where
  pub after : ℤ → Hub → Hub
  pub runs : (u : ℤ) (h : Hub) → Inv h → body u h ≡ ok (after u h)
  pub keeps : (u : ℤ) (h : Hub) → Inv h → Inv (after u h)
  pub local : (u : ℤ) (h : Hub) → Inv h → Local u h (after u h)
  pub reaches :
      (u : ℤ) (h : Hub) (p : ℕ)
      → Inv h
      → lookup u h.clients ≡ some p
      → Reached (target u h) m u p h (after u h)
  -- Whether a user is meant does not depend on what happens to others.
  pub stable : (u w : ℤ) (h : Hub) → Inv h → ¬ (u ≡ w) → target w (after u h) ≡ target w h

module _ {m : Message} {target : ℤ → Hub → Bool} {body : ℤ → Hub → Outcome Hub}
    (R : Round m target body) where
  pub after_all : List ℤ → Hub → Hub
  after_all [] h = h
  after_all (u ∷ us) h = after_all us (R.after u h)

  pub each-runs : (us : List ℤ) (h : Hub) → Inv h → each body us h ≡ ok (after_all us h)
  unfolding each after_all
  each-runs [] h v = refl
  each-runs (u ∷ us) h v = rw (R.runs u h v, each) (each-runs us (R.after u h) (R.keeps u h v))

  pub after_all-Inv : (us : List ℤ) (h : Hub) → Inv h → Inv (after_all us h)
  unfolding after_all
  after_all-Inv [] h v = v
  after_all-Inv (u ∷ us) h v = after_all-Inv us (R.after u h) (R.keeps u h v)

  -- Who is not in the list is not touched.
  untouched :
      (us : List ℤ) (h : Hub) (w : ℤ) (p : ℕ)
      → Inv h
      → contains w us ≡ false
      → (h.heap p).user_id ≡ w
      → ((after_all us h).heap p ≡ h.heap p)
        × (lookup w (after_all us h).clients ≡ lookup w h.clients)
  unfolding after_all contains
  untouched [] h w p v out mine = (refl, refl)
  untouched (u ∷ us) h w p v out mine =
      let other : ¬ (u ≡ w) = ground (arith, int_eq_iff u w) in
      let rest_out : contains w us ≡ false = ground arith in
      let L = R.local u h v in
      let same = L.heap p (λ e. other (sym e ∙ mine)) in
      let (a, b) =
        untouched us (R.after u h) w p (R.keeps u h v) rest_out
          (ap (λ (c : Client). c.user_id) same ∙ mine) in
      (a ∙ same, b ∙ L.clients w other)

  -- A user who is not in the rest of the list is reached by the first round alone.
  first-Reached :
      (u : ℤ) (us : List ℤ) (h : Hub) (p : ℕ)
      → Inv h
      → contains u us ≡ false
      → lookup u h.clients ≡ some p
      → Reached (target u h) m u p h (after_all us (R.after u h))
  first-Reached u us h p v out reg =
      let reached = R.reaches u h p v reg in
      let mine = Reached-user_id (target u h) m u p h (R.after u h) reached ∙ v.owner u p reg in
      let (same, still) = untouched us (R.after u h) u p (R.keeps u h v) out mine in
      Reached-into_same (target u h) m u p h (R.after u h) _ same still reached

  -- Over a list without repeats, each connected user is reached exactly if the list has the user
  -- and the user is meant at the start.
  pub each-Reached :
      (us : List ℤ) (h : Hub) (w : ℤ) (p : ℕ)
      → Inv h
      → Unique us
      → lookup w h.clients ≡ some p
      → Reached (contains w us && target w h) m w p h (after_all us h)
  unfolding after_all contains
  each-Reached [] h w p v once reg = (refl, reg)
  each-Reached (u ∷ us) h w p v once reg = elim (eqb-cases u w) [
    | inl (t, same) ↦ rw t (
        subst
          (λ x.
            lookup x h.clients ≡ some p → Reached (target x h) m x p h (after_all us (R.after u h)))
          same (first-Reached u us h p v once.0) reg)
    | inr (f, other) ↦
        let L = R.local u h v in
        let same = L.heap p (λ e. other (sym e ∙ v.owner w p reg)) in
        let ih =
          each-Reached us (R.after u h) w p (R.keeps u h v) once.1 (L.clients w other ∙ reg) in
        rw f (
          subst (λ b. Reached (contains w us && b) m w p h (after_all us (R.after u h)))
            (R.stable u w h v other)
            (Reached-from_same (contains w us && target w (R.after u h)) m w p h (R.after u h) _
              same ih))
  ]
