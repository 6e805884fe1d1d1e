-- ===== src/Ws/Hub/Broadcast/Rounds.antt =====
-- The two loop bodies of `broadcastMessage` in cmd/server/internal/ws/hub.go.
use chattui.Common.{
  ℕ, ℤ, Bool, true, false, Option, none, some, Option-cases, ◌≡◌, refl, sym, ◌∙◌, ap, arith,
  if◌then◌else◌, int_key, nat_key, int_eq_iff, inl, inr, lookup, Bool-cases, subst,
}
use chattui.Ws.Message.{Message}
use chattui.Ws.Presence.{present}
use chattui.Ws.Hub.{Hub, ok, send_to_member, send_to_user}
use chattui.Ws.Hub.Invariant.{Inv}
use chattui.Ws.Hub.Broadcast.Offer.{
  offered, send_or_kick-eq_offered, heap-offered_self, heap-offered_other, lookup-offered,
  present-offered, offered-Inv,
}
use chattui.Ws.Hub.Broadcast.Loop.{Local, Reached, Round}

offered-Local :
    (m : Message) (u : ℤ) (p : ℕ) (h : Hub)
    → Inv h
    → lookup u h.clients ≡ some p
    → Local u h (offered m p h)
offered-Local m u p h v reg = record {
  heap = λ q ne.
      heap-offered_other m p q h
        (λ same. ne (ap (λ x. (h.heap x).user_id) (sym same) ∙ v.owner u p reg));
  clients = λ w ne.
      ground (arith, lookup-offered m p h w, v.owner u p reg, int_eq_iff (h.heap p).user_id w);
  rooms = λ r w ne. present-offered m p h r w (λ e. ne (sym (v.owner u p reg) ∙ e));
}

offered-Reached :
    (m : Message) (u : ℤ) (p : ℕ) (h : Hub)
    → Inv h
    → lookup u h.clients ≡ some p
    → Reached true m u p h (offered m p h)
offered-Reached m u p h v reg = (
  heap-offered_self m p h,
  ground (arith, lookup-offered m p h u, v.owner u p reg, int_eq_iff (h.heap p).user_id u),
)

untouched-Local : (u : ℤ) (h : Hub) → Local u h h
untouched-Local u h = record { heap = λ p ne. refl; clients = λ w ne. refl; rooms = λ r w ne. refl }

-- What a send to `u` comes to.
abbrev after_user : Message → ℤ → Hub → Hub
after_user m u h = elim (lookup u h.clients) [ none ↦ h | some p ↦ offered m p h ]

-- A connected user: all that one send to `u` does.
record Sent (b : Bool) (m : Message) (u : ℤ) (h h' : Hub) : Type 0 where
  inv : Inv h'
  local : Local u h h'
  reached : (p : ℕ) → lookup u h.clients ≡ some p → Reached b m u p h h'

user-Sent : (m : Message) (u : ℤ) (h : Hub) → Inv h → Sent true m u h (after_user m u h)
user-Sent m u h v = elim (Option-cases (lookup u h.clients)) [
  | inl e ↦
      rw (e, after_user)
        (record { inv = v; local = untouched-Local u h; reached = λ p reg. cc (e, reg) })
  | inr (p, e) ↦
      rw (e, after_user)
        (record {
          inv = offered-Inv m p h v (rw (v.owner u p e) e);
          local = offered-Local m u p h v e;
          reached = λ q reg.
              subst (λ x. Reached true m u x h (offered m p h)) (ground (arith, e, reg))
                (offered-Reached m u p h v e);
        })
]

send_to_user-eq :
    (m : Message) (u : ℤ) (h : Hub) → Inv h → send_to_user m u h ≡ ok (after_user m u h)
unfolding send_to_user
send_to_user-eq m u h v = elim (Option-cases (lookup u h.clients)) [
  | inl e ↦ rw (e, send_to_user, after_user)
  | inr (p, e) ↦ rw (e, send_to_user, after_user) (send_or_kick-eq_offered m p h (v.live u p e))
]

pub user-Round : (m : Message) → Round m (λ u h. true) (send_to_user m)
user-Round m = record {
  after = after_user m;
  runs = send_to_user-eq m;
  keeps = λ u h v. (user-Sent m u h v).inv;
  local = λ u h v. (user-Sent m u h v).local;
  reaches = λ u h p v reg. (user-Sent m u h v).reached p reg;
  stable = λ u w h v ne. refl;
}

abbrev get_or : Bool → Option Bool → Bool
get_or d none = d
get_or d (some b) = b

-- `h.rooms[r][u]` with Go's zero value for an entry that is not there.
abbrev pub online : ℤ → ℤ → Hub → Bool
online r u h = get_or false (present h.rooms r u)

abbrev after_member : ℤ → Message → ℤ → Hub → Hub
after_member r m u h = if online r u h then after_user m u h else h

member-Sent :
    (r : ℤ) (m : Message) (u : ℤ) (h : Hub)
    → Inv h
    → Sent (online r u h) m u h (after_member r m u h)
member-Sent r m u h v = elim (Bool-cases (online r u h)) [
  | inl t ↦ rw t (user-Sent m u h v)
  | inr f ↦ rw f (record { inv = v; local = untouched-Local u h; reached = λ p reg. (refl, reg) })
]

send_to_member-eq :
    (r : ℤ) (m : Message) (u : ℤ) (h : Hub)
    → Inv h
    → send_to_member r m u h ≡ ok (after_member r m u h)
unfolding send_to_member
send_to_member-eq r m u h v = elim (Option-cases (present h.rooms r u)) [
  | inl e ↦ rw (e, send_to_member, online)
  | inr (true, e) ↦
      let (p, reg, _) = v.known r u true e in
      rw (e, send_to_member, online)
        (rw (reg, send_to_member, after_user) (send_or_kick-eq_offered m p h (v.live u p reg)))
  | inr (false, e) ↦ rw (e, send_to_member, online)
]

pub member-Round : (r : ℤ) (m : Message) → Round m (online r) (send_to_member r m)
member-Round r m = record {
  after = after_member r m;
  runs = send_to_member-eq r m;
  keeps = λ u h v. (member-Sent r m u h v).inv;
  local = λ u h v. (member-Sent r m u h v).local;
  reaches = λ u h p v reg. (member-Sent r m u h v).reached p reg;
  stable = λ u w h v ne.
      ap (λ (o : Option Bool). get_or false o) ((member-Sent r m u h v).local.rooms r w ne);
}
