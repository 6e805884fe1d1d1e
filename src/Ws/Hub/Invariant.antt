-- ===== src/Ws/Hub/Invariant.antt =====
-- The invariant of the hub of cmd/server/internal/ws/hub.go, and the operations that keep it.
use chattui.Common.{
  ◌∙◌, ap, int_key, ℕ, ℤ, Bool, true, false, some, ◌≡◌, ◌∙◌, ap, int_key, nat_key, eqb_refl, has,
  lookup, lookup-nil,
}
use chattui.Ws.Presence.{present, present_nil}
use chattui.Ws.Hub.{Hub, Client, update, new_hub}

pub record Inv (h : Hub) : Type 0 where
  -- The map sends a user to a connection of that user.
  pub owner : (u : ℤ) (p : ℕ) → lookup u h.clients ≡ some p → (h.heap p).user_id ≡ u
  -- No connection in the map has a closed channel.
  pub live : (u : ℤ) (p : ℕ) → lookup u h.clients ≡ some p → (h.heap p).send.closed ≡ false
  -- Who is online in a room is connected, and the connection knows of the room.
  pub known :
      (r u : ℤ) (b : Bool)
      → present h.rooms r u ≡ some b
      → (p : ℕ) × (lookup u h.clients ≡ some p) × (has r (h.heap p).room_ids ≡ true)

pub update_self : (heap : ℕ → Client) (p : ℕ) (c : Client) → update heap p c p ≡ c
unfolding update
update_self heap p c = rw (eqb_refl p)

pub new_hub-Inv : (heap : ℕ → Client) → Inv (new_hub heap)
unfolding new_hub
new_hub-Inv heap = record {
  owner = λ u p e. cc (lookup-nil {V = ℕ} u);
  live = λ u p e. cc (lookup-nil {V = ℕ} u);
  known = λ r u b e. cc (present_nil r u);
}

-- A change of what the channels hold, and of nothing else, keeps the invariant.
pub buffers-Inv :
    (h : Hub) (heap : ℕ → Client)
    → ((q : ℕ)
        → ((heap q).user_id ≡ (h.heap q).user_id)
          × ((heap q).send.closed ≡ (h.heap q).send.closed)
          × ((heap q).room_ids ≡ (h.heap q).room_ids))
    → Inv h
    → Inv (record h { heap = heap })
buffers-Inv h heap same v = record {
  owner = λ u p e. (same p).0 ∙ v.owner u p e;
  live = λ u p e. (same p).1 ∙ v.live u p e;
  known = λ r u b e. let (p, l, k) = v.known r u b e in (p, l, ap (has r) (same p).2 ∙ k);
}
