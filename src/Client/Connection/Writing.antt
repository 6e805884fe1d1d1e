-- ===== src/Client/Connection/Writing.antt =====
-- The write loop of cmd/client/internal/ws/client.go.
use chattui.Common.{◌≤◌, List, [], ◌∷◌, ◌++◌, length, ◌≡◌, refl, sym, ap, ◌∙◌, arith}
use mathlib.Core.List.{append_assoc, append-nil}
use chattui.Client.Tea.{Msg}
use chattui.Ws.Message.{Message}
use chattui.Client.Connection.{Write, written, marshal_fails, write_fails, Outbox, write_loop}

-- Every message can be encoded, as a kind, a time and raw JSON can.
abbrev pub Marshals : List Write → Type 0
Marshals [] = Unit {0}
Marshals (written ∷ ws) = Marshals ws
Marshals (marshal_fails ∷ ws) = ⊥
Marshals (write_fails e done ∷ ws) = Marshals ws

-- From `o` to `o'`: the channel gave, in its order, what went on the wire and then at most one
-- message, which is lost.
pub record Written (o o' : Outbox) : Type 0 where
  pub sent : List Message
  pub dropped : List Message
  pub order : o.queue ≡ sent ++ dropped ++ o'.queue
  pub wire : o'.wire ≡ o.wire ++ sent
  pub lost : o'.lost ≡ o.lost ++ dropped
  pub once : length dropped ≤ 1

still : (o : Outbox) → Written o o
still o = record {
  sent = [];
  dropped = [];
  order = refl;
  wire = sym (append-nil o.wire);
  lost = sym (append-nil o.lost);
  once = omega arith;
}

next_sent :
    (m : Message) (o p o' : Outbox)
    → o.queue ≡ m ∷ p.queue
    → p.wire ≡ o.wire ++ (m ∷ [])
    → p.lost ≡ o.lost
    → Written p o'
    → Written o o'
next_sent m o p o' e w l r = record {
  sent = m ∷ r.sent;
  dropped = r.dropped;
  order = e ∙ ap (λ q. m ∷ q) r.order;
  wire = r.wire ∙ (ap (λ x. x ++ r.sent) w ∙ append_assoc o.wire (m ∷ []) r.sent);
  lost = r.lost ∙ ap (λ x. x ++ r.dropped) l;
  once = r.once;
}

write_loop-from :
    (ws : List Write) (q wire lost : List Message) (told : List Msg)
    → Marshals ws
    → Written
        (record { queue = q; wire = wire; lost = lost; told = told })
        (write_loop ws (record { queue = q; wire = wire; lost = lost; told = told }))
unfolding write_loop
write_loop-from [] q wire lost told h = still _
write_loop-from (written ∷ ws) [] wire lost told h = still _
write_loop-from (write_fails x done ∷ ws) [] wire lost told h = still _
write_loop-from (marshal_fails ∷ ws) q wire lost told h = elim h [ ]
write_loop-from (written ∷ ws) (m ∷ q) wire lost told h =
    next_sent m _ _ _ refl refl refl (write_loop-from ws q (wire ++ (m ∷ [])) lost told h)
write_loop-from (write_fails x done ∷ ws) (m ∷ q) wire lost told h = record {
  sent = [];
  dropped = m ∷ [];
  order = refl;
  wire = sym (append-nil wire);
  lost = refl;
  once = omega arith;
}

-- Where every message can be encoded: whatever the writes return, the write loop takes the messages
-- from the front of the channel, in order; they go on the wire, but for at most one, the last, which
-- is lost.
pub write_loop-Written : (ws : List Write) (o : Outbox) → Marshals ws → Written o (write_loop ws o)
write_loop-Written ws o h = write_loop-from ws o.queue o.wire o.lost o.told h
