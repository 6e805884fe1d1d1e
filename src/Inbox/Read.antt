-- ===== src/Inbox/Read.antt =====
-- `MarkAsRead` of cmd/server/internal/inbox/service.go against a table of what it should do.
use chattui.Common.{ℤ, Bool, true, false, Option, none, some, ◌≡◌, refl, nat_key}
use chattui.Errs.{Error, no_params, ambiguous_params}
use chattui.World.{World}
use chattui.Inbox.{Store, int8, mark_as_read}

-- What the parameters ask for.
pub data Selection : Type 0 where
  nothing several everything : Selection
  one_conversation one_room : ℤ → Selection

abbrev pub selection : Option ℤ → Option ℤ → Bool → Selection
selection none none false = nothing
selection none none true = everything
selection none (some r) false = one_room r
selection (some c) none false = one_conversation c
selection none (some r) true = several
selection (some c) none true = several
selection (some c) (some r) all = several

module _ {D : Type 0} (S : Store D) where
  -- One reset, of the user's own rows, or a refusal that changes nothing.
  abbrev pub reset : Selection → ℤ → World D → Option Error × World D
  reset nothing u w = (some no_params, w)
  reset several u w = (some ambiguous_params, w)
  reset everything u w = let (e, d) = S.reset_all_unread_count u w.db in (e, record w { db = d })
  reset (one_conversation c) u w =
      let (e, d) =
        S.reset_dm_unread_count (record { conversation_id = int8 c; user_id = u }) w.db in
      (e, record w { db = d })
  reset (one_room r) u w =
      let (e, d) = S.reset_room_unread_count (record { room_id = int8 r; user_id = u }) w.db in
      (e, record w { db = d })

  -- `MarkAsRead` makes exactly one reset where exactly one of its three parameters is given, for
  -- that conversation, that room or all rows of the user; with none or several given it fails with
  -- the error for that and changes nothing.
  pub mark_as_read-eq_reset :
      (c r : Option ℤ) (all : Bool) (u : ℤ) (w : World D)
      → mark_as_read S c r all u w ≡ reset (selection c r all) u w
  unfolding mark_as_read
  mark_as_read-eq_reset none none false u w = refl
  mark_as_read-eq_reset none none true u w = refl
  mark_as_read-eq_reset none (some r) false u w = refl
  mark_as_read-eq_reset none (some r) true u w = refl
  mark_as_read-eq_reset (some c) none false u w = refl
  mark_as_read-eq_reset (some c) none true u w = refl
  mark_as_read-eq_reset (some c) (some r) false u w = refl
  mark_as_read-eq_reset (some c) (some r) true u w = refl
