-- ===== src/Store/Statements/Connected.antt =====
-- cmd/server/internal/api/handlers/ws.go over the memberships of
-- cmd/server/internal/store/room_members.sql.go.
use chattui.Common.{
  ℕ, ℤ, String, Bool, true, some, none, List, [], ◌∷◌, if◌then◌else◌, ◌==◌, ◌||◌, int_key, lookup,
  ◌≡◌, refl, sym, ap, ◌∙◌,
}
use chattui.Errs.{ok}
use chattui.Store.Models.{Room}
use chattui.Store.Relations.{any}
use chattui.Store.Database.{Database, has_room, has_user}
use chattui.Store.RoomMembers.{get_rooms_for_user}
use chattui.Store.Statements.{Statement, run, room_store}
use chattui.Store.Statements.Growth.{run-Grown, Extends-any}
use chattui.Store.Statements.Membership.{member, joined, run-member, get_rooms_for_user-member}
use chattui.World.{World}
use chattui.Ws.Hub.{Client}
use chattui.Auth.{Config}
use chattui.Auth.Libraries.{Jwt}
use chattui.Api.Upgrade.{connected, upgrade}
use chattui.Api.Upgrade.Connected.{one_of, upgrade-Granted}

one_of-eq_any : (r : ℤ) (rs : List Room) → one_of r rs ≡ any (λ (x : Room). x.id == r) rs
unfolding any
one_of-eq_any r [] = refl
one_of-eq_any r (x ∷ rs) = ap (λ b. x.id == r || b) (one_of-eq_any r rs)

listed-joined :
    (past : List Statement) (d : Database) (r u : ℤ) (rooms : List Room)
    → has_room d r ≡ true
    → has_user d u ≡ true
    → get_rooms_for_user u (run past d) ≡ ok rooms
    → one_of r rooms ≡ joined past r u (member r u d)
listed-joined past d r u rooms has_r has_u h =
    let (found, e, all) = get_rooms_for_user-member u (run past d) in
    let here : has_room (run past d) r ≡ true =
      Extends-any (λ (x : Room). x.id == r) d.rooms _ (run-Grown past d).rooms has_r in
    let same : rooms ≡ found = cc in
    one_of-eq_any r rooms
    ∙ ap (any (λ (x : Room). x.id == r)) same
    ∙ all r
    ∙ rw here (run-member past d r u has_r has_u)

module _ {K : Type 0} (J : Jwt K) (cfg : Config K)
    (replace_all : String → String → String → String) where
  -- After any statements since a time when the room and the user were there: the client that an
  -- upgrade connects for the user knows of the room exactly if the last statement of the user and
  -- the room was to join or, where there was none, the user was a member at that time.
  pub connected_client_knows_joined :
      (query header : String) (now : ℕ) (accepts : Bool) (w : World Database) (cl : Client)
      (past : List Statement) (d : Database) (r : ℤ)
      → upgrade J cfg room_store replace_all query header now accepts w ≡ connected cl
      → w.db ≡ run past d
      → has_room d r ≡ true
      → has_user d cl.user_id ≡ true
      → lookup r cl.room_ids
        ≡ (if joined past r cl.user_id (member r cl.user_id d) then some true else none)
  connected_client_knows_joined query header now accepts w cl past d r h e has_r has_u =
      let g = upgrade-Granted J cfg room_store replace_all query header now accepts w cl h in
      g.knows r
      ∙ ap (λ b. if b then some true else none)
          (listed-joined past d r cl.user_id g.rooms has_r has_u
            ((λ i. get_rooms_for_user (g.user i) (sym e i)) ∙ g.listed))
