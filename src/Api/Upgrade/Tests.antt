-- ===== src/Api/Upgrade/Tests.antt =====
-- A user of rooms 4 and 5 who connects with a token in the query.
use chattui.Common.{
  ℕ, ℤ, pos, true, some, none, insert, lookup, int_key, List, [], ◌∷◌, if◌then◌else◌, ◌==◌,
  string_key, ◌≡◌, refl,
}
use chattui.Errs.{no_rows, other, ok, err}
use chattui.Store.Models as Models
use chattui.World.{World}
use chattui.Ws.Hub.{Client}
use chattui.Auth.{Config, parse_token}
use chattui.Auth.Libraries.{Claims, Jwt}
use chattui.Room
use chattui.Store.Database.{Database}
use chattui.Store.RoomMembers.{get_rooms_for_user}
use chattui.Store.Statements.{Statement, create_user, create_room, join_room, leave_room, run}
use chattui.Store.Statements.Keys.{empty}
use chattui.Store.Statements.Membership.{member, joined}
use chattui.Store.Statements.Connected.{connected_client_knows_joined}
use chattui.Api.Upgrade.{connected, new_client, room_ids, upgrade}
use chattui.Api.Upgrade.Connected.{Granted, upgrade-Granted}

abbrev ana : Claims
ana = record {
  user_id = pos 1;
  username = "ana";
  issuer = "chattui";
  issued_at = 0;
  expires_at = some 900;
}

abbrev jwt : Jwt ℕ
jwt = record {
  signed_string = λ m c k. ok "tok";
  parse_with_claims =
      λ token keys names now. if token == "tok" then ok (ana, true) else err (other "token");
}

abbrev cfg : Config ℕ
cfg = record { jwt_secret = 7; issuer = "chattui"; access_ttl = 900 }

abbrev a_room : ℤ → Models.Room
a_room n = record {
  id = n;
  name = "room";
  slug = "room";
  created_at = record { time = pos 0; valid = true };
}

abbrev two_rooms : List Models.Room
two_rooms = a_room (pos 4) ∷ a_room (pos 5) ∷ []

abbrev store : Room.Store ℕ
store = record {
  get_room_by_slug = λ s d. err no_rows;
  create_room = λ p d. (err (other "full"), d);
  list_rooms = λ d. ok [];
  join_room = λ p d. (none, d);
  leave_room = λ p d. (none, d);
  list_messages_by_room = λ p d. ok [];
  get_rooms_for_user = λ u d. ok two_rooms;
  create_message = λ p d. (err (other "full"), d);
}

abbrev world : World ℕ
world = record { db = 0; events = [] }

abbrev client : Client
client = new_client (pos 1) "ana" (room_ids two_rooms [])

connects : upgrade jwt cfg store (λ s old new. s) "tok" "" 10 true world ≡ connected client
unfolding upgrade parse_token
connects = refl

upgrade-Granted_example : Granted jwt cfg store (λ s old new. s) "tok" 10 world client
upgrade-Granted_example =
    upgrade-Granted jwt cfg store (λ s old new. s) "tok" "" 10 true world client connects

-- Ana is in rooms 1 and 2 and leaves the first.
abbrev before : Database
before =
    run
      (create_room (record { name = "B"; slug = "b" })
        ∷ create_room (record { name = "A"; slug = "a" })
        ∷ create_user (record { username = "ana"; password = "x" })
        ∷ [])
      empty

abbrev joins_and_leaves : List Statement
joins_and_leaves =
    leave_room (record { room_id = pos 1; user_id = pos 1 })
    ∷ join_room (record { room_id = pos 2; user_id = pos 1 })
    ∷ join_room (record { room_id = pos 1; user_id = pos 1 })
    ∷ []

abbrev in_second : Client
in_second = new_client (pos 1) "ana" (insert (pos 2) true [])

connected_client_knows_joined_example : lookup (pos 2) in_second.room_ids ≡ (
    if joined joins_and_leaves (pos 2) (pos 1) (member (pos 2) (pos 1) before)
    then some true
    else none)
unfolding upgrade parse_token get_rooms_for_user run new_client room_ids insert
connected_client_knows_joined_example =
    connected_client_knows_joined jwt cfg (λ s old new. s) "tok" "" 10 true
      (record { db = run joins_and_leaves before; events = [] }) in_second joins_and_leaves before
      (pos 2) refl refl refl refl
