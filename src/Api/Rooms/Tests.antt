-- ===== src/Api/Rooms/Tests.antt =====
-- The endpoints of cmd/server/internal/api/handlers/rooms.go at a store that counts its changes.
use chattui.Common.{ℕ, suc, pos, none, some, [], ◌≡◌, refl}
use chattui.Errs.{no_rows, other, ok, err}
use chattui.World.{World}
use chattui.Room.{Store}
use chattui.Auth.Libraries.{Claims}
use chattui.Api.Errors.{plain, write_error}
use chattui.Api.Rooms.{handle_join}
use chattui.Api.Rooms.Presence.{Joined, handle_join-Joined}

abbrev counting : Store ℕ
counting = record {
  get_room_by_slug = λ s d. err no_rows;
  create_room = λ p d. (err (other "full"), d);
  list_rooms = λ d. ok [];
  join_room = λ p d. (none, suc d);
  leave_room = λ p d. (none, suc d);
  list_messages_by_room = λ p d. ok [];
  get_rooms_for_user = λ u d. ok [];
  create_message = λ p d. (err (other "full"), d);
}

abbrev ana : Claims
ana = record {
  user_id = pos 1;
  username = "ana";
  issuer = "chattui";
  issued_at = 0;
  expires_at = some 900;
}

abbrev start : World ℕ
start = record { db = 0; events = [] }

handle_join-Joined_example :
    let (reply, w') = handle_join counting (some ana) (some (pos 4)) start in
    Joined counting (some ana) (some (pos 4)) start reply w'
handle_join-Joined_example = handle_join-Joined counting (some ana) (some (pos 4)) start

-- An error that no case names is answered without its text.
internal_error :
    write_error (plain (other "pq: secret"))
    ≡ record { status = 500; code = "internal"; msg = "internal error" }
unfolding write_error
internal_error = refl
