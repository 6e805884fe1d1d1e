-- ===== src/Store/Rooms.antt =====
-- cmd/server/internal/store/rooms.sql.go
use chattui.Common.{
  suc, ℤ, pos, String, Bool, List, [], ◌∷◌, ◌++◌, if◌then◌else◌, ◌==◌, string_key, int_key,
}
use chattui.Errs.{other, Result, ok, err}
use chattui.Store.Models.{Room}
use chattui.Store.Params.{CreateRoomParams}
use chattui.Store.Feed.{int_leb}
use chattui.Store.Relations.{any, one, order_by}
use chattui.Store.Database.{Database, at_now}

abbrev pub new_room : CreateRoomParams → Database → Room
new_room p d = record { id = pos d.next_room; name = p.name; slug = p.slug; created_at = at_now d }

unfoldable pub create_room : CreateRoomParams → Database → Result Room × Database
unfolding any
create_room p d =
    if any (λ (r : Room). r.slug == p.slug) d.rooms
    then (err (other "rooms_slug_key"), record d { next_room = suc d.next_room })
    else (
      ok (new_room p d),
      record d { rooms = d.rooms ++ new_room p d ∷ []; next_room = suc d.next_room },
    )

unfoldable pub get_room_by_id : ℤ → Database → Result Room
unfolding one
get_room_by_id id d = one (λ (r : Room). r.id == id) d.rooms

unfoldable pub get_room_by_slug : String → Database → Result Room
unfolding one
get_room_by_slug slug d = one (λ (r : Room). r.slug == slug) d.rooms

-- ORDER BY created_at DESC
abbrev pub newer_room : Room → Room → Bool
newer_room a b = int_leb b.created_at.time a.created_at.time

unfoldable pub list_rooms : Database → Result (List Room)
unfolding order_by
list_rooms d = ok (order_by newer_room d.rooms)
