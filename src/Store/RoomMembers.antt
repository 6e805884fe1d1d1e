-- ===== src/Store/RoomMembers.antt =====
-- cmd/server/internal/store/room_members.sql.go
use chattui.Common.{
  ℤ, String, Bool, not, Option, none, some, List, [], ◌∷◌, ◌++◌, if◌then◌else◌, ◌==◌, ◌&&◌, int_key,
}
use chattui.Errs.{Error, other, Result, ok}
use chattui.Store.Models.{Room}
use chattui.Store.Params.{JoinRoomParams, LeaveRoomParams}
use chattui.Store.Sql.{those}
use chattui.Store.Feed.{int_leb}
use chattui.Store.Relations.{any, order_by, join_on}
use chattui.Store.Rooms.{newer_room}
use chattui.Store.Database.{Member, Database, has_user, has_room}

abbrev pub of_room_and_user : ℤ → ℤ → Member → Bool
of_room_and_user r u m = m.room_id == r && m.user_id == u

unfoldable pub get_rooms_for_user : ℤ → Database → Result (List Room)
unfolding order_by join_on
get_rooms_for_user user d = ok (
    order_by newer_room
      (join_on (λ r m. of_room_and_user r.id user m) (λ r m. r) d.rooms d.room_members))

pub record IsMemberParams : Type 0 where
  pub room_id : ℤ
  pub user_id : ℤ

unfoldable pub is_member : IsMemberParams → Database → Result Bool
unfolding any
is_member p d = ok (any (of_room_and_user p.room_id p.user_id) d.room_members)

-- The primary key is the only constraint that ON CONFLICT can meet.
unfoldable pub join_room : JoinRoomParams → Database → Option Error × Database
unfolding any
join_room p d =
    if any (of_room_and_user p.room_id p.user_id) d.room_members
    then (none, d)
    else if has_room d p.room_id && has_user d p.user_id
    then (
      none,
      record d {
        room_members =
            d.room_members
            ++ record { room_id = p.room_id; user_id = p.user_id; joined_at = d.now } ∷ [];
      },
    )
    else (some (other "room_members_fkey"), d)

unfoldable pub leave_room : LeaveRoomParams → Database → Option Error × Database
leave_room p d = (
  none,
  record d {
    room_members = those (λ m. not (of_room_and_user p.room_id p.user_id m)) d.room_members;
  },
)

pub record ListRoomMembersRow : Type 0 where
  pub id : ℤ
  pub username : String

-- ORDER BY joined_at; the rows are ordered before the join, which keeps their order.
unfoldable pub list_room_members : ℤ → Database → Result (List ListRoomMembersRow)
unfolding order_by join_on
list_room_members room d = ok (
    join_on (λ m u. u.id == m.user_id) (λ m u. record { id = u.id; username = u.username })
      (order_by (λ (a b : Member). int_leb a.joined_at b.joined_at)
        (those (λ (m : Member). m.room_id == room) d.room_members))
      d.users)
