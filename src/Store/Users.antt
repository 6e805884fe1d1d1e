-- ===== src/Store/Users.antt =====
-- cmd/server/internal/store/users.sql.go
use chattui.Common.{suc, ℤ, pos, String, [], ◌∷◌, ◌++◌, if◌then◌else◌, ◌==◌, string_key, int_key}
use chattui.Errs.{other, Result, ok, err}
use chattui.Store.Models.{Timestamptz, User}
use chattui.Store.Relations.{any, one}
use chattui.Store.Database.{Database, at_now}
use chattui.Auth.{CreateUserParams}

abbrev pub new_user : CreateUserParams → Database → User
new_user p d = record {
  id = pos d.next_user;
  username = p.username;
  password = p.password;
  created_at = at_now d;
}

unfoldable pub create_user : CreateUserParams → Database → Result User × Database
unfolding any
create_user p d =
    if any (λ (u : User). u.username == p.username) d.users
    then (err (other "users_username_key"), record d { next_user = suc d.next_user })
    else (
      ok (new_user p d),
      record d { users = d.users ++ new_user p d ∷ []; next_user = suc d.next_user },
    )

unfoldable pub get_user_by_username : String → Database → Result User
unfolding one
get_user_by_username name d = one (λ (u : User). u.username == name) d.users

pub record GetUserByIdRow : Type 0 where
  pub id : ℤ
  pub username : String
  pub created_at : Timestamptz

abbrev pub get_user_by_id_row : Result User → Result GetUserByIdRow
get_user_by_id_row (ok u) =
    ok (record { id = u.id; username = u.username; created_at = u.created_at })
get_user_by_id_row (err e) = err e

unfoldable pub get_user_by_id : ℤ → Database → Result GetUserByIdRow
unfolding one
get_user_by_id id d = get_user_by_id_row (one (λ (u : User). u.id == id) d.users)
