-- ===== src/Room/Tests.antt =====
-- The theorems about cmd/server/internal/room/service.go at a database that is the list of the
-- changes made to it.
use chattui.Common.{
  chars, pos, String, Bool, true, none, List, [], ◌∷◌, ◌++◌, ◌≡◌, refl, ◌==◌, nat_key,
}
use Prim.Native.Char.{Char, code}
use chattui.Errs.{no_rows, other, ok, err}
use chattui.Event.{room_joined}
use chattui.Store.Models.{Room}
use chattui.Db.Copying.{copying, copying-IsTransactional}
use chattui.World.{World}
use chattui.Room.{Store, create}
use chattui.Room.Create.{Atomic, create-Atomic}
use chattui.Room.Slug.{slugify}
use chattui.Room.Slug.Laws.{All, Solid, Lowered, slugify_normalises}

abbrev is_blank : Char → Bool
is_blank c = code c == 32

abbrev same : Char → Char
same c = c

abbrev go_room : Room
go_room = record {
  id = pos 4;
  name = "go room";
  slug = "go-room";
  created_at = record { time = pos 0; valid = true };
}

abbrev Changes : Type 0
Changes = List String

-- A store where each change succeeds.
abbrev notebook : Store Changes
notebook = record {
  get_room_by_slug = λ s d. err no_rows;
  create_room = λ p d. (ok go_room, d ++ p.slug ∷ []);
  list_rooms = λ d. ok [];
  join_room = λ p d. (none, d ++ "join" ∷ []);
  leave_room = λ p d. (none, d ++ "leave" ∷ []);
  list_messages_by_room = λ p d. ok [];
  get_rooms_for_user = λ u d. ok [];
  create_message = λ p d. (err (other "full"), d);
}

abbrev start : World Changes
start = record { db = []; events = [] }

create-Atomic_example :
    let (r, w') = create copying notebook (slugify is_blank same) "go room" (pos 1) start in
    Atomic copying notebook (slugify is_blank same) "go room" (pos 1) start r w'
create-Atomic_example =
    create-Atomic copying notebook (slugify is_blank same) copying-IsTransactional "go room" (pos 1)
      start

slugify_normalises_example :
    All (Solid is_blank same) (chars (slugify is_blank same " go  room "))
    × All (Lowered is_blank same) (chars (slugify is_blank same " go  room "))
    × (slugify is_blank same (slugify is_blank same " go  room ")
        ≡ slugify is_blank same " go  room ")
slugify_normalises_example = slugify_normalises is_blank same refl refl (λ c. refl) " go  room "

-- A name with spaces around and between its words.
slug_of_a_name : slugify is_blank same " go  room " ≡ "go-room"
unfolding slugify chars
slug_of_a_name = refl

-- Creating a room in an empty database.
creating_a_room : create copying notebook (slugify is_blank same) "go room" (pos 1) start ≡ (
  ok go_room,
  record {
    db = "go-room" ∷ "join" ∷ [];
    events = room_joined (record { user_id = pos 1; room_id = pos 4 }) ∷ [];
  },
)
unfolding create slugify chars
creating_a_room = refl
