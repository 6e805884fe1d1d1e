-- ===== src/Room.antt =====
-- cmd/server/internal/room/service.go: the room service. The store, the transactions and the
-- queries that run inside one are parameters.
pub mod Slug
pub mod Create
mod Tests
use chattui.Common.{ℕ, ℤ, pos, String, Bool, true, false, Option, none, some, List, [], ◌∷◌, ◌++◌}
use chattui.Errs.{Error, not_found, no_rows, Result, ok, err}
use chattui.Event.{Event, room_joined, room_left, room_message_sent}
use chattui.Store.Models.{Room, Message}
use chattui.Store.Params.{
  CreateRoomParams, JoinRoomParams, LeaveRoomParams, CreateMessageParams, ListMessagesByRoomParams,
  ListMessagesByRoomRow,
}
use chattui.Db.{Beginner}
use chattui.World.{World, publish}
use chattui.Inbox.{int8, null_int8}

-- The interface Store, over the database `D`.
pub record Store (D : Type 0) : Type 0 where
  pub get_room_by_slug : String → D → Result Room
  pub create_room : CreateRoomParams → D → Result Room × D
  pub list_rooms : D → Result (List Room)
  pub join_room : JoinRoomParams → D → Option Error × D
  pub leave_room : LeaveRoomParams → D → Option Error × D
  pub list_messages_by_room : ListMessagesByRoomParams → D → Result (List ListMessagesByRoomRow)
  pub get_rooms_for_user : ℤ → D → Result (List Room)
  pub create_message : CreateMessageParams → D → Result Message × D

-- `errors.Is(err, pgx.ErrNoRows)` becomes ErrNotFound, and another error is passed on.
abbrev pub no_rows_is_not_found : Error → Error
no_rows_is_not_found no_rows = not_found
no_rows_is_not_found e = e

module _ {D T : Type 0} (B : Beginner D T) (q : Store T) (slugify : String → String) where
  -- Behind `tx.Commit`; the deferred rollback runs last.
  unfoldable pub created : Room → ℤ → T → World D → Result Room × World D
  created room creator t w =
      let (failure, d) = B.commit t w.db in
      elim failure [
        | some e ↦ (err e, record w { db = B.rollback t d })
        | none ↦ (
          ok room,
          publish (room_joined (record { user_id = creator; room_id = room.id }))
              (record w { db = B.rollback t d }),
        )
      ]

  -- Behind `q.CreateRoom`.
  unfoldable pub add_creator : Room → ℤ → T → World D → Result Room × World D
  unfolding created
  add_creator room creator t w =
      let (failure, t') = q.join_room (record { room_id = room.id; user_id = creator }) t in
      elim failure [
        | some e ↦ (err e, record w { db = B.rollback t' w.db })
        | none ↦ created room creator t' w
      ]

  -- Inside the transaction.
  unfoldable pub create_in : String → ℤ → T → World D → Result Room × World D
  unfolding add_creator
  create_in name creator t w =
      let (r, t') = q.create_room (record { name = name; slug = slugify name }) t in
      elim r [
        | err e ↦ (err e, record w { db = B.rollback t' w.db })
        | ok room ↦ add_creator room creator t' w
      ]

  unfoldable pub create : String → ℤ → World D → Result Room × World D
  unfolding create_in
  create name creator w =
      let (r, d) = B.begin w.db in
      elim r [
        | err e ↦ (err e, record w { db = d })
        | ok t ↦ create_in name creator t (record w { db = d })
      ]

module _ {D : Type 0} (S : Store D) where
  unfoldable pub get_room_by_slug : String → World D → Result Room
  get_room_by_slug slug w = elim (S.get_room_by_slug slug w.db) [
    | ok room ↦ ok room
    | err e ↦ err (no_rows_is_not_found e)
  ]

  unfoldable pub join : ℤ → ℤ → World D → Option Error × World D
  join room user w =
      let (failure, d) = S.join_room (record { room_id = room; user_id = user }) w.db in
      elim failure [
        | some e ↦ (some e, record w { db = d })
        | none ↦ (
          none,
          publish (room_joined (record { user_id = user; room_id = room })) (record w { db = d }),
        )
      ]

  unfoldable pub leave : ℤ → ℤ → World D → Option Error × World D
  leave room user w =
      let (failure, d) = S.leave_room (record { room_id = room; user_id = user }) w.db in
      elim failure [
        | some e ↦ (some e, record w { db = d })
        | none ↦ (
          none,
          publish (room_left (record { user_id = user; room_id = room })) (record w { db = d }),
        )
      ]

  unfoldable pub get_messages_by_room_id : ℤ → ℕ → World D → Result (List ListMessagesByRoomRow)
  get_messages_by_room_id room limit w =
      S.list_messages_by_room (record { room_id = int8 room; limit = limit }) w.db

  unfoldable pub send_room_message : ℤ → ℤ → String → World D → Result Message × World D
  send_room_message room sender body w =
      let (r, d) =
        S.create_message
          (record {
            room_id = int8 room;
            conversation_id = null_int8;
            sender_id = sender;
            body = body;
          })
          w.db in
      elim r [
        | err e ↦ (err e, record w { db = d })
        | ok m ↦ (
          ok m,
          publish
              (room_message_sent (record {
                room_id = m.room_id.int64;
                sender_id = sender;
                message_id = m.id;
                body = body;
              }))
              (record w { db = d }),
        )
      ]
