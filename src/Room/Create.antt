-- ===== src/Room/Create.antt =====
-- `Create` of cmd/server/internal/room/service.go: all of it or nothing.
use chattui.Common.{ℤ, String, none, Option-cases, [], ◌∷◌, ◌++◌, ◌≡◌, refl, ◌∙◌, inl, inr}
use chattui.Errs.{Result, ok, err, Result-cases}
use chattui.Event.{room_joined}
use chattui.Store.Models.{Room}
use chattui.Db.{Beginner, IsTransactional}
use chattui.World.{World}
use chattui.Room.{Store, create, create_in, add_creator, created}

module _ {D T : Type 0} (B : Beginner D T) (q : Store T) (slugify : String → String) where
  -- The room was made and its creator added in one transaction, which was committed, and the only
  -- event, behind the commit, tells of the creator's joining. An error leaves all as it was.
  abbrev pub Atomic : String → ℤ → World D → Result Room → World D → Type 0
  Atomic name creator w (err e) w' = w' ≡ w
  Atomic name creator w (ok room) w' =
      (t t₁ t₂ : T) × ((B.begin w.db).0 ≡ ok t)
      × (q.create_room (record { name = name; slug = slugify name }) t ≡ (ok room, t₁))
      × (q.join_room (record { room_id = room.id; user_id = creator }) t₁ ≡ (none, t₂))
      × ((B.commit t₂ w.db).0 ≡ none)
      × (w'.db ≡ (B.commit t₂ w.db).1)
      × (w'.events ≡ w.events ++ room_joined (record { user_id = creator; room_id = room.id }) ∷ [])

  module _ (L : IsTransactional B) where
    created_lem :
        (name : String) (creator : ℤ) (room : Room) (t t₁ t₂ : T) (w : World D)
        → (B.begin w.db).0 ≡ ok t
        → q.create_room (record { name = name; slug = slugify name }) t ≡ (ok room, t₁)
        → q.join_room (record { room_id = room.id; user_id = creator }) t₁ ≡ (none, t₂)
        → let (r, w') = created B q slugify room creator t₂ w in Atomic name creator w r w'
    unfolding created
    created_lem name creator room t t₁ t₂ w b c j = elim (Option-cases (B.commit t₂ w.db).0) [
      | inl p ↦
          rw (p, created) (t, t₁, t₂, b, c, j, p, L.rollback_keeps t₂ (B.commit t₂ w.db).1, refl)
      | inr (e, p) ↦
          let same =
            L.rollback_keeps t₂ (B.commit t₂ w.db).1
            ∙ L.commit_fails t₂ w.db (B.commit t₂ w.db).1 e (λ i. (p i, (B.commit t₂ w.db).1)) in
          rw (p, created) (λ i. record w { db = same i })
    ]

    add_creator_lem :
        (name : String) (creator : ℤ) (room : Room) (t t₁ : T) (w : World D)
        → (B.begin w.db).0 ≡ ok t
        → q.create_room (record { name = name; slug = slugify name }) t ≡ (ok room, t₁)
        → let (r, w') = add_creator B q slugify room creator t₁ w in Atomic name creator w r w'
    unfolding add_creator
    add_creator_lem name creator room t t₁ w b c =
        let call = q.join_room (record { room_id = room.id; user_id = creator }) t₁ in
        elim (Option-cases call.0) [
          | inl p ↦
              rw (p, add_creator)
                (created_lem name creator room t t₁ call.1 w b c (λ i. (p i, call.1)))
          | inr (e, p) ↦ rw (p, add_creator) (λ i. record w { db = L.rollback_keeps call.1 w.db i })
        ]

    create_in_lem :
        (name : String) (creator : ℤ) (t : T) (w : World D)
        → (B.begin w.db).0 ≡ ok t
        → let (r, w') = create_in B q slugify name creator t w in Atomic name creator w r w'
    unfolding create_in
    create_in_lem name creator t w b =
        let call = q.create_room (record { name = name; slug = slugify name }) t in
        elim (Result-cases call.0) [
          | inl (e, p) ↦ rw (p, create_in) (λ i. record w { db = L.rollback_keeps call.1 w.db i })
          | inr (room, p) ↦
              rw (p, create_in)
                (add_creator_lem name creator room t call.1 w b (λ i. (p i, call.1)))
        ]

    -- Where the database keeps what pgx documents of transactions: creating a room makes the room
    -- and adds its creator in one committed transaction, then publishes exactly that the creator
    -- joined; or it fails, and neither the database nor the events change.
    pub create-Atomic :
        (name : String) (creator : ℤ) (w : World D)
        → let (r, w') = create B q slugify name creator w in Atomic name creator w r w'
    unfolding create
    create-Atomic name creator w = elim (Result-cases (B.begin w.db).0) [
      | inl (e, p) ↦
          rw (p, create)
            (λ i. record w {
              db = L.begin_fails w.db (B.begin w.db).1 e (λ i. (p i, (B.begin w.db).1)) i;
            })
      | inr (t, p) ↦
          rw (p, create, L.begin_keeps w.db (B.begin w.db).1 t (λ i. (p i, (B.begin w.db).1)))
            (create_in_lem name creator t w p)
    ]
