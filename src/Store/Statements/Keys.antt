-- ===== src/Store/Statements/Keys.antt =====
-- The ids that the BIGSERIAL columns of cmd/server/migrations/001_users.sql give to users: in every
-- database that statements make of the empty one, each id names one user.
use chattui.Common.{
  ℕ, suc, ◌≤◌, ◌<◌, ℤ, pos, true, false, List, [], ◌∷◌, ◌++◌, ◌==◌, int_key, string_key, eqb-cases,
  subst, ◌≡◌, refl, sym, ◌∙◌, arith, Bool-cases, inl, inr,
}
use chattui.Store.Models.{User}
use chattui.Store.Sql.{those}
use chattui.Store.Relations.{any, any-append}
use chattui.Store.Database.{Database}
use chattui.Store.Users.{new_user}
use chattui.Store.Statements.{
  Statement, create_user, create_room, join_room, leave_room, get_or_create_conversation,
  create_message, wait, execute, run,
}
use chattui.Store.Statements.Growth.{pair-adds}

abbrev pub empty : Database
empty = record {
  users = [];
  rooms = [];
  room_members = [];
  conversations = [];
  messages = [];
  next_user = 1;
  next_room = 1;
  next_conversation = 1;
  next_message = 1;
  now = pos 0;
}

-- Ids from a sequence that has come to `n`, each of them once.
abbrev pub Numbered : List User → ℕ → Type 0
Numbered [] n = Unit {0}
Numbered (u ∷ us) n =
    ((k : ℕ) × (u.id ≡ pos k) × (k < n))
    × (any (λ (x : User). x.id == u.id) us ≡ false)
    × Numbered us n

Numbered-mono : (us : List User) (n m : ℕ) → n ≤ m → Numbered us n → Numbered us m
Numbered-mono [] n m h k = tt
Numbered-mono (u ∷ us) n m h ((k, e, l), f, r) = ((k, e, omega arith), f, Numbered-mono us n m h r)

Numbered-fresh :
    (us : List User) (n : ℕ) → Numbered us n → any (λ (x : User). x.id == pos n) us ≡ false
unfolding any
Numbered-fresh [] n h = refl
Numbered-fresh (u ∷ us) n ((k, e, l), f, r) = rw (e, Numbered-fresh us n r) (ground arith)

Numbered-append :
    (us : List User) (n : ℕ) (v : User)
    → v.id ≡ pos n
    → Numbered us n
    → Numbered (us ++ v ∷ []) (suc n)
unfolding any
Numbered-append [] n v e h = ((n, e, omega arith), refl, tt)
Numbered-append (u ∷ us) n v e ((k, e', l), f, r) = (
  (k, e', omega arith),
  any-append (λ (x : User). x.id == u.id) us (v ∷ []) ∙ rw (f, e, e') (ground arith),
  Numbered-append us n v e r,
)

abbrev pub IsNumbered : Database → Type 0
IsNumbered d = Numbered d.users d.next_user

kept-IsNumbered :
    (d d' : Database)
    → d'.users ≡ d.users
    → d'.next_user ≡ d.next_user
    → IsNumbered d
    → IsNumbered d'
kept-IsNumbered d d' e n h = rw (e, n) h

pub execute-IsNumbered : (s : Statement) (d : Database) → IsNumbered d → IsNumbered (execute s d)
unfolding execute
execute-IsNumbered (create_user p) d h =
    elim (Bool-cases (any (λ (u : User). u.username == p.username) d.users)) [
      | inl t ↦ rw (execute, t) (Numbered-mono d.users _ _ (omega arith) h)
      | inr f ↦ rw (execute, f) (Numbered-append d.users d.next_user (new_user p d) refl h)
    ]
execute-IsNumbered (create_room p) d h =
    kept-IsNumbered d (execute (create_room p) d) (ground arith) (ground arith) h
execute-IsNumbered (join_room p) d h =
    kept-IsNumbered d (execute (join_room p) d) (ground arith) (ground arith) h
execute-IsNumbered (leave_room p) d h = h
execute-IsNumbered (get_or_create_conversation p) d h = subst IsNumbered (sym (pair-adds p d)) h
execute-IsNumbered (create_message p) d h =
    kept-IsNumbered d (execute (create_message p) d) (ground arith) (ground arith) h
execute-IsNumbered (wait t) d h = h

pub run-IsNumbered : (past : List Statement) → IsNumbered (run past empty)
unfolding run
run-IsNumbered [] = tt
run-IsNumbered (s ∷ past) = execute-IsNumbered s (run past empty) (run-IsNumbered past)

those-none :
    (us : List User) (i : ℤ)
    → any (λ (x : User). x.id == i) us ≡ false
    → those (λ (x : User). x.id == i) us ≡ []
unfolding any
those-none [] i h = refl
those-none (u ∷ us) i h = ground (arith, those-none us i)

-- The one user of an id that is there.
pub those-Numbered :
    (us : List User) (n : ℕ) (i : ℤ)
    → Numbered us n
    → any (λ (x : User). x.id == i) us ≡ true
    → (u : User) × (those (λ (x : User). x.id == i) us ≡ u ∷ []) × (u.id ≡ i)
unfolding any
those-Numbered [] n i k h = absurd (cc)
those-Numbered (u ∷ us) n i (j, f, r) h = elim (eqb-cases u.id i) [
  | inl (t, e) ↦ (
    u,
    rw (t, those-none us i (subst (λ z. any (λ (x : User). x.id == z) us ≡ false) e f)) refl,
    e,
  )
  | inr (g, ne) ↦ let (v, q, e) = those-Numbered us n i r (rw g at h) in (v, rw (g, q) refl, e)
]
