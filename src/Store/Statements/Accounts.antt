-- ===== src/Store/Statements/Accounts.antt =====
-- Registration and login of cmd/server/internal/auth/service.go over the SQL of
-- cmd/server/internal/store/users.sql.go.
use chattui.Common.{
  ℕ, ◌+◌, String, true, false, List, [], ◌∷◌, ◌++◌, ◌==◌, string_key, eqb_refl, ◌≡◌, refl, sym, ap,
  arith, Bool-cases, inl, inr,
}
use chattui.Errs.{Result, ok}
use chattui.Store.Models.{User}
use chattui.Store.Relations.{any, one, one-append}
use chattui.Store.Database.{Database}
use chattui.Store.Users.{create_user, get_user_by_username, new_user}
use chattui.Store.Statements.{Statement, run, user_store}
use chattui.Store.Statements.Growth.{run-Grown, Extends-one}
use chattui.Auth.{Config, Input, Session, CreateUserParams, register, login}
use chattui.Auth.Libraries.{Jwt, IsSigner, Bcrypt, IsBcrypt}
use chattui.Auth.Accounts.{IsUserStore, register-created}
use chattui.Auth.Tokens.{session_for-again}

-- A user that is made has a new name.
create_user-made :
    (p : CreateUserParams) (d d' : Database) (u : User)
    → create_user p d ≡ (ok u, d')
    → (any (λ (u : User). u.username == p.username) d.users ≡ false)
      × (u ≡ new_user p d)
      × (d'.users ≡ d.users ++ new_user p d ∷ [])
unfolding create_user
create_user-made p d d' u h =
    elim (Bool-cases (any (λ (u : User). u.username == p.username) d.users)) [
      | inl t ↦ absurd (ground (arith, t))
      | inr f ↦
          let e = rw f at h in
          (
            f,
            ground (arith, ap (λ (x : Result User × Database). x.0) e),
            ap (λ (x : Result User × Database). x.1.users) (sym e),
          )
    ]

get-create_user :
    (p : CreateUserParams) (d d' : Database) (u : User)
    → create_user p d ≡ (ok u, d')
    → get_user_by_username p.username d' ≡ ok u
unfolding get_user_by_username one
get-create_user p d d' u h =
    let (f, e, g) = create_user-made p d d' u h in
    rw
      (
        g,
        one-append (λ (u : User). u.username == p.username) d.users (new_user p d ∷ []),
        f,
        eqb_refl p.username,
        e,
      )
      refl

-- The users table is what the auth service asks of its store.
user_store-IsUserStore : IsUserStore user_store
user_store-IsUserStore = record {
  keeps_hash = λ p d d' u h. ap (λ x. x.password) (create_user-made p d d' u h).1;
  finds_created = get-create_user;
}

get-run :
    (past : List Statement) (d : Database) (name : String) (u : User)
    → get_user_by_username name d ≡ ok u
    → get_user_by_username name (run past d) ≡ ok u
unfolding get_user_by_username
get-run past d name u h =
    Extends-one (λ (u : User). u.username == name) d.users _ u (run-Grown past d).users h

module _ {K : Type 0} (J : Jwt K) (C : Bcrypt) (cfg : Config K) where
  -- Where bcrypt accepts the hash it made, and a key that has signed once signs again: a login at
  -- any later time with the name and password of a user who has registered succeeds, whatever
  -- statements were sent to the database since, whether they failed or not. The new session is for
  -- the same user, and lasts for the configured time from the login on.
  pub registered_user_keeps_account :
      IsBcrypt C
      → IsSigner J
      → (in_ : Input) (now later : ℕ) (d d' : Database) (s : Session)
      → register J C cfg user_store in_ now d ≡ (ok s, d')
      → (since : List Statement)
      → (s' : Session) × (login J C cfg user_store in_ later (run since d') ≡ ok s')
        × (s'.user_id ≡ s.user_id)
        × (s'.username ≡ s.username)
        × (s'.expires_at ≡ later + cfg.access_ttl)
  unfolding login
  registered_user_keeps_account LC LJ in_ now later d d' s h since =
      let (hash, u, q, c, r) = register-created J C cfg user_store in_ now d d' s h in
      let p : CreateUserParams = record { username = in_.username; password = hash } in
      let found : get_user_by_username in_.username (run since d') ≡ ok u =
        get-run since d' in_.username u (get-create_user p d d' u c) in
      let fits : C.compare_hash_and_password u.password in_.password ≡ true =
        rw (user_store-IsUserStore.keeps_hash p d d' u c)
          (LC.compares_generated in_.password hash q) in
      let (s', made, of_user, named, until) = session_for-again J cfg LJ u now later s r in
      (s', rw (login, found, fits) made, of_user, named, until)
