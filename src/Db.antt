-- ===== src/Db.antt =====
-- cmd/server/internal/db: a database that begins transactions. The driver, pgx, is a parameter: a
-- transaction is a state `T` that its queries change, and the database `D` stays as it is until the
-- commit.
pub mod Copying
use chattui.Common.{Option, none, some, ◌≡◌}
use chattui.Errs.{Error, Result, ok, err}

-- db.Beginner, with the methods of the transaction that it returns.
pub record Beginner (D T : Type 0) : Type 0 where
  pub begin : D → Result T × D
  pub commit : T → D → Option Error × D
  pub rollback : T → D → D

-- What pgx documents and PostgreSQL keeps: what fails changes nothing, and a rollback changes
-- nothing, whether the transaction is open or over. A commit that the server has applied, and whose
-- answer is lost with the connection, is left out by `commit_fails`.
pub record IsTransactional {D T : Type 0} (B : Beginner D T) : Type 0 where
  pub begin_fails : (d d' : D) (e : Error) → B.begin d ≡ (err e, d') → d' ≡ d
  pub begin_keeps : (d d' : D) (t : T) → B.begin d ≡ (ok t, d') → d' ≡ d
  pub commit_fails : (t : T) (d d' : D) (e : Error) → B.commit t d ≡ (some e, d') → d' ≡ d
  pub rollback_keeps : (t : T) (d : D) → B.rollback t d ≡ d
