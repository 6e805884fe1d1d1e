-- ===== src/Db/Copying.antt =====
-- A database whose transactions work on a copy of it, and which never fails.
use chattui.Common.{none, refl, sym, ap}
use chattui.Errs.{Result, ok}
use chattui.Db.{Beginner, IsTransactional}

module _ {D : Type 0} where
  abbrev pub copying : Beginner D D
  copying = record { begin = λ d. (ok d, d); commit = λ t d. (none, t); rollback = λ t d. d }

  pub copying-IsTransactional : IsTransactional copying
  copying-IsTransactional = record {
    begin_fails = λ d d' e p. sym (ap (λ (r : Result D × D). r.1) p);
    begin_keeps = λ d d' t p. sym (ap (λ (r : Result D × D). r.1) p);
    commit_fails = λ t d d' e p. absurd (cc);
    rollback_keeps = λ t d. refl;
  }
