-- ===== src/Auth/Audit.antt =====
-- `audit` of src/audit.rs: one entry of the log, in the caller's transaction.
use kohaku.Base.{ℕ, [], ◌∷◌, ◌++◌}
use kohaku.Db.{Db, Actor, Action, Target}

unfoldable pub audit : Db → Actor → Action → Target → ℕ → Db
audit db actor action target time = record db {
  audit_log =
      db.audit_log
      ++ (record { actor = actor; action = action; target = target; time = time } ∷ []);
}
