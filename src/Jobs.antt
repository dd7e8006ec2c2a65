-- ===== src/Jobs.antt =====
-- src/jobs.rs: when each job is due, and the retention job. The checkpoint of the database and the
-- removal of temporary files are left out.
pub mod Timely
pub mod Unseen
pub mod Tests
use kohaku.Base.{
  ℕ, zero, suc, ◌+◌, ◌*◌, min, Bool, true, false, not, ◌&&◌, ◌||◌, List, [], ◌∷◌, ◌++◌, leb, ltb,
  if◌then◌else◌, is_some,
}
use kohaku.Base.Table.{delete}
use kohaku.Db.{Db, Session, Device, Token, AuditEntry}
use kohaku.Mail.Kind.{MailKind, is_reset}
use kohaku.Mail.GiveUp.{retain}
use kohaku.Auth.Session.{idle_seconds, absolute_seconds, device_seconds}

-- In seconds.
abbrev pub sweep_every : ℕ
sweep_every = 60

abbrev pub retention_every : ℕ
retention_every = 60 * 60

abbrev pub audit_keep_seconds : ℕ
audit_keep_seconds = 365 * 24 * 60 * 60

pub data Job : Type 0 where
  sweep_job retention_job : Job

pub record Schedule : Type 0 where
  pub next_sweep : ℕ
  pub next_retention : ℕ

unfoldable pub new : ℕ → Schedule
new start = record { next_sweep = start + sweep_every; next_retention = start }

-- `while next <= now { next += every }`, on fuel; `now + 1` steps are enough for a positive period.
unfoldable pub advance : ℕ → ℕ → ℕ → ℕ → ℕ
advance every zero next now = next
advance every (suc fuel) next now =
    let rest = advance every fuel (next + every) now in if leb next now then rest else next

unfoldable pub due : Schedule → ℕ → Schedule × List Job
due s now = (
  record {
    next_sweep = advance sweep_every (suc now) s.next_sweep now;
    next_retention = advance retention_every (suc now) s.next_retention now;
  },
  (if leb s.next_sweep now then sweep_job ∷ [] else [])
      ++ (if leb s.next_retention now then retention_job ∷ [] else []),
)

unfoldable pub next_wake : Schedule → ℕ
next_wake s = min s.next_sweep s.next_retention

-- The audit step of `retention`.
unfoldable pub drop_audit : Db → ℕ → Db
drop_audit db now = record db {
  audit_log = delete (λ (e : AuditEntry). ltb (e.time + audit_keep_seconds) now) db.audit_log;
}

-- The sign-in step.
unfoldable pub drop_sign_in : Db → ℕ → Db
drop_sign_in db now = record db {
  sessions =
      delete
        (λ (s : Session).
          leb (s.last_seen + idle_seconds) now || leb (s.created_at + absolute_seconds) now)
        db.sessions;
  tokens =
      delete (λ (t : Token). is_reset t.purpose && (is_some t.used_at || leb t.expires_at now))
        db.tokens;
  known_devices = delete (λ (d : Device). leb (d.created_at + device_seconds) now) db.known_devices;
}

-- `retention`, whose steps are transactions of their own.
unfoldable pub retention : List MailKind → ℕ → Db → ℕ → Db
retention kinds clock db now = drop_sign_in (drop_audit (retain kinds clock db now) now) now
