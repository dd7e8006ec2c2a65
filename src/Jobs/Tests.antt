-- ===== src/Jobs/Tests.antt =====
-- The schedule and the sign-in step of src/jobs.rs on concrete values.
use kohaku.Base.{◌≡◌, none, any, leb, [], ◌∷◌, arith}
use kohaku.Base.Text.{codes}
use kohaku.Db.{Db}
use kohaku.Auth.Session.{current, is_known_device}
use kohaku.Auth.Reset.{token_valid}
use kohaku.Jobs.{Schedule, due, drop_sign_in, sweep_every, retention_every}
use kohaku.Jobs.Timely.{IsMoved, is_sweep, is_retention, due-IsMoved}
use kohaku.Jobs.Unseen.{drop_sign_in-unseen}

abbrev schedule : Schedule
schedule = record { next_sweep = 60; next_retention = 3600 }

due-IsMoved_example :
    (any is_sweep (due schedule 200).1 ≡ leb schedule.next_sweep 200)
    × (any is_retention (due schedule 200).1 ≡ leb schedule.next_retention 200)
    × IsMoved sweep_every schedule.next_sweep 200 (due schedule 200).0.next_sweep
    × IsMoved retention_every schedule.next_retention 200 (due schedule 200).0.next_retention
due-IsMoved_example = due-IsMoved schedule 200

abbrev idle : Db
idle = record {
  users = [];
  sessions =
      record {
        id = 4;
        token_hash = codes "t";
        user_id = 3;
        csrf_token = codes "c";
        created_at = 100;
        last_seen = 100;
        pending_totp_nonce = none;
      }
      ∷ [];
  known_devices = record { id = 1; user_id = 3; token_hash = codes "d"; created_at = 90 } ∷ [];
  recovery_codes = [];
  tokens = [];
  tokens_seq = 0;
  outbox = [];
  outbox_seq = 0;
  audit_log = [];
  projects = [];
  projects_seq = 0;
}

drop_sign_in-unseen_example :
    ((current (drop_sign_in idle 50000) (codes "t") 50001).1 ≡ (current idle (codes "t") 50001).1)
    × (is_known_device (drop_sign_in idle 50000) 3 (codes "t") 50001
        ≡ is_known_device idle 3 (codes "t") 50001)
    × (token_valid (drop_sign_in idle 50000) (codes "t") 50001 ≡ token_valid idle (codes "t") 50001)
drop_sign_in-unseen_example = drop_sign_in-unseen idle 50000 50001 3 (codes "t") (omega arith)
