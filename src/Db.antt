-- ===== src/Db.antt =====
-- The tables of migrations/0001 to 0003 as one state. A statement that the database itself refuses
-- (a full disk, a busy file) is not modelled; a transaction that the program gives up leaves the
-- state as it was.
use kohaku.Base.{ℕ, Bool, Option, List}
use kohaku.Base.Int.{ℤ}
use kohaku.Base.Text.{Text}

pub data Role : Type 0 where
  admin maintainer : Role

pub record User : Type 0 where
  pub id : ℕ
  pub email : Text
  pub password_hash : Option Text
  pub role : Role
  pub disabled : Bool
  pub totp_nonce : Option Text
  pub totp_last_step : Option ℤ
  pub failed_logins : ℕ
  pub locked_until : Option ℕ
  pub device_failures : ℕ
  pub device_window_start : Option ℕ
  pub lockout_mailed_at : Option ℕ
  pub created_at : ℕ

pub record Session : Type 0 where
  pub id : ℕ
  pub token_hash : Text
  pub user_id : ℕ
  pub csrf_token : Text
  pub created_at : ℕ
  pub last_seen : ℕ
  pub pending_totp_nonce : Option Text

pub record Device : Type 0 where
  pub id : ℕ
  pub user_id : ℕ
  pub token_hash : Text
  pub created_at : ℕ

pub record RecoveryCode : Type 0 where
  pub user_id : ℕ
  pub code_hash : Text

pub data Purpose : Type 0 where
  reset setup invite : Purpose

pub record Token : Type 0 where
  pub id : ℕ
  pub purpose : Purpose
  pub token_hash : Text
  pub user_id : Option ℕ
  pub expires_at : ℕ
  pub used_at : Option ℕ

pub data Priority : Type 0 where
  security normal : Priority

pub data MailOutcome : Type 0 where
  sent given_up : MailOutcome

pub record OutboxRow : Type 0 where
  pub id : ℕ
  pub kind : Text
  pub user_id : Option ℕ
  pub address : Option Text
  pub subject : Text
  pub body : Text
  pub priority : Priority
  pub token : Bool
  pub placeholder : Bool
  pub attempts : ℕ
  pub next_attempt_at : ℕ
  pub queued_at : ℕ
  pub expires_at : ℕ
  pub outcome : Option MailOutcome

-- The columns of a project that its administrator changes (src/projects/mod.rs).
pub record Settings : Type 0 where
  pub name : Text
  pub public_host : Option Text
  pub screenshots_enabled : Bool
  pub features_enabled : Bool
  pub require_email : Bool
  pub plus_one_enabled : Bool
  pub privacy_notice : Option Text
  pub security_contact : Option Text

pub record ProjectRow : Type 0 where
  pub id : ℕ
  pub slug : Text
  pub settings : Settings
  pub created_at : ℕ

-- Who acted, what happened and what it happened to (src/audit.rs).
pub data Actor : Type 0 where
  cli : Actor
  user : ℕ → Role → Actor

pub data Action : Type 0 where
  instance_restore user_unlock user_reset_link user_password_change user_password_reset : Action
  user_totp_enable user_totp_disable user_recovery_codes user_sessions_end : Action
  project_create project_update project_delete : Action

pub data Target : Type 0 where
  instance_target : Target
  user_target project_target : ℕ → Target

pub record AuditEntry : Type 0 where
  pub actor : Actor
  pub action : Action
  pub target : Target
  pub time : ℕ

-- `outbox_seq`, `tokens_seq` and `projects_seq` are the last ids that AUTOINCREMENT gave out.
pub record Db : Type 0 where
  pub users : List User
  pub sessions : List Session
  pub known_devices : List Device
  pub recovery_codes : List RecoveryCode
  pub tokens : List Token
  pub tokens_seq : ℕ
  pub outbox : List OutboxRow
  pub outbox_seq : ℕ
  pub audit_log : List AuditEntry
  pub projects : List ProjectRow
  pub projects_seq : ℕ
