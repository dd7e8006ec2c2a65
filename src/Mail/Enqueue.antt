-- ===== src/Mail/Enqueue.antt =====
-- `enqueue` of src/mail/outbox.rs: queueing a mail in the caller's transaction.
use kohaku.Base.{ℕ, suc, ◌+◌, Bool, Option, none, some, [], ◌∷◌, ◌++◌, if◌then◌else◌}
use kohaku.Base.Text.{Text}
use kohaku.Db.{Db, OutboxRow}
use kohaku.Mail.Kind.{MailKind}

pub data Recipient : Type 0 where
  address_recipient : Text → Recipient
  user_recipient : ℕ → Recipient

pub record NewMail : Type 0 where
  pub kind : MailKind
  pub recipient : Recipient
  pub subject : Text
  pub body : Text
  pub placeholder : Bool

-- `validate_recipient` and the `subject` rule are arguments.
unfoldable pub queue : (Text → Text) → Db → NewMail → Option ℕ → Option Text → ℕ → Db × ℕ
queue subject_rule db mail user_id address now =
    let id = suc db.outbox_seq in
    let row : OutboxRow = record {
      id = id;
      kind = mail.kind.name;
      user_id = user_id;
      address = address;
      subject = subject_rule mail.subject;
      body = mail.body;
      priority = mail.kind.priority;
      token = mail.kind.token;
      placeholder = mail.placeholder;
      attempts = 0;
      next_attempt_at = now;
      queued_at = now;
      expires_at = now + mail.kind.lifetime;
      outcome = none;
    } in
    (record db { outbox = db.outbox ++ (row ∷ []); outbox_seq = id }, id)

unfoldable pub enqueue_to :
    (Text → Bool) → (Text → Text) → Db → NewMail → ℕ → Recipient → Option (Db × ℕ)
enqueue_to valid subject_rule db mail now (address_recipient address) =
    if valid address then some (queue subject_rule db mail none (some address) now) else none
enqueue_to valid subject_rule db mail now (user_recipient id) =
    some (queue subject_rule db mail (some id) none now)

-- `enqueue`; `none` is `EnqueueError::InvalidRecipient`.
unfoldable pub enqueue : (Text → Bool) → (Text → Text) → Db → NewMail → ℕ → Option (Db × ℕ)
enqueue valid subject_rule db mail now = enqueue_to valid subject_rule db mail now mail.recipient
