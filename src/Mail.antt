-- ===== src/Mail.antt =====
-- src/mail: the outbox and the text rules of mail.
pub mod Retry
pub mod Wording
pub mod Kind
pub mod Enqueue
pub mod GiveUp
pub mod Pick
pub mod Attempt
pub mod Lifecycle
pub mod Invariant
pub mod Order
pub mod Choice
pub mod Tests
