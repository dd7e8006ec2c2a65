-- ===== src/Limits.antt =====
-- src/limits: rate limits per network, the mail budgets and the client address.
pub mod Address
pub mod Bucket
pub mod Rate
pub mod MailBudget
pub mod MailAddress
pub mod Served
pub mod ClientIp
pub mod Tests
