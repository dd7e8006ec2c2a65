-- ===== src/Auth.antt =====
-- src/auth: the credential check with its lockout, the second factors, sessions and devices.
pub mod Crypto
pub mod Totp
pub mod Recovery
pub mod Session
pub mod Lockout
pub mod Credentials
pub mod Audit
pub mod Reset
pub mod Account
