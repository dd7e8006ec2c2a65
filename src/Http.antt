-- ===== src/Http.antt =====
-- src/http/.
pub mod Fetch
