-- ===== src/Config.antt =====
-- src/config.rs: the values that the environment gives, and how they are read. A text is the list of
-- its Unicode scalar values: a rule that counts bytes refuses every text with a character outside
-- ASCII as well, so that it does not matter which are counted.
pub mod Rule
pub mod Decimal
pub mod DnsName
pub mod BaseUrl
pub mod Proxies
pub mod Values
pub mod Steps
pub mod Reader
pub mod Tests
