-- ===== src/Ssrf.antt =====
-- src/util/ssrf.rs: the guard in front of every fetch of a URL that a caller names.
pub mod Address
pub mod Url
pub mod Normalize
pub mod Fetch
pub mod Guard
pub mod Redirects
pub mod Failures
pub mod Tests
