-- ===== src/Vio/Profile.antt =====
-- `validate_profile`: the checks of a shadow profile, in their order. Its errors are texts; the
-- lists of keys in them are left out.
pub mod Keys
pub mod Checks
pub mod Streams
pub mod Sections
pub mod Whole
pub mod Safe
mod Preflight
mod Examples
