-- ===== src/Vio.antt =====
-- src/flight_safety/vio_shadow.py: the gates of a shadow run of the visual odometry. Times are whole
-- nanoseconds, and the configured limits too.
pub mod Texts
pub mod Gates
pub mod Identity
pub mod Linkage
pub mod Stream
pub mod Hybrid
pub mod Profile
pub mod Candidate
mod Examples
