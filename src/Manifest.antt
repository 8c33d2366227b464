-- ===== src/Manifest.antt =====
-- runtime_manifest.py: the sidecar file of one recording.
pub mod Names
pub mod Compare
pub mod Differences
pub mod Sidecar
pub mod Finished
mod Examples
