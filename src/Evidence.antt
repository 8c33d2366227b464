-- ===== src/Evidence.antt =====
-- src/flight_safety/append_only_evidence.py: the evidence directory. Paths are lists of their
-- parts; the disk is a dictionary from normalised path texts to contents.
pub mod Paths
pub mod SelfHash
pub mod Store
pub mod Run
pub mod Bundle
mod Examples
