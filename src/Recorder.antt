-- ===== src/Recorder.antt =====
-- scripts/recorder_node.py: the recorder of one bag for each arming.
pub mod Paths
pub mod Node
pub mod Start
pub mod Stop
pub mod Orphans
pub mod Ready
pub mod Session
mod Examples
