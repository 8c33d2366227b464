-- ===== src/Vio/Candidate.antt =====
-- `evaluate_candidate_provenance` of src/flight_safety/vio_shadow.py, which compares the running
-- estimator with the selected parameters, build and sources. The canonical hash of a value is an
-- argument.
pub mod Trees
pub mod Gates
pub mod Merged
pub mod Apart
pub mod Same
pub mod Agreement
pub mod Built
pub mod Exact
mod Examples
