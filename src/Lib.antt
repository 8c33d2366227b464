-- ===== src/Lib.antt =====
-- Verification of flight_safety, the safety monitor of an indoor autonomous drone: three ROS
-- nodes in a chain, and the evidence tools beside them.
--
-- The chain. Reporters (src/flight_safety/diagnosis) judge one subsystem each and publish a level,
-- OK, WARN or ERROR. The monitor (src/flight_safety/monitor.py, scripts/monitor_node.py) keeps the
-- last report of each watched source, counts a silent source as ERROR, caps each source's level by
-- its policy, and publishes the worst level as a fault. The response node
-- (src/flight_safety/response.py, actions.py, touchdown.py) reads the fault, the vehicle's state,
-- the pilot's channels, the planner's Normal setpoints and the IMU, and alone sends setpoints and
-- the force-disarm to the vehicle.
--
-- Which file models what:
--   Prelude              numbers, lists, signed integers, floats, text; shared by all
--   Json                 the values that JSON and YAML give, for the profile and the provenance
--   Diagnosis            diagnosis/__init__.py: levels, rendered texts, status, ROS time
--   Diagnosis.Geofence   diagnosis/geofence.py: GeofenceDiag (__init__ is `init`, then `on_pose`,
--                        `on_fallback_pose`, `status`, `run_diag`, `color`); below it Totality,
--                        Walls and Nan hold its theorems
--   Diagnosis.Consistency, Diagnosis.Liveness
--                        consistency.py and liveness.py, theorems in their Laws
--   Monitor              monitor.py: Monitor (`init`, `on_diag`, `worst`); theorems in Worst, Reports
--   Touchdown            touchdown.py: TouchdownDetector.update is `update`; theorems in Fires and
--                        Bursts; Attitude has world_vert
--   Response             response.py: Setpoint (the messages), Node (state and callbacks), Display
--                        (_publish_state), Tick (_tick), Termination (_request_termination with
--                        actions.py), Run (runs of all events); theorems in the modules below these
--   Evidence             append_only_evidence.py: Paths (_checked_relative), SelfHash, Run (__init__),
--                        Store (AppendOnlyRun's other methods), Bundle
--                        (validate_source_bundle_manifest); theorems in Inside, Confined,
--                        WriteOnce, Recorded, Receipt, Bound
--   Vio                  vio_shadow.py: Identity (IdentityAccumulator; Summary has its gates), Linkage
--                        (LinkageAccumulator; theorems in Propagated, OneToOne, Passed), Stream
--                        (StreamAccumulator's timing and frames; Order, Summary), Hybrid
--                        (HybridImuAccumulator: Ready, Domain, Gates; theorems in
--                        Unchanged, Late, Measured, Passed),
--                        Profile (validate_profile: Checks, Streams, Sections, Whole; Safe),
--                        Candidate (evaluate_candidate_provenance: Trees, Gates; theorems in
--                        Merged, Apart, Same, Agreement, Built, Exact), Texts, Gates
--   Recorder             scripts/recorder_node.py: Paths (the path texts), Node (state and actions),
--                        Start (_start), Stop (_stop), Orphans (_recover_orphans), Session
--                        (_on_state and runs); theorems in Ready, Session, Orphans.Requeued
--   Manifest             runtime_manifest.py: Names (path_for_bag), Compare (_compare_snapshots),
--                        Sidecar (start, _capture_start, finish); theorems in Differences,
--                        Finished
--   Pipeline             a report's way through the monitor to the vehicle
-- The Examples modules hold tests on concrete inputs.
--
-- How the model corresponds. A callback is a function from the node's record to the new record; a
-- tick also returns the list of what it sends. Times are whole nanoseconds and a difference of two
-- times is signed. A `float` is NaN, an infinity, or an integer count of a small unit: the special
-- values compare as IEEE says, and rounding is left out. `math.sqrt` is an argument. A formatted
-- text is kept as its pieces. `type_mask` is the record of its IGNORE bits. A Python exception is
-- `none` or an error. Callbacks are atomic, but the termination request is two events, since other
-- callbacks run while the vehicle's service is called; the services' answers are events that the
-- environment chooses. All loops are over finite lists: there is no fuel.
--
-- Not modelled: logging, ROS start-up and parameter reading, the rviz marker, what the
-- run-time manifest captures of the host, git and ROS, the rest of the VIO shadow metrics
-- (scripts/vio_shadow_preflight.py included), the FCU audit, the HTTP client flightrec.py, and
-- include/flight_safety (C++, for other packages). Of the evidence, the operating system's answers,
-- the JSON and UTF-8 encodings and SHA-256 are arguments, and directories made for the parents of a
-- file are not entries. In the texts of the VIO identity, the digits and blanks are those of ASCII.
pub mod Prelude
pub mod Json
pub mod Diagnosis
pub mod Touchdown
pub mod Monitor
pub mod Response
pub mod Pipeline
pub mod Evidence
pub mod Vio
pub mod Recorder
pub mod Manifest
