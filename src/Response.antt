-- ===== src/Response.antt =====
-- src/flight_safety/response.py and src/flight_safety/actions.py: the L3 response node. The parts
-- are the setpoints, the node's state with its callbacks, the periodic tick, the external
-- termination service, and runs of all of them.
pub mod Setpoint
pub mod Node
pub mod Display
pub mod Tick
pub mod Termination
pub mod Run
mod Examples
