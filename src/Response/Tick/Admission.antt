-- ===== src/Response/Tick/Admission.antt =====
-- Theorems about ticks that leave OFFBOARD without admission.
use flight_safety.Prelude.{◌≡◌}
use flight_safety.Response.Tick.{Effect, publish_setpoint}
use flight_safety.Response.Node.{Config, Node}
use flight_safety.Response.Setpoint.{land_setpoint, stamped}

-- The effect is no setpoint, or the descent.
abbrev pub IsDescent : Config → Effect → Type 0
IsDescent cfg (publish_setpoint sp) = stamped 0 sp ≡ land_setpoint cfg.descend
IsDescent cfg _ = Unit
