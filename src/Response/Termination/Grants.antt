-- ===== src/Response/Termination/Grants.antt =====
-- Theorems about the external termination.
use flight_safety.Response.Termination.{Ack, fcu_fresh, kill_result, request_termination}
use flight_safety.Prelude.{Bool, arith, false, not, true, ◌&&◌, ◌||◌, ◌≡◌}
use flight_safety.Response.Node.{Config, Node, is_manual, is_offboard, normal_is_fresh, pilot_kill}
use flight_safety.Diagnosis.{Time}
use flight_safety.Response.Tick.Branches.{commands_kill}

-- The service is enabled; the FCU's state is fresh, connected, armed and OFFBOARD; a Normal stream
-- of this session is admitted and fresh; and no kill is latched, switched or under way.
unfoldable pub may_terminate : Config → Time → Node → Bool
may_terminate cfg now s =
    cfg.allow_external_termination
    && (fcu_fresh s.fcu_received now
        && (s.fcu_connected
            && (s.armed
                && (is_offboard s.mode
                    && (s.offboard_admitted
                        && (normal_is_fresh cfg s now
                            && (not s.killed
                                && (not (pilot_kill cfg s) && not s.termination_busy))))))))

offboard_not_manual : (s : Node) → is_offboard s.mode ≡ true → is_manual s ≡ false
unfolding is_manual
offboard_not_manual s h = ground arith

-- The handler sends the force-disarm exactly when the request may terminate; it then latches
-- `killed` exactly when the vehicle acknowledged; a refused request changes nothing; and no request
-- leaves the busy flag set that was clear.
pub request_termination_lem :
    (cfg : Config) (now : Time) (ack : Ack) (s : Node)
    → let (s', sent) = request_termination cfg now ack s in
      (commands_kill sent ≡ may_terminate cfg now s)
      × (s'.killed ≡ (s.killed || (may_terminate cfg now s && kill_result ack)))
      × (s'.termination_busy ≡ s.termination_busy)
      × (may_terminate cfg now s ≡ false → s' ≡ s)
unfolding request_termination may_terminate
request_termination_lem cfg now ack s = ground (arith, offboard_not_manual s)
