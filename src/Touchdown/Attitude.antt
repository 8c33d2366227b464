-- ===== src/Touchdown/Attitude.antt =====
-- `world_vert`: the world-up component of the specific force. Components are integers: a
-- quaternion component counts 1/k and `one` is k², so the result counts 1/k² of the force's unit.
use flight_safety.Prelude.{◌≡◌}
use flight_safety.Prelude.Int.{pos, ℤ, ◌*ℤ◌, ◌+ℤ◌, ◌-ℤ◌, zero_laws}

pub record Quaternion : Type 0 where
  pub x : ℤ
  pub y : ℤ
  pub z : ℤ
  pub w : ℤ

unfoldable pub world_vert : ℤ → Quaternion → ℤ → ℤ → ℤ → ℤ
world_vert one q ax ay az =
    pos 2 *ℤ (q.x *ℤ q.z +ℤ q.w *ℤ q.y) *ℤ ax
    +ℤ pos 2 *ℤ (q.y *ℤ q.z -ℤ q.w *ℤ q.x) *ℤ ay
    +ℤ (one -ℤ pos 2 *ℤ (q.x *ℤ q.x +ℤ q.y *ℤ q.y)) *ℤ az

-- With no roll and no pitch the result is the body's vertical force, whatever the heading and
-- whatever the lateral force.
pub world_vert-level :
    (one z w ax ay az : ℤ)
    → world_vert one (record { x = pos 0; y = pos 0; z = z; w = w }) ax ay az ≡ one *ℤ az
unfolding world_vert
world_vert-level one z w ax ay az = simp zero_laws
