-- ===== src/Earthquake/Means.antt =====
-- `meansensors` against the readings that it takes.
use live_streamer.Common.{ℕ, zero, suc, ◌+◌, ◌≤◌, ◌<◌, ◌≡◌, List, [], ◌∷◌, arith}
use live_streamer.Common.Int.{ℤ, +ℤ_assoc, zero-add, add-zero}
use live_streamer.Earthquake.{Axes, Device, Sensor}
use live_streamer.Earthquake.Offsets.{
  no_axes, add_axes, div_axes, mean_step, mean_loop, meansensors,
}

-- The sum on each axis.
unfoldable pub total : List (Axes ℤ) → Axes ℤ
total [] = no_axes
total (r ∷ rs) = add_axes r (total rs)

add_axes_assoc : (a b c : Axes ℤ) → add_axes (add_axes a b) c ≡ add_axes a (add_axes b c)
add_axes_assoc a b c =
    ground (arith, +ℤ_assoc a.x b.x c.x, +ℤ_assoc a.y b.y c.y, +ℤ_assoc a.z b.z c.z)

add_axes_nil : (a : Axes ℤ) → add_axes a no_axes ≡ a
add_axes_nil a = ground (arith, add-zero a.x, add-zero a.y, add-zero a.z)

nil_add_axes : (a : Axes ℤ) → add_axes no_axes a ≡ a
nil_add_axes a = ground (arith, zero-add a.x, zero-add a.y, zero-add a.z)

module _ {World : Type 0} ⦃dev : Device World⦄ where
  -- The next readings of the sensor, and the sensor after them.
  unfoldable pub readings : ℕ → World → List (Axes ℤ)
  readings zero w = []
  readings (suc n) w = (dev.get_motion w).0 ∷ readings n (dev.get_motion w).1

  unfoldable pub after : ℕ → World → World
  after zero w = w
  after (suc n) w = after n (dev.get_motion w).1

  pub after_add : (k n left : ℕ) (w : World) → n ≡ k + left → after n w ≡ after left (after k w)
  unfolding after
  after_add zero n left w e = ground arith
  after_add (suc k) zero left w e = absurd (omega arith)
  after_add (suc k) (suc n) left w e = after_add k n left (dev.get_motion w).1 (omega arith)

  mean_step_discards :
      (size i : ℕ) (buff : Axes ℤ) (s : Sensor World)
      → i ≤ 100
      → 0 < size
      → mean_step size i buff s ≡ (buff, record s { world = (dev.get_motion s.world).1 })
  unfolding mean_step
  mean_step_discards size i buff s h p = ground arith

  mean_step_collects :
      (size i : ℕ) (buff : Axes ℤ) (s : Sensor World)
      → 100 < i
      → i < size + 100
      → mean_step size i buff s ≡ (
        add_axes buff (dev.get_motion s.world).0,
        record s { world = (dev.get_motion s.world).1 },
      )
  unfolding mean_step
  mean_step_collects size i buff s h p = ground arith

  mean_step_last :
      (size i : ℕ) (buff : Axes ℤ) (s : Sensor World)
      → 0 < size
      → i ≡ size + 100
      → mean_step size i buff s ≡ (
        add_axes buff (dev.get_motion s.world).0,
        record s {
          world = (dev.get_motion s.world).1;
          mean = div_axes (add_axes buff (dev.get_motion s.world).0) size;
        },
      )
  unfolding mean_step
  mean_step_last size i buff s h p = ground arith

  -- The first 101 rounds leave only the sensor changed.
  mean_loop_discards :
      (size k n left i : ℕ) (buff : Axes ℤ) (s : Sensor World)
      → n ≡ k + left
      → i + k ≤ 101
      → 0 < size
      → mean_loop size n i buff s
        ≡ mean_loop size left (i + k) buff (record s { world = after k s.world })
  unfolding mean_loop after
  mean_loop_discards size zero n left i buff s e h p = ground arith
  mean_loop_discards size (suc k) zero left i buff s e h p = absurd (omega arith)
  mean_loop_discards size (suc k) (suc n) left i buff s e h p =
      rw
        (
          mean_step_discards size i buff s (omega arith) p,
          mean_loop_discards size k n left (i + 1) buff
              (record s { world = (dev.get_motion s.world).1 }) (omega arith) (omega arith) p,
        )
        (ground arith)

  mean_loop_collects :
      (size left i : ℕ) (buff : Axes ℤ) (s : Sensor World)
      → 100 < i
      → i + suc left ≡ size + 101
      → 0 < size
      → mean_loop size (suc left) i buff s ≡ record s {
        world = after (suc left) s.world;
        mean = div_axes (add_axes buff (total (readings (suc left) s.world))) size;
      }
  unfolding mean_loop after readings total
  mean_loop_collects size zero i buff s h e p =
      ground (
        arith,
        mean_step_last size i buff s p (omega arith),
        add_axes_nil (dev.get_motion s.world).0,
      )
  mean_loop_collects size (suc left) i buff s h e p = ground (
    arith,
    mean_step_collects size i buff s h (omega arith),
    mean_loop_collects size left (i + 1) (add_axes buff (dev.get_motion s.world).0)
        (record s { world = (dev.get_motion s.world).1 }) (omega arith) (omega arith) p,
    add_axes_assoc buff (dev.get_motion s.world).0
        (total (readings (suc left) (dev.get_motion s.world).1)),
  )

  -- The means are those of the 1000 (`buffersize`) readings that follow the first 101, rounded
  -- towards zero, and nothing but the means and the sensor changes.
  pub meansensors-total :
      (size : ℕ) (s : Sensor World)
      → 0 < size
      → meansensors size s ≡ record s {
        world = after (size + 101) s.world;
        mean = div_axes (total (readings size (after 101 s.world))) size;
      }
  unfolding meansensors
  meansensors-total zero s p = absurd (omega arith)
  meansensors-total (suc k) s p = ground (
    arith,
    mean_loop_discards (suc k) 101 (suc k + 101) (suc k) 0 no_axes s (omega arith) (omega arith) p,
    mean_loop_collects (suc k) k 101 no_axes (record s { world = after 101 s.world }) (omega arith)
        (omega arith) p,
    after_add 101 (suc k + 101) (suc k) s.world (omega arith),
    nil_add_axes (total (readings (suc k) (after 101 s.world))),
  )
