-- ===== src/Earthquake/Stuck.antt =====
-- A sensor whose vertical axis does not follow the offsets: `SetOffsetOfMPU` never returns.
use live_streamer.Common.{ℕ, zero, suc, ◌<◌, ◌≡◌, refl, none, false, arith}
use live_streamer.Common.Int.{ℤ, pos, ◌-ℤ◌}
use live_streamer.Earthquake.{Device, Sensor}
use live_streamer.Earthquake.Offsets.{
  no_axes, first_offset, is_quiet, data_ready, meansensors, write_offsets, measure, adjust,
  calibration_loop, calibration, set_offset_of_mpu,
}
use live_streamer.Earthquake.Ideal.{times, div_ℤ-times}
use live_streamer.Earthquake.Means.{total, readings, after, meansensors-total}

module _ {World : Type 0} ⦃dev : Device World⦄ (v : ℤ)
    (fixed : (w : World) → (dev.get_motion w).0.z ≡ v)
    (off : is_quiet (pos 16384 -ℤ v) ≡ false) where
  total_fixed : (n : ℕ) (w : World) → (total (readings n w)).z ≡ times n v
  unfolding total readings times
  total_fixed zero w = refl
  total_fixed (suc n) w = ground (arith, fixed w, total_fixed n (dev.get_motion w).1)

  mean_fixed : (size : ℕ) (s : Sensor World) → 0 < size → (meansensors size s).mean.z ≡ v
  mean_fixed size s h = ground (
    arith,
    meansensors-total size s h,
    total_fixed size (after 101 s.world),
    div_ℤ-times size v h,
  )

  calibration_loop_stuck :
      (size fuel : ℕ) (s : Sensor World) → 0 < size → calibration_loop size fuel s ≡ none
  unfolding calibration_loop measure data_ready
  calibration_loop_stuck size zero s h = refl
  calibration_loop_stuck size (suc fuel) s h = ground (
    arith,
    mean_fixed size (write_offsets s.offset s) h,
    calibration_loop_stuck size fuel (adjust (measure size s)) h,
  )

  -- If the vertical axis reads the same value for ever, and it is more than 8 away from 16384
  -- (a sensor that is not connected reads 0), `SetOffsetOfMPU` does not return after any number of
  -- rounds of the calibration, which has no bound of its own.
  pub set_offset_of_mpu_stuck :
      (size fuel : ℕ) (s : Sensor World) → 0 < size → set_offset_of_mpu size fuel s ≡ none
  unfolding set_offset_of_mpu calibration
  set_offset_of_mpu_stuck size fuel s h =
      let read = meansensors size (write_offsets no_axes s) in
      ground (
        arith,
        calibration_loop_stuck size fuel (record read { offset = first_offset read.mean }) h,
      )
