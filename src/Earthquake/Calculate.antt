-- ===== src/Earthquake/Calculate.antt =====
-- EARTHQUAKE.cpp, `EarthQuakeCalculate`, `EarthQuakeUsingAccel` and `EarthQuakeUsingVelocity`.
use live_streamer.Common.{ℕ, zero, suc, ◌&&◌, ◌==◌, none, some, if◌then◌else◌}
use live_streamer.Common.Int.{ℤ, pos, negsuc, abs, ◌+ℤ◌, ◌-ℤ◌}
use live_streamer.Earthquake.{Axes, Device}
use live_streamer.Earthquake.Offsets.{set_offset_of_mpu}
use live_streamer.Earthquake.Floats.{Floats}
use live_streamer.Earthquake.Report.{Basis, pga_verdict, pgv_verdict, report}
use live_streamer.Earthquake.Monitor.{
  Line, Monitor, Act, next, ◌>>◌, modify, when, say, set_world, read_raw, beta, one, no_floats,
  low_pass, in_g, fabs_axes,
}

module _ {F : Type 0} ⦃fl : Floats F⦄ where
  -- `((int)(a * 100 + .5) / 100.0)`
  unfoldable pub round_two : F → F
  round_two a =
      let hundred = fl.of_int (pos 100) in
      fl.div (fl.of_int (fl.trunc (fl.add (fl.mul a hundred) (fl.lit 50000)))) (fl.lit 10000000)

  -- The seconds from one reading of the clock to another.
  unfoldable pub elapsed : ℤ × ℤ → ℤ × ℤ → F
  elapsed (sec, usec) (sec', usec') =
      fl.add (fl.div (fl.of_int (usec -ℤ usec')) (fl.of_int (pos 1000000)))
        (fl.of_int (sec -ℤ sec'))

  -- `velocityX`, filtered: `accel` and `old` are the rounded accelerations, `lpf` the filter.
  unfoldable pub velocity : F → F → F → F → F
  velocity accel old time lpf =
      let v = fl.mul (fl.div (fl.add accel old) (fl.of_int (pos 2))) time in
      fl.add (fl.mul v beta) (fl.mul lpf (fl.sub one beta))

  -- `if (x > high) high = x;`
  abbrev pub peak : F → F → F
  peak x high = if fl.less high x then x else high

  abbrev pub peaks : Axes F → Axes F → Axes F
  peaks a high = record { x = peak a.x high.x; y = peak a.y high.y; z = peak a.z high.z }

  -- `PGA` and `PGV`, which are of type `float`
  unfoldable pub mean_of : Axes F → F
  mean_of a = fl.single (fl.div (fl.add (fl.add a.x a.y) a.z) (fl.of_int (pos 3)))

module _ {World F : Type 0} ⦃dev : Device World⦄ ⦃fl : Floats F⦄ where
  -- The accelerations of a round, up to the rounding.
  unfoldable pub shake_accel : Monitor World F → Axes F × Monitor World F
  shake_accel s =
      let (raw, w) = read_raw s.sensor.world in
      let fxg = low_pass raw.ac_x s.fxg in
      let fyg = low_pass raw.ac_y s.fyg in
      let g = in_g fxg fyg raw.filter_z in
      (
        record { x = round_two g.x; y = round_two g.y; z = round_two g.z },
        record (set_world w s) { fxg = fxg; fyg = fyg; abs_accel = fabs_axes g },
      )

  -- The velocities of a round: the clock is read once for all axes, and once more for each.
  unfoldable pub shake_velocity : Axes F → Monitor World F → Monitor World F
  shake_velocity a s =
      let (now, w) = dev.gettimeofday s.sensor.world in
      let (tx, wx) = dev.gettimeofday w in
      let (ty, wy) = dev.gettimeofday wx in
      let (tz, wz) = dev.gettimeofday wy in
      record (set_world wz s) {
        prev_time = record { x = tx; y = ty; z = tz };
        prev_accel = a;
        velocity_lpf = record {
          x = velocity a.x s.prev_accel.x (elapsed now s.prev_time.x) s.velocity_lpf.x;
          y = velocity a.y s.prev_accel.y (elapsed now s.prev_time.y) s.velocity_lpf.y;
          z = velocity a.z s.prev_accel.z (elapsed now s.prev_time.z) s.velocity_lpf.z;
        };
      }

  -- `Abs_velocityXCm` and its like
  unfoldable pub abs_velocity_cm : Monitor World F → Axes F
  abs_velocity_cm s =
      let hundred = fl.of_int (pos 100) in
      fabs_axes (record {
        x = fl.mul s.velocity_lpf.x hundred;
        y = fl.mul s.velocity_lpf.y hundred;
        z = fl.mul s.velocity_lpf.z hundred;
      })

  unfoldable pub shake_peaks : Monitor World F → Monitor World F
  shake_peaks s = record s {
    high_accel = peaks s.abs_accel s.high_accel;
    high_velocity = peaks (abs_velocity_cm s) s.high_velocity;
  }

  -- `if (count3 == 0) { ... count3 = -40; } count3++;`
  unfoldable pub shake_count : Monitor World F → Monitor World F
  shake_count s =
      let begun =
        if abs s.count3 == 0
        then record (say Line.calculating_peaks s) { count3 = negsuc 39 }
        else s in
      record begun { count3 = begun.count3 +ℤ pos 1 }

  -- One round of the loop in `EarthQuakeCalculate`.
  unfoldable pub shake : Monitor World F → Monitor World F
  shake s = let (a, s') = shake_accel s in shake_count (shake_peaks (shake_velocity a s'))

  unfoldable pub shakes : ℕ → Monitor World F → Monitor World F
  shakes zero s = s
  shakes (suc n) s = shakes n (shake s)

  -- What is set back at the end of `EarthQuakeCalculate`.
  unfoldable pub forget : Monitor World F → Monitor World F
  forget s = record s { high_accel = no_floats; high_velocity = no_floats; abs_accel = no_floats }

  module _ (size fuel : ℕ) where
    -- `SetOffsetOfMPU`, called with the globals of the calibration.
    unfoldable pub reset_offset : Act (Monitor World F)
    reset_offset s = elim (set_offset_of_mpu size fuel s.sensor) [
      | none ↦ none
      | some sensor' ↦ some (record s { sensor = sensor' })
    ]

    unfoldable pub earthquake_using_accel : F → Act (Monitor World F)
    earthquake_using_accel pga = do
      modify (λ s. record s { text = report Basis.by_pga (pga_verdict pga) s.text })
      modify (say Line.setting_offsets)
      reset_offset

    unfoldable pub earthquake_using_velocity : F → Act (Monitor World F)
    earthquake_using_velocity pgv = do
      modify (λ s. record s { text = report Basis.by_pgv (pgv_verdict pgv) s.text })
      modify (say Line.setting_offsets)
      reset_offset

    -- The six branches on `PGA` and `PGV`, one after the other.
    unfoldable pub judge : F → F → Act (Monitor World F)
    judge pga pgv = do
      when
          (fl.less pga (fl.lit 15000)
            && fl.less_eq (fl.lit 2000000) pgv
            && fl.less_eq pgv (fl.lit 10500000))
          do modify (say (Line.branch 1)); earthquake_using_accel pga
      when (fl.less pga (fl.lit 15000) && fl.less pgv (fl.lit 2000000))
          do modify (say (Line.branch 2)); earthquake_using_accel pga
      when (fl.less pga (fl.lit 15000) && fl.less (fl.lit 10500000) pgv)
          do modify (say (Line.branch 3)); earthquake_using_accel pga
      when
          (fl.less_eq (fl.lit 15000) pga
            && fl.less_eq (fl.lit 2000000) pgv
            && fl.less_eq pgv (fl.lit 8000000))
          do modify (say (Line.branch 4)); earthquake_using_velocity pgv
      when (fl.less_eq (fl.lit 15000) pga && fl.less pgv (fl.lit 2000000))
          do modify (say (Line.branch 5)); earthquake_using_accel pga
      when (fl.less_eq (fl.lit 15000) pga && fl.less (fl.lit 8000000) pgv)
          do modify (say (Line.branch 6)); earthquake_using_accel pga

    -- `if (i == 240)` holds after the loop.
    unfoldable pub conclude : Act (Monitor World F)
    conclude s =
        let pga = mean_of s.high_accel in
        let pgv = mean_of s.high_velocity in
        next (modify forget) (judge pga pgv (say (Line.pgv_is pgv) (say (Line.pga_is pga) s)))

    unfoldable pub earthquake_calculate : Act (Monitor World F)
    earthquake_calculate s = conclude (shakes 240 s)
