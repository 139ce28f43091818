-- ===== src/Earthquake/Settles.antt =====
-- `SetOffsetOfMPU` on a sensor that has no noise: where the offsets come to rest, and a sensor on
-- which they never do.
use live_streamer.Common.{sym, ◌∙◌, ℕ, suc, ◌<◌, ◌≡◌, refl, some, true, arith}
use live_streamer.Common.Int.{ℤ, pos, negsuc, ◌-ℤ◌, neg_ℤ, div_ℤ, int16, IsInt16}
use live_streamer.Earthquake.{Axes, Device, Sensor}
use live_streamer.Earthquake.Offsets.{
  no_axes, is_quiet, error_of, data_ready, correct, first_offset, meansensors, write_offsets,
  measure, adjust, calibration_loop, calibration, finish_offset, set_offset_of_mpu,
}
use live_streamer.Earthquake.Ideal.{Ideal, gauge, gauges, meansensors-gauges, offset_of-meansensors}
use live_streamer.Earthquake.Means.{meansensors-total}

gauge_zero : (b : ℤ) → IsInt16 b → gauge b (int16 (pos 0)) ≡ b
unfolding gauge int16
gauge_zero (pos n) h = ground arith
gauge_zero (negsuc n) h = ground arith

-- A level axis, corrected once.
level_axis : (b : ℤ) → IsInt16 b → is_quiet (gauge b (int16 (div_ℤ (neg_ℤ b) 8))) ≡ true
unfolding gauge int16 div_ℤ ◌-ℤ◌
level_axis (pos n) h = ground arith
level_axis (negsuc n) h = ground arith

-- The vertical axis, corrected once.
plumb_axis :
    (b : ℤ) → IsInt16 b → is_quiet (pos 16384 -ℤ gauge b (int16 (div_ℤ (pos 16384 -ℤ b) 8))) ≡ true
unfolding gauge int16 div_ℤ ◌-ℤ◌
plumb_axis (pos n) h = ground arith
plumb_axis (negsuc n) h = ground arith

-- The offsets that an axis asks for fit the register.
level_offset : (b : ℤ) → IsInt16 b → int16 (div_ℤ (neg_ℤ b) 8) ≡ div_ℤ (neg_ℤ b) 8
unfolding int16 div_ℤ ◌-ℤ◌
level_offset (pos n) h = ground arith
level_offset (negsuc n) h = ground arith

plumb_offset : (b : ℤ) → IsInt16 b → int16 (div_ℤ (pos 16384 -ℤ b) 8) ≡ div_ℤ (pos 16384 -ℤ b) 8
unfolding int16 div_ℤ ◌-ℤ◌
plumb_offset (pos n) h = ground arith
plumb_offset (negsuc n) h = ground arith

-- What a sensor without noise reads once it is corrected.
abbrev pub settled : Axes ℤ → Axes ℤ
settled b = gauges b (first_offset b)

abbrev int16_axes : Axes ℤ → Axes ℤ
int16_axes o = record { x = int16 o.x; y = int16 o.y; z = int16 o.z }

int16_axes-first_offset :
    (b : Axes ℤ)
    → IsInt16 b.x × IsInt16 b.y × IsInt16 b.z
    → int16_axes (first_offset b) ≡ first_offset b
unfolding first_offset
int16_axes-first_offset b h =
    rw (level_offset b.x h.0, level_offset b.y h.1, plumb_offset b.z h.2) refl

settled_ready :
    (b : Axes ℤ) → IsInt16 b.x × IsInt16 b.y × IsInt16 b.z → data_ready (error_of (settled b)) ≡ 7
unfolding data_ready
settled_ready b h =
    rw (← int16_axes-first_offset b h)
      (unfold first_offset in rw (level_axis b.x h.0, level_axis b.y h.1, plumb_axis b.z h.2) refl)

correct_ready : (e o : Axes ℤ) → data_ready e ≡ 7 → correct e o ≡ o
unfolding data_ready correct
correct_ready e o h = ground arith

module _ {World : Type 0} ⦃dev : Device World⦄ where
  measure_keeps : (size : ℕ) (s : Sensor World) → 0 < size → (measure size s).offset ≡ s.offset
  unfolding measure write_offsets
  measure_keeps size s h = ground (arith, meansensors-total size (write_offsets s.offset s) h)

  -- A round that finds the sensor quiet is the last.
  calibration_loop_ready :
      (size fuel : ℕ) (s : Sensor World)
      → 0 < size
      → data_ready (error_of (measure size s).mean) ≡ 7
      → calibration_loop size (suc fuel) s ≡ some (record (measure size s) { offset = s.offset })
  unfolding calibration_loop adjust
  calibration_loop_ready size fuel s h r = ground (
    arith,
    measure_keeps size s h,
    correct_ready (error_of (measure size s).mean) (measure size s).offset r,
  )

module _ {World : Type 0} ⦃dev : Device World⦄ (i : Ideal dev) where
  -- The registers hold the offsets that were written.
  offset_of-write_offsets :
      (o : Axes ℤ) (s : Sensor World) → i.offset_of (write_offsets o s).world ≡ int16_axes o
  unfolding write_offsets
  offset_of-write_offsets o s =
      let wx = dev.set_x_accel_offset (int16 o.x) s.world in
      let wy = dev.set_y_accel_offset (int16 o.y) wx in
      ground (arith, i.sets_x (int16 o.x) s.world, i.sets_y (int16 o.y) wx, i.sets_z (int16 o.z) wy)

  measure-settled :
      (size : ℕ) (s : Sensor World)
      → 0 < size
      → s.offset ≡ first_offset i.bias
      → (measure size s).mean ≡ settled i.bias
  unfolding measure
  measure-settled size s h e = ground (
    arith,
    meansensors-gauges i size (write_offsets s.offset s) h,
    offset_of-write_offsets s.offset s,
    int16_axes-first_offset i.bias i.bias-IsInt16,
  )

  first_means :
      (size : ℕ) (s : Sensor World)
      → 0 < size
      → (meansensors size (write_offsets no_axes s)).mean ≡ i.bias
  first_means size s h = ground (
    arith,
    meansensors-gauges i size (write_offsets no_axes s) h,
    offset_of-write_offsets no_axes s,
    gauge_zero i.bias.x i.bias-IsInt16.0,
    gauge_zero i.bias.y i.bias-IsInt16.1,
    gauge_zero i.bias.z i.bias-IsInt16.2,
  )

  -- The sensor as the last round of the calibration leaves it.
  abbrev calibrated : ℕ → Sensor World → Sensor World
  calibrated size s =
      let start = record (meansensors size (write_offsets no_axes s)) {
        offset = first_offset i.bias;
      } in
      record (measure size start) { offset = first_offset i.bias }

  calibration_lem :
      (size fuel : ℕ) (s : Sensor World)
      → 0 < size
      → calibration size (suc fuel) (meansensors size (write_offsets no_axes s))
        ≡ some (calibrated size s)
  unfolding calibration
  calibration_lem size fuel s h =
      let start = record (meansensors size (write_offsets no_axes s)) {
        offset = first_offset i.bias;
      } in
      let means = measure-settled size start h refl in
      ground (
        arith,
        first_means size s h,
        calibration_loop_ready size fuel start h,
        means,
        settled_ready i.bias i.bias-IsInt16,
      )

  offset_of-calibrated :
      (size : ℕ) (s : Sensor World)
      → 0 < size
      → i.offset_of (calibrated size s).world ≡ first_offset i.bias
  unfolding measure
  offset_of-calibrated size s h =
      let start = record (meansensors size (write_offsets no_axes s)) {
        offset = first_offset i.bias;
      } in
      ground (
        arith,
        offset_of-meansensors i size (write_offsets (first_offset i.bias) start) h,
        offset_of-write_offsets (first_offset i.bias) start,
        int16_axes-first_offset i.bias i.bias-IsInt16,
      )

  finish_offset_settles :
      (size : ℕ) (s : Sensor World)
      → 0 < size
      → s.offset ≡ first_offset i.bias
      → i.offset_of s.world ≡ first_offset i.bias
      → ((finish_offset size s).offset ≡ first_offset i.bias)
        × (i.offset_of (finish_offset size s).world ≡ first_offset i.bias)
        × ((finish_offset size s).mean ≡ settled i.bias)
  unfolding finish_offset write_offsets
  finish_offset_settles size s h e o =
      let measured = meansensors size s in
      let kept : (measured.offset ≡ first_offset i.bias) =
        ground (arith, meansensors-total size s h) in
      (
        kept,
        ground (
          arith,
          offset_of-write_offsets measured.offset measured,
          int16_axes-first_offset i.bias i.bias-IsInt16,
        ),
        ground (arith, meansensors-gauges i size s h),
      )

  -- On a sensor without noise, whatever its bias, `SetOffsetOfMPU` returns after one round of the
  -- calibration: the offsets are an eighth of what each axis lacks, rounded towards zero, the
  -- registers of the sensor hold them, and the means that it leaves are those of the corrected
  -- sensor, which lie within the deadzone on all axes.
  pub set_offset_of_mpu_settles :
      (size fuel : ℕ) (s : Sensor World)
      → 0 < size
      → (s' : Sensor World) × (set_offset_of_mpu size (suc fuel) s ≡ some s')
        × (s'.offset ≡ first_offset i.bias)
        × (i.offset_of s'.world ≡ s'.offset)
        × (s'.mean ≡ settled i.bias)
        × (data_ready (error_of s'.mean) ≡ 7)
  unfolding set_offset_of_mpu
  set_offset_of_mpu_settles size fuel s h =
      let done = calibrated size s in
      let ends = finish_offset_settles size done h refl (offset_of-calibrated size s h) in
      (
        finish_offset size done,
        ground (arith, calibration_lem size fuel s h),
        ends.0,
        ends.1 ∙ sym ends.0,
        ends.2,
        rw ends.2 (settled_ready i.bias i.bias-IsInt16),
      )
