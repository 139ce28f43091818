-- ===== src/Earthquake/Offsets.antt =====
-- EARTHQUAKE.cpp, `SetOffsetOfMPU`, `meansensors` and `calibration`. The global `buffersize` (1000)
-- is an argument. `calibration` has no bound in the source: `none` says that it is still running
-- when as many rounds as the fuel says are over.
use live_streamer.Common.{
  ℕ, zero, suc, ◌+◌, Bool, ◌&&◌, Option, none, some, ltb, leb, ◌==◌, if◌then◌else◌,
}
use live_streamer.Common.Int.{ℤ, pos, ◌+ℤ◌, ◌-ℤ◌, neg_ℤ, abs, div_ℤ, int16}
use live_streamer.Earthquake.{Axes, Device, Sensor}

abbrev pub acel_deadzone : ℕ
acel_deadzone = 8

abbrev pub buffersize : ℕ
buffersize = 1000

abbrev pub no_axes : Axes ℤ
no_axes = record { x = pos 0; y = pos 0; z = pos 0 }

abbrev pub add_axes : Axes ℤ → Axes ℤ → Axes ℤ
add_axes a b = record { x = a.x +ℤ b.x; y = a.y +ℤ b.y; z = a.z +ℤ b.z }

abbrev pub div_axes : Axes ℤ → ℕ → Axes ℤ
div_axes a d = record { x = div_ℤ a.x d; y = div_ℤ a.y d; z = div_ℤ a.z d }

-- `|n| <= acel_deadzone`
abbrev pub is_quiet : ℤ → Bool
is_quiet a = leb (abs a) acel_deadzone

-- How far the mean of an axis is from what it shall be: 1 g on the vertical axis, 0 on the others.
abbrev pub error_of : Axes ℤ → Axes ℤ
error_of m = record { x = m.x; y = m.y; z = pos 16384 -ℤ m.z }

-- `data_ready`, built by `|=` of the bits 1, 2 and 4
unfoldable pub data_ready : Axes ℤ → ℕ
data_ready e =
    (if is_quiet e.x then 1 else 0)
    + (if is_quiet e.y then 2 else 0)
    + (if is_quiet e.z then 4 else 0)

-- The axes that are not yet quiet are corrected.
unfoldable pub correct : Axes ℤ → Axes ℤ → Axes ℤ
correct e o = record {
  x = if is_quiet e.x then o.x else o.x -ℤ div_ℤ e.x acel_deadzone;
  y = if is_quiet e.y then o.y else o.y -ℤ div_ℤ e.y acel_deadzone;
  z = if is_quiet e.z then o.z else o.z +ℤ div_ℤ e.z acel_deadzone;
}

-- The offsets that `calibration` starts from.
unfoldable pub first_offset : Axes ℤ → Axes ℤ
first_offset m = record {
  x = div_ℤ (neg_ℤ m.x) 8;
  y = div_ℤ (neg_ℤ m.y) 8;
  z = div_ℤ (pos 16384 -ℤ m.z) 8;
}

module _ {World : Type 0} ⦃dev : Device World⦄ where
  -- One round of `meansensors`, with its locals `i` and `buff_ax`, `buff_ay`, `buff_az`.
  unfoldable pub mean_step : ℕ → ℕ → Axes ℤ → Sensor World → Axes ℤ × Sensor World
  mean_step size i buff s =
      let (r, w) = dev.get_motion s.world in
      let buff' = if ltb 100 i && leb i (size + 100) then add_axes buff r else buff in
      (
        buff',
        record s { world = w; mean = if i == size + 100 then div_axes buff' size else s.mean },
      )

  -- `while (i < (buffersize + 101))`, with the rounds that are left.
  unfoldable pub mean_loop : ℕ → ℕ → ℕ → Axes ℤ → Sensor World → Sensor World
  mean_loop size zero i buff s = s
  mean_loop size (suc left) i buff s =
      let (buff', s') = mean_step size i buff s in mean_loop size left (i + 1) buff' s'

  unfoldable pub meansensors : ℕ → Sensor World → Sensor World
  meansensors size s = mean_loop size (size + 101) 0 no_axes s

  -- The three calls with `ax_offset`, `ay_offset` and `az_offset`.
  unfoldable pub write_offsets : Axes ℤ → Sensor World → Sensor World
  write_offsets o s =
      let wx = dev.set_x_accel_offset (int16 o.x) s.world in
      let wy = dev.set_y_accel_offset (int16 o.y) wx in
      record s { world = dev.set_z_accel_offset (int16 o.z) wy }

  -- A round of `calibration` up to the tests.
  unfoldable pub measure : ℕ → Sensor World → Sensor World
  measure size s = meansensors size (write_offsets s.offset s)

  -- The corrections of a round.
  unfoldable pub adjust : Sensor World → Sensor World
  adjust s = record s { offset = correct (error_of s.mean) s.offset }

  unfoldable pub calibration_loop : ℕ → ℕ → Sensor World → Option (Sensor World)
  calibration_loop size zero s = none
  calibration_loop size (suc fuel) s =
      let measured = measure size s in
      let rest = calibration_loop size fuel (adjust measured) in
      if data_ready (error_of measured.mean) == 7 then some (adjust measured) else rest

  unfoldable pub calibration : ℕ → ℕ → Sensor World → Option (Sensor World)
  calibration size fuel s = calibration_loop size fuel (record s { offset = first_offset s.mean })

  -- What follows once the calibration has ended.
  unfoldable pub finish_offset : ℕ → Sensor World → Sensor World
  finish_offset size s = let s' = meansensors size s in write_offsets s'.offset s'

  unfoldable pub set_offset_of_mpu : ℕ → ℕ → Sensor World → Option (Sensor World)
  set_offset_of_mpu size fuel s =
      elim (calibration size fuel (meansensors size (write_offsets no_axes s))) [
        | none ↦ none
        | some s' ↦ some (finish_offset size s')
      ]
