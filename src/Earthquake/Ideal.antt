-- ===== src/Earthquake/Ideal.antt =====
-- A sensor without noise, as `SetOffsetOfMPU` assumes of the one that it corrects: what it reads is
-- a bias and eight times the offset register, cut to the range of the register.
use native.Mathlib.Nat.{mul-suc, zero-div, mul-div_cancel}
use live_streamer.Common.{
  ◌∙◌, ℕ, zero, suc, ◌+◌, ◌*◌, ◌/◌, ◌<◌, ◌≡◌, refl, arith, ltb, if◌then◌else◌,
}
use live_streamer.Common.Int.{ℤ, pos, negsuc, pos_part, neg_part, sub_ℕ, ◌+ℤ◌, div_ℤ, IsInt16}
use live_streamer.Earthquake.{Axes, Device, Sensor}
use live_streamer.Earthquake.Offsets.{meansensors}
use live_streamer.Earthquake.Means.{total, readings, after, meansensors-total}

-- What an `int16_t` register shows of a value.
unfoldable pub saturate : ℤ → ℤ
saturate a =
    if ltb 32767 (pos_part a) then pos 32767 else if ltb 32768 (neg_part a) then negsuc 32767 else a

-- An offset counts eight times in a reading.
unfoldable pub gauge : ℤ → ℤ → ℤ
unfolding saturate
gauge b o = saturate (sub_ℕ (pos_part b + 8 * pos_part o) (neg_part b + 8 * neg_part o))

abbrev pub gauges : Axes ℤ → Axes ℤ → Axes ℤ
gauges b o = record { x = gauge b.x o.x; y = gauge b.y o.y; z = gauge b.z o.z }

pub record Ideal {World : Type 0} (dev : Device World) : Type 0 where
  pub bias : Axes ℤ
  -- The offset registers of the sensor.
  pub offset_of : World → Axes ℤ
  pub bias-IsInt16 : IsInt16 bias.x × IsInt16 bias.y × IsInt16 bias.z
  pub reads : (w : World) → (dev.get_motion w).0 ≡ gauges bias (offset_of w)
  pub keeps : (w : World) → offset_of (dev.get_motion w).1 ≡ offset_of w
  pub sets_x :
      (o : ℤ) (w : World) → offset_of (dev.set_x_accel_offset o w) ≡ record (offset_of w) { x = o }
  pub sets_y :
      (o : ℤ) (w : World) → offset_of (dev.set_y_accel_offset o w) ≡ record (offset_of w) { y = o }
  pub sets_z :
      (o : ℤ) (w : World) → offset_of (dev.set_z_accel_offset o w) ≡ record (offset_of w) { z = o }

-- A sum of equal readings.
unfoldable pub times : ℕ → ℤ → ℤ
times zero a = pos 0
times (suc n) a = a +ℤ times n a

times_pos : (n m : ℕ) → times n (pos m) ≡ pos (m * n)
unfolding times ◌+ℤ◌
times_pos zero m = ground arith
times_pos (suc n) m = ground (arith, times_pos n m, mul-suc m n)

times_neg : (n m : ℕ) → times n (negsuc m) ≡ sub_ℕ 0 (suc m * n)
unfolding times ◌+ℤ◌
times_neg zero m = ground arith
times_neg (suc n) m = ground (arith, times_neg n m, mul-suc (suc m) n)

div_ℤ-neg : (n : ℕ) (k : ℕ) → div_ℤ (sub_ℕ 0 n) k ≡ sub_ℕ 0 (n / k)
unfolding div_ℤ
div_ℤ-neg zero k = ground (arith, zero-div k)
div_ℤ-neg (suc n) k = ground arith

pub div_ℤ-times : (n : ℕ) (a : ℤ) → 0 < n → div_ℤ (times n a) n ≡ a
unfolding div_ℤ
div_ℤ-times n (pos m) h = rw (times_pos n m) (ground (arith, mul-div_cancel m h))
div_ℤ-times n (negsuc m) h =
    rw (times_neg n m) (ground (arith, div_ℤ-neg (suc m * n) n, mul-div_cancel (suc m) h))

module _ {World : Type 0} ⦃dev : Device World⦄ (i : Ideal dev) where
  -- The same reading, as long as no offset is written.
  readings_same :
      (n : ℕ) (w : World) (r : Axes ℤ)
      → gauges i.bias (i.offset_of w) ≡ r
      → total (readings n w) ≡ record { x = times n r.x; y = times n r.y; z = times n r.z }
  unfolding total readings times
  readings_same zero w r e = refl
  readings_same (suc n) w r e =
      ground (arith, i.reads w, i.keeps w, readings_same n (dev.get_motion w).1 r)

  offset_of-after : (n : ℕ) (w : World) → i.offset_of (after n w) ≡ i.offset_of w
  unfolding after
  offset_of-after zero w = refl
  offset_of-after (suc n) w = offset_of-after n (dev.get_motion w).1 ∙ i.keeps w

  -- The means are the one reading.
  pub meansensors-gauges :
      (size : ℕ) (s : Sensor World)
      → 0 < size
      → (meansensors size s).mean ≡ gauges i.bias (i.offset_of s.world)
  meansensors-gauges size s h = ground (
    arith,
    meansensors-total size s h,
    readings_same size (after 101 s.world) (gauges i.bias (i.offset_of s.world)),
    offset_of-after 101 s.world,
    div_ℤ-times size (gauge i.bias.x (i.offset_of s.world).x) h,
    div_ℤ-times size (gauge i.bias.y (i.offset_of s.world).y) h,
    div_ℤ-times size (gauge i.bias.z (i.offset_of s.world).z) h,
  )

  pub offset_of-meansensors :
      (size : ℕ) (s : Sensor World)
      → 0 < size
      → i.offset_of (meansensors size s).world ≡ i.offset_of s.world
  offset_of-meansensors size s h =
      rw (meansensors-total size s h) (offset_of-after (size + 101) s.world)
