-- ===== src/Earthquake/Monitor.antt =====
-- EARTHQUAKE.cpp, the globals of the program and the readings that `loop` and
-- `EarthQuakeCalculate` both take. The globals `fZg`, `count`, `AcZ` and `i` are used as locals,
-- which leave no value behind, and are arguments here.
use live_streamer.Common.{
  ◌≡◌, inl, inr, Option-cases, ℕ, zero, suc, List, ◌∷◌, Bool, Option, none, some, if◌then◌else◌,
}
use live_streamer.Common.Int.{ℤ, pos, ◌+ℤ◌, div_ℤ}
use live_streamer.Text.{Text}
use live_streamer.Earthquake.{Axes, Device, Sensor}
use live_streamer.Earthquake.Floats.{Floats}

-- What the program prints.
pub data Line (F : Type 0) : Type 0 where
  connection : Bool → Line F
  setting_offset : Line F
  setting_offsets : Line F
  monitoring : Line F
  temperature : F → Line F
  calculating : Line F
  calculating_peaks : Line F
  pga_is : F → Line F
  pgv_is : F → Line F
  branch : ℕ → Line F
  detail : Text → Line F
  count5_is : ℕ → Line F
  disturbed : Line F

pub record Monitor (World F : Type 0) : Type 0 where
  pub sensor : Sensor World
  -- newest first
  pub printed : List (Line F)
  -- `data`
  pub text : Text
  pub count1 : ℤ
  pub count2 : ℕ
  pub count3 : ℤ
  pub count5 : ℕ
  pub count6 : ℕ
  pub offset_disturbed : ℕ
  pub tmp_c : F
  pub fxg : F
  pub fyg : F
  pub abs_accel : Axes F
  pub prev_accel : Axes F
  pub velocity_lpf : Axes F
  pub prev_time : Axes (ℤ × ℤ)
  pub high_accel : Axes F
  pub high_velocity : Axes F
  pub system_perfect : Bool
  pub system_mal : Bool
  pub temp_alarm : Bool
  pub earthquake_alarm : Bool

-- A part of the program that may not return: `SetOffsetOfMPU` is called in it.
abbrev pub Act : Type 0 → Type 0
Act S = S → Option S

module _ {S : Type 0} where
  abbrev pub next : Act S → Option S → Option S
  next k none = none
  next k (some s) = k s

  infixl 5 ◌>>◌
  abbrev pub ◌>>◌ : Act S → Act S → Act S
  (m >> k) s = next k (m s)

  abbrev pub modify : (S → S) → Act S
  modify f s = some (f s)

  abbrev pub when : Bool → Act S → Act S
  when b m s = if b then m s else some s

  -- Inversion of two parts that have returned.
  pub >>-eq-some :
      (m k : Act S) (s : S) {t : S}
      → (m >> k) s ≡ some t
      → (u : S) × (m s ≡ some u) × (k u ≡ some t)
  >>-eq-some m k s e = elim (Option-cases (m s)) [
    | inl stops ↦ cc (rw stops at e)
    | inr (u, goes) ↦ (u, goes, rw goes at e)
  ]

module _ {World F : Type 0} where
  abbrev pub say : Line F → Monitor World F → Monitor World F
  say l s = record s { printed = l ∷ s.printed }

  abbrev pub set_world : World → Monitor World F → Monitor World F
  set_world w s = record s { sensor = record (s.sensor) { world = w } }

-- `AcX`, `AcY` and `filter_valueZ`, which is a quotient of integers.
pub record Raw : Type 0 where
  pub ac_x : ℤ
  pub ac_y : ℤ
  pub filter_z : ℤ

module _ {World : Type 0} ⦃dev : Device World⦄ where
  -- `for (int k = 0; k < 15; k++)`, with the rounds that are left and the sum `fZg`
  unfoldable pub sum_z : ℕ → ℤ → World → ℤ × World
  sum_z zero acc w = (acc, w)
  sum_z (suc n) acc w = let (z, w') = dev.get_acceleration_z w in sum_z n (acc +ℤ z) w'

  unfoldable pub read_raw : World → Raw × World
  unfolding sum_z
  read_raw w =
      let (ac_x, wx) = dev.get_acceleration_x w in
      let (ac_y, wy) = dev.get_acceleration_y wx in
      let (fzg, wz) = sum_z 15 (pos 0) wy in
      (record { ac_x = ac_x; ac_y = ac_y; filter_z = div_ℤ fzg 15 }, wz)

module _ {F : Type 0} ⦃fl : Floats F⦄ where
  abbrev pub alpha : F
  alpha = fl.single (fl.lit 9000)

  abbrev pub beta : F
  beta = fl.single (fl.lit 40000)

  abbrev pub one : F
  one = fl.lit 100000

  abbrev pub no_floats : Axes F
  no_floats = record { x = fl.lit 0; y = fl.lit 0; z = fl.lit 0 }

  -- `AcX * alpha + (fXg * (1.0 - alpha))`
  unfoldable pub low_pass : ℤ → F → F
  low_pass raw old =
      fl.add (fl.single (fl.mul (fl.of_int raw) alpha)) (fl.mul old (fl.sub one alpha))

  -- `AcX_G`, `AcY_G` and `AcZ_G`, in g
  unfoldable pub in_g : F → F → ℤ → Axes F
  in_g fxg fyg filter_z =
      let scale = fl.of_int (pos 16384) in
      record {
        x = fl.div fxg scale;
        y = fl.div fyg scale;
        z = fl.sub (fl.div (fl.of_int filter_z) scale) one;
      }

  abbrev pub fabs_axes : Axes F → Axes F
  fabs_axes a = record { x = fl.fabs a.x; y = fl.fabs a.y; z = fl.fabs a.z }
