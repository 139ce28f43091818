-- ===== src/Earthquake/Report.antt =====
-- EARTHQUAKE.cpp, the choice of an intensity in `EarthQuakeUsingAccel` and
-- `EarthQuakeUsingVelocity`, and the text in `data`. A literal n stands for n / 100000.
use live_streamer.Common.{ℕ, Bool, ◌&&◌, ◌++◌, if◌then◌else◌}
use live_streamer.Common.Int.{pos}
use live_streamer.Text.{Text, codes}
use live_streamer.Earthquake.Floats.{Floats}
use live_streamer.Earthquake.Effects.{Intensity, numeral, effect, effect_of_biggest}

-- What the last sentence of a report names.
pub data Basis : Type 0 where
  by_pga by_pgv : Basis

-- The branch that is taken, with `Magnitude`.
pub data Verdict (F : Type 0) : Type 0 where
  quake : Intensity → F → Verdict F
  biggest : F → Verdict F
  -- The last `else`, which does nothing.
  silent : Verdict F

unfoldable pub basis_text : Basis → Text
basis_text Basis.by_pga = codes "\nThe decision is based on PGA."
basis_text Basis.by_pgv = codes "\nThe decision is based on PGV."

module _ {F : Type 0} ⦃fl : Floats F⦄ where
  -- `(lo <= x) && (x < hi)`
  abbrev pub between : ℕ → ℕ → F → Bool
  between lo hi x = fl.less_eq (fl.lit lo) x && fl.less x (fl.lit hi)

  -- `ceilf(Magnitude * 10) / 10`, assigned to a `float`
  unfoldable pub round_up : F → F
  round_up m =
      let ten = fl.of_int (pos 10) in fl.single (fl.div (fl.ceil (fl.single (fl.mul m ten))) ten)

  -- `above * (m1 - m0) / (hi - lo) + m0`, where `above` is the excess over `lo`
  unfoldable pub ramp : F → ℕ → ℕ → ℕ → ℕ → F
  unfolding round_up
  ramp above m1 m0 hi lo =
      let slope = fl.mul above (fl.sub (fl.lit m1) (fl.lit m0)) in
      let share = fl.div slope (fl.sub (fl.lit hi) (fl.lit lo)) in
      round_up (fl.single (fl.add share (fl.lit m0)))

  -- The excess over a `double`, and over an `int`.
  abbrev pub over : F → ℕ → F
  over x lo = fl.sub x (fl.lit lo)

  abbrev pub over_int : F → ℕ → F
  over_int x lo = fl.single (fl.sub x (fl.lit lo))

  unfoldable pub pga_verdict : F → Verdict F
  pga_verdict pga =
      if fl.less pga (fl.lit 170)
      then Verdict.quake Intensity.i
          (round_up (fl.single (fl.div (fl.mul pga (fl.lit 330000)) (fl.lit 160))))
      else if between 170 785 pga
      then Verdict.quake Intensity.ii (ramp (over pga 170) 390000 340000 784 170)
      else if between 785 1400 pga
      then Verdict.quake Intensity.iii (ramp (over pga 785) 420000 400000 1300 785)
      else if between 1400 2000 pga
      then Verdict.quake Intensity.iv (ramp (over pga 1400) 480000 430000 1000 1400)
      else if between 2000 4000 pga
      then Verdict.quake Intensity.v (ramp (over pga 2000) 540000 490000 3000 2000)
      else if between 4000 7000 pga
      then Verdict.quake Intensity.vi (ramp (over pga 4000) 575000 550000 6000 4000)
      else if between 7000 15000 pga
      then Verdict.quake Intensity.vii (ramp (over pga 7000) 610000 576000 14000 7000)
      else if between 15000 30000 pga
      then Verdict.quake Intensity.viii (ramp (over pga 15000) 650000 620000 29000 15000)
      else if between 30000 61000 pga
      then Verdict.quake Intensity.ix (ramp (over pga 30000) 690000 650000 60000 30000)
      else if between 61000 70000 pga
      then Verdict.quake Intensity.x (ramp (over pga 61000) 730000 700000 69000 61000)
      else if between 70000 91000 pga
      then Verdict.quake Intensity.xi (ramp (over pga 70000) 790000 740000 90000 70000)
      else if between 91000 100000 pga
      then Verdict.quake Intensity.xii (ramp (over pga 91000) 950000 800000 99000 91000)
      else if fl.less_eq (fl.lit 100000) pga
      then Verdict.biggest (fl.single (fl.lit 950000))
      else Verdict.silent

  unfoldable pub pgv_verdict : F → Verdict F
  pgv_verdict pgv =
      if between 2000000 3750000 pgv
      then Verdict.quake Intensity.viii (ramp (over_int pgv 2000000) 650000 620000 3740000 2000000)
      else if between 3750000 5500000 pgv
      then Verdict.quake Intensity.ix (ramp (over pgv 3750000) 690000 660000 5400000 3750000)
      else if between 5500000 8100000 pgv
      then Verdict.quake Intensity.x (ramp (over_int pgv 5500000) 730000 700000 8000000 5500000)
      else if between 8100000 9500000 pgv
      then Verdict.quake Intensity.xi (ramp (over_int pgv 8100000) 790000 740000 9400000 8100000)
      else if fl.less_eq (fl.lit 9500000) pgv && fl.less_eq pgv (fl.lit 10500000)
      then Verdict.quake Intensity.xii (ramp (over_int pgv 9500000) 950000 800000 10500000 9500000)
      else if fl.less (fl.lit 10500000) pgv
      then Verdict.biggest (fl.single (fl.lit 950000))
      else Verdict.silent

  -- `data`, after it held the last argument.
  unfoldable pub report : Basis → Verdict F → Text → Text
  report b (Verdict.quake n m) old =
      codes "This is an intensity "
      ++ (codes (numeral n)
          ++ (codes " Earthquake. Magnitude of the Earthquake is:"
              ++ (fl.to_text m ++ (effect n ++ basis_text b))))
  report b (Verdict.biggest m) old =
      codes "Magnitude of the EarthQuake is:"
      ++ (fl.to_text m ++ (effect_of_biggest ++ basis_text b))
  report b Verdict.silent old = old
