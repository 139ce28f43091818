-- ===== src/Earthquake/Ladder.antt =====
-- The branches of `EarthQuakeUsingAccel` and `EarthQuakeUsingVelocity` against a table of limits.
use live_streamer.Common.{ℕ, ◌+◌, ◌≡◌, List, [], ◌∷◌, false, arith, if◌then◌else◌}
use live_streamer.Earthquake.Effects.{number}
use live_streamer.Earthquake.Floats.{Floats}
use live_streamer.Earthquake.Report.{Verdict, pga_verdict}

-- The number of the intensity that a report names, 13 for the biggest, 0 for none.
unfoldable pub level : {F : Type 0} → Verdict F → ℕ
unfolding number
level (Verdict.quake n m) = number n
level (Verdict.biggest m) = 13
level Verdict.silent = 0

-- The least PGA, in units of 0.00001 g, of the intensities from the second on.
abbrev pub pga_limits : List ℕ
pga_limits =
    170 ∷ 785 ∷ 1400 ∷ 2000 ∷ 4000 ∷ 7000 ∷ 15000 ∷ 30000 ∷ 61000 ∷ 70000 ∷ 91000 ∷ 100000 ∷ []

module _ {F : Type 0} ⦃fl : Floats F⦄ where
  -- How many of the limits a value has reached.
  unfoldable pub reached : List ℕ → F → ℕ
  reached [] x = 0
  reached (n ∷ ns) x = (if fl.less_eq (fl.lit n) x then 1 else 0) + reached ns x

  -- For every PGA that is a number, the branches have neither a gap nor an overlap: the intensity
  -- is one more than the number of limits that the PGA has reached, and 13 stands for the
  -- "biggest earthquake ever recorded".
  pub level-pga_verdict :
      (x : F) → fl.is_nan x ≡ false → level (pga_verdict x) ≡ 1 + reached pga_limits x
  unfolding level pga_verdict reached
  level-pga_verdict x h = ground (
    arith,
    fl.less_eq-less x 170 h,
    fl.less_eq-less x 785 h,
    fl.less_eq-less x 1400 h,
    fl.less_eq-less x 2000 h,
    fl.less_eq-less x 4000 h,
    fl.less_eq-less x 7000 h,
    fl.less_eq-less x 15000 h,
    fl.less_eq-less x 30000 h,
    fl.less_eq-less x 61000 h,
    fl.less_eq-less x 70000 h,
    fl.less_eq-less x 91000 h,
    fl.less_eq-less x 100000 h,
    fl.less-lit x 170 785 (omega arith),
    fl.less-lit x 785 1400 (omega arith),
    fl.less-lit x 1400 2000 (omega arith),
    fl.less-lit x 2000 4000 (omega arith),
    fl.less-lit x 4000 7000 (omega arith),
    fl.less-lit x 7000 15000 (omega arith),
    fl.less-lit x 15000 30000 (omega arith),
    fl.less-lit x 30000 61000 (omega arith),
    fl.less-lit x 61000 70000 (omega arith),
    fl.less-lit x 70000 91000 (omega arith),
    fl.less-lit x 91000 100000 (omega arith),
  )
