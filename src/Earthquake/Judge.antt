-- ===== src/Earthquake/Judge.antt =====
-- The six branches at the end of `EarthQuakeCalculate`.
use live_streamer.Common.{
  ℕ, ◌≤◌, ◌≡◌, refl, ◌⊎◌, Bool, true, false, ◌&&◌, not, Option, none, some, arith, if◌then◌else◌,
}
use live_streamer.Earthquake.{Device}
use live_streamer.Earthquake.Floats.{Floats}
use live_streamer.Earthquake.Report.{pgv_verdict}
use live_streamer.Earthquake.Ladder.{level}
use live_streamer.Earthquake.Monitor.{Line, Monitor, Act, next, ◌>>◌, modify, when, say}
use live_streamer.Earthquake.Calculate.{earthquake_using_accel, earthquake_using_velocity, judge}

module _ {F : Type 0} ⦃fl : Floats F⦄ where
  -- The number of the branch for a PGA and a PGV.
  unfoldable pub branch_of : F → F → ℕ
  branch_of pga pgv =
      if fl.less pga (fl.lit 15000)
      then (if fl.less pgv (fl.lit 2000000)
          then 2
          else if fl.less (fl.lit 10500000) pgv
          then 3
          else 1)
      else if fl.less pgv (fl.lit 2000000)
      then 5
      else if fl.less (fl.lit 8000000) pgv
      then 6
      else 4

  -- The intensities that a PGV from 20 to 80 can give.
  level-pgv_verdict :
      (x : F)
      → fl.is_nan x ≡ false
      → fl.less x (fl.lit 2000000) ≡ false
      → fl.less (fl.lit 8000000) x ≡ false
      → (8 ≤ level (pgv_verdict x)) × (level (pgv_verdict x) ≤ 10)
  unfolding level pgv_verdict
  level-pgv_verdict x h lo hi = ground (
    arith,
    fl.less_eq-less x 2000000 h,
    fl.less_eq-less x 3750000 h,
    fl.less_eq-less x 5500000 h,
    fl.less_eq-less x 8100000 h,
    fl.lit-less x 8000000 8100000 (omega arith) (omega arith),
  )

next-some : {S : Type 0} (o : Option S) → next (λ s. some s) o ≡ o
next-some none = refl
next-some (some s) = refl

module _ {S : Type 0} (m1 m2 m3 m4 m5 m6 : Act S) (s : S) where
  -- Six tests in a row, of which one holds.
  one_runs :
      (a b c d : Bool)
      → (b ≡ true → c ≡ false)
      → (b ≡ true → d ≡ false)
      → (when (a && not b && not c) m1
            >> (when (a && b) m2
                >> (when (a && c) m3
                    >> (when (not a && not b && not d) m4
                        >> (when (not a && b) m5 >> when (not a && d) m6)))))
          s
        ≡ (if a
            then (if b then m2 s else if c then m3 s else m1 s)
            else if b
            then m5 s
            else if d
            then m6 s
            else m4 s)
  one_runs true true true d h k = cc (h refl)
  one_runs true true false d h k = next-some (m2 s)
  one_runs true false true d h k = next-some (m3 s)
  one_runs true false false d h k = next-some (m1 s)
  one_runs false true c true h k = cc (k refl)
  one_runs false true c false h k = next-some (m5 s)
  one_runs false false c true h k = refl
  one_runs false false c false h k = next-some (m4 s)

module _ {World F : Type 0} ⦃dev : Device World⦄ ⦃fl : Floats F⦄ (size fuel : ℕ) where
  judge_runs :
      (pga pgv : F) (s : Monitor World F)
      → fl.is_nan pga ≡ false
      → fl.is_nan pgv ≡ false
      → judge size fuel pga pgv s ≡ (
          if fl.less pga (fl.lit 15000)
          then (if fl.less pgv (fl.lit 2000000)
              then earthquake_using_accel size fuel pga (say (Line.branch 2) s)
              else if fl.less (fl.lit 10500000) pgv
              then earthquake_using_accel size fuel pga (say (Line.branch 3) s)
              else earthquake_using_accel size fuel pga (say (Line.branch 1) s))
          else if fl.less pgv (fl.lit 2000000)
          then earthquake_using_accel size fuel pga (say (Line.branch 5) s)
          else if fl.less (fl.lit 8000000) pgv
          then earthquake_using_accel size fuel pga (say (Line.branch 6) s)
          else earthquake_using_velocity size fuel pgv (say (Line.branch 4) s))
  unfolding judge
  judge_runs pga pgv s p v =
      let run =
        one_runs (modify (say (Line.branch 1)) >> earthquake_using_accel size fuel pga)
          (modify (say (Line.branch 2)) >> earthquake_using_accel size fuel pga)
          (modify (say (Line.branch 3)) >> earthquake_using_accel size fuel pga)
          (modify (say (Line.branch 4)) >> earthquake_using_velocity size fuel pgv)
          (modify (say (Line.branch 5)) >> earthquake_using_accel size fuel pga)
          (modify (say (Line.branch 6)) >> earthquake_using_accel size fuel pga) s
          (fl.less pga (fl.lit 15000)) (fl.less pgv (fl.lit 2000000))
          (fl.less (fl.lit 10500000) pgv) (fl.less (fl.lit 8000000) pgv)
          (fl.lit-apart pgv 2000000 10500000 (omega arith))
          (fl.lit-apart pgv 2000000 8000000 (omega arith)) in
      rw
        (
          fl.less_eq-less pga 15000 p,
          fl.less_eq-less pgv 2000000 v,
          fl.less-less_eq pgv 10500000 v,
          fl.less-less_eq pgv 8000000 v,
        )
        run

  -- Exactly one of the six branches runs, for a PGA and a PGV that are numbers. PGV decides in
  -- branch 4 alone, where PGA is at least 0.15 and PGV lies between 20 and 80, and the report is
  -- then of an intensity from 8 to 10: what `EarthQuakeUsingVelocity` says of intensity 11, of 12
  -- and of the biggest earthquake is never said. In all other cases PGA decides.
  pub judge_lem :
      (pga pgv : F) (s : Monitor World F)
      → fl.is_nan pga ≡ false
      → fl.is_nan pgv ≡ false
      → ((branch_of pga pgv ≡ 4)
          × (8 ≤ level (pgv_verdict pgv))
          × (level (pgv_verdict pgv) ≤ 10)
          × (judge size fuel pga pgv s
              ≡ earthquake_using_velocity size fuel pgv (say (Line.branch 4) s)))
        ⊎ (judge size fuel pga pgv s
            ≡ earthquake_using_accel size fuel pga (say (Line.branch (branch_of pga pgv)) s))
  unfolding branch_of
  judge_lem pga pgv s p v = ground (arith, judge_runs pga pgv s p v, level-pgv_verdict pgv v)
