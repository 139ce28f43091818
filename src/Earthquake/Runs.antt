-- ===== src/Earthquake/Runs.antt =====
-- `main` on a sensor without noise, and on one that does not follow its offsets.
use live_streamer.Common.{ℕ, zero, suc, ◌+◌, ◌<◌, ◌≡◌, refl, Bool, true, false, none, some, arith}
use live_streamer.Common.Int.{ℤ, pos, ◌-ℤ◌}
use live_streamer.Earthquake.{Device}
use live_streamer.Earthquake.Offsets.{is_quiet}
use live_streamer.Earthquake.Ideal.{Ideal}
use live_streamer.Earthquake.Settles.{set_offset_of_mpu_settles}
use live_streamer.Earthquake.Stuck.{set_offset_of_mpu_stuck}
use live_streamer.Earthquake.Floats.{Floats}
use live_streamer.Earthquake.Monitor.{Line, Monitor, Act, ◌>>◌, modify, when, say}
use live_streamer.Earthquake.Calculate.{
  reset_offset, earthquake_using_accel, earthquake_using_velocity, judge, conclude, forget,
  earthquake_calculate, mean_of, shakes,
}
use live_streamer.Earthquake.Watch.{
  observe, rearm, show_text, set_alarms, trigger, recheck, loop, setup, rounds, main,
}

module _ {S : Type 0} where
  abbrev pub Returns : Act S → Type 0
  Returns m = (s : S) → (t : S) × (m s ≡ some t)

  modify-Returns : (f : S → S) → Returns (modify f)
  modify-Returns f s = (f s, refl)

  >>-Returns : (m k : Act S) → Returns m → Returns k → Returns (m >> k)
  >>-Returns m k hm hk s = let (u, first) = hm s in let (t, second) = hk u in (t, rw first second)

  when-Returns : (b : Bool) (m : Act S) → Returns m → Returns (when b m)
  when-Returns true m h s = h s
  when-Returns false m h s = (s, refl)

  in_turn-Returns :
      (b1 b2 b3 b4 b5 b6 : Bool) (m1 m2 m3 m4 m5 m6 : Act S)
      → Returns m1
      → Returns m2
      → Returns m3
      → Returns m4
      → Returns m5
      → Returns m6
      → Returns do when b1 m1; when b2 m2; when b3 m3; when b4 m4; when b5 m5; when b6 m6
  in_turn-Returns b1 b2 b3 b4 b5 b6 m1 m2 m3 m4 m5 m6 h1 h2 h3 h4 h5 h6 =
      >>-Returns _ _ (when-Returns b1 m1 h1) (
        >>-Returns _ _ (when-Returns b2 m2 h2) (
          >>-Returns _ _ (when-Returns b3 m3 h3) (
            >>-Returns _ _ (when-Returns b4 m4 h4)
              (>>-Returns _ _ (when-Returns b5 m5 h5) (when-Returns b6 m6 h6)))))

module _ {World F : Type 0} ⦃dev : Device World⦄ ⦃fl : Floats F⦄ (size fuel : ℕ) where
  module _ (i : Ideal dev) (h : 0 < size) where
    reset_offset-Returns : Returns (reset_offset {World = World} {F = F} size (suc fuel))
    unfolding reset_offset
    reset_offset-Returns s =
        let (sensor', goes, _, _, _, _) = set_offset_of_mpu_settles i size fuel s.sensor h in
        (record s { sensor = sensor' }, rw (goes, reset_offset))

    earthquake_using_accel-Returns :
        (pga : F) → Returns (earthquake_using_accel {World = World} size (suc fuel) pga)
    unfolding earthquake_using_accel
    earthquake_using_accel-Returns pga s = reset_offset-Returns _

    earthquake_using_velocity-Returns :
        (pgv : F) → Returns (earthquake_using_velocity {World = World} size (suc fuel) pgv)
    unfolding earthquake_using_velocity
    earthquake_using_velocity-Returns pgv s = reset_offset-Returns _

    judge-Returns : (pga pgv : F) → Returns (judge {World = World} size (suc fuel) pga pgv)
    unfolding judge
    judge-Returns pga pgv =
        let branch = λ (n : ℕ) (m : Act (Monitor World F)) (r : Returns m).
          >>-Returns (modify (say (Line.branch n))) m (modify-Returns (say (Line.branch n))) r in
        let accel = λ (n : ℕ). branch n _ (earthquake_using_accel-Returns pga) in
        in_turn-Returns _ _ _ _ _ _ _ _ _ _ _ _ (accel 1) (accel 2) (accel 3)
          (branch 4 _ (earthquake_using_velocity-Returns pgv)) (accel 5) (accel 6)

    conclude-Returns : Returns (conclude {World = World} {F = F} size (suc fuel))
    unfolding conclude
    conclude-Returns s =
        let pga = mean_of s.high_accel in
        let pgv = mean_of s.high_velocity in
        >>-Returns (judge size (suc fuel) pga pgv) (modify forget) (judge-Returns pga pgv)
          (modify-Returns forget) (say (Line.pgv_is pgv) (say (Line.pga_is pga) s))

    trigger-Returns : Returns (trigger {World = World} {F = F} size (suc fuel))
    unfolding trigger earthquake_calculate
    trigger-Returns s =
        let started = record (say Line.calculating s) { count5 = 0; earthquake_alarm = true } in
        when-Returns _ (λ _. earthquake_calculate size (suc fuel) started)
          (λ _. conclude-Returns (shakes 240 started)) s

    recheck-Returns : Returns (recheck {World = World} {F = F} size (suc fuel))
    unfolding recheck
    recheck-Returns s =
        let counted =
          λ (t : Monitor World F). record t { offset_disturbed = t.offset_disturbed + 1 } in
        let again =
          >>-Returns (modify (say Line.disturbed)) _ (modify-Returns (say Line.disturbed)) (
            >>-Returns (reset_offset size (suc fuel)) (modify counted) reset_offset-Returns
              (modify-Returns counted)) in
        when-Returns _ _ again s

    pub loop-Returns : Returns (loop {World = World} {F = F} size (suc fuel))
    unfolding loop
    loop-Returns =
        let calm = λ (s : Monitor World F). record s { earthquake_alarm = false } in
        >>-Returns (modify observe) _ (modify-Returns observe) (
          >>-Returns (trigger size (suc fuel)) _ trigger-Returns (
            >>-Returns (modify show_text) _ (modify-Returns show_text) (
              >>-Returns (modify rearm) _ (modify-Returns rearm) (
                >>-Returns (modify calm) _ (modify-Returns calm) (
                  >>-Returns (recheck size (suc fuel)) (modify set_alarms) recheck-Returns
                    (modify-Returns set_alarms))))))

    pub rounds-Returns : (n : ℕ) → Returns (rounds {World = World} {F = F} size (suc fuel) n)
    unfolding rounds
    rounds-Returns zero s = (s, refl)
    rounds-Returns (suc n) s =
        >>-Returns (loop size (suc fuel)) (rounds size (suc fuel) n) loop-Returns (rounds-Returns n)
          s

    setup-Returns : Returns (setup {World = World} {F = F} size (suc fuel))
    unfolding setup
    setup-Returns s = reset_offset-Returns _

    -- On a sensor without noise the program runs on: `setup` returns, and so does each of any
    -- number of rounds of `loop`, with calculations and calibrations in them, where one round of a
    -- calibration is enough.
    pub main-Returns :
        (n : ℕ) (s : Monitor World F) → (t : Monitor World F) × (main size (suc fuel) n s ≡ some t)
    unfolding main
    main-Returns n =
        >>-Returns (setup size (suc fuel)) (rounds size (suc fuel) n) setup-Returns
          (rounds-Returns n)

  -- If the vertical axis reads the same value for ever, more than 8 away from 16384 (a sensor that
  -- is not connected reads 0), the program does not come out of `setup`, however many rounds the
  -- calibration is given: no round of `loop` runs, so the alarm for a broken system is never set.
  pub main_stuck :
      (v : ℤ)
      → ((w : World) → (dev.get_motion w).0.z ≡ v)
      → is_quiet (pos 16384 -ℤ v) ≡ false
      → 0 < size
      → (n : ℕ) (s : Monitor World F) → main size fuel n s ≡ none
  unfolding main setup reset_offset
  main_stuck v fixed off h n s =
      let w = (dev.test_connection (dev.initialize s.sensor.world)).1 in
      ground
        (arith, set_offset_of_mpu_stuck v fixed off size fuel (record (s.sensor) { world = w }) h)
