-- ===== src/Earthquake/Watch.antt =====
-- EARTHQUAKE.cpp, `setup`, `loop` and `main`.
use live_streamer.Common.{
  ℕ, zero, suc, ◌+◌, Bool, true, false, not, ◌&&◌, ◌||◌, some, ltb, leb, ◌==◌, if◌then◌else◌,
}
use live_streamer.Common.Int.{ℤ, pos, negsuc, abs, ◌+ℤ◌}
use live_streamer.Text.{codes}
use live_streamer.Earthquake.{Axes, Device}
use live_streamer.Earthquake.Offsets.{error_of, is_quiet}
use live_streamer.Earthquake.Floats.{Floats}
use live_streamer.Earthquake.Monitor.{
  Line, Monitor, Act, next, ◌>>◌, modify, when, say, set_world, Raw, read_raw, low_pass, in_g,
  fabs_axes,
}
use live_streamer.Earthquake.Calculate.{reset_offset, earthquake_calculate}

-- The sensor reads 0, or -1, on all axes.
unfoldable pub is_dead : Raw → Bool
is_dead r =
    (abs r.ac_x == 0 && abs r.ac_y == 0 && abs r.filter_z == 0)
    || (is_minus_one r.ac_x && is_minus_one r.ac_y && is_minus_one r.filter_z)
  where
    is_minus_one : ℤ → Bool
    is_minus_one (negsuc zero) = true
    is_minus_one _ = false

-- The means that `meansensors` has left are off.
unfoldable pub is_off : Axes ℤ → Bool
is_off m = let e = error_of m in not (is_quiet e.x) || not (is_quiet e.y) || not (is_quiet e.z)

module _ {F : Type 0} ⦃fl : Floats F⦄ where
  -- Two axes are in motion.
  unfoldable pub shaken : Axes F → Bool
  shaken a =
      let moves = λ (x : F). fl.less (fl.lit 300) x in
      (moves a.x && moves a.y) || (moves a.y && moves a.z) || (moves a.z && moves a.x)

module _ {World F : Type 0} ⦃dev : Device World⦄ ⦃fl : Floats F⦄ where
  -- `if (count1 == 0) { count1 = -5; ... } count1++;`
  unfoldable pub announce : Monitor World F → Monitor World F
  announce s =
      let begun =
        if abs s.count1 == 0 then record (say Line.monitoring s) { count1 = negsuc 4 } else s in
      record begun { count1 = begun.count1 +ℤ pos 1 }

  -- The count of dead readings, and the alarm.
  unfoldable pub count_dead : Raw → Monitor World F → Monitor World F
  unfolding is_dead
  count_dead raw s =
      let counted = record s { count2 = if is_dead raw then s.count2 + 1 else s.count2 } in
      if leb 30 counted.count2
      then record counted { system_perfect = false; system_mal = true }
      else counted

  unfoldable pub read_temperature : Monitor World F → Monitor World F
  read_temperature s =
      let (tmp, w) = dev.get_temperature s.sensor.world in
      let tmp_c = fl.single (fl.add (fl.div (fl.of_int tmp) (fl.lit 34000000)) (fl.lit 3653000)) in
      say (Line.temperature tmp_c) (record (set_world w s) { tmp_c = tmp_c })

  unfoldable pub accelerate : Raw → Monitor World F → Monitor World F
  accelerate raw s =
      let fxg = low_pass raw.ac_x s.fxg in
      let fyg = low_pass raw.ac_y s.fyg in
      record s { fxg = fxg; fyg = fyg; abs_accel = fabs_axes (in_g fxg fyg raw.filter_z) }

  -- `loop` up to the accelerations.
  unfoldable pub observe : Monitor World F → Monitor World F
  observe s =
      let announced = announce s in
      let (raw, w) = read_raw announced.sensor.world in
      accelerate raw (read_temperature (count_dead raw (set_world w announced)))

  unfoldable pub rearm : Monitor World F → Monitor World F
  rearm s =
      let ready = if s.count6 == 1 then record s { count5 = 10; count6 = 0 } else s in
      let counted =
        if ltb ready.count5 10
        then say (Line.count5_is (ready.count5 + 1)) (record ready { count5 = ready.count5 + 1 })
        else ready in
      if ltb ready.count5 10 && counted.count5 == 9
      then record counted { count6 = counted.count6 + 1; text = codes "null" }
      else counted

  unfoldable pub show_text : Monitor World F → Monitor World F
  show_text s = say (Line.detail s.text) s

  -- The alarms at the end of `loop`.
  unfoldable pub set_alarms : Monitor World F → Monitor World F
  set_alarms s =
      let warned = record s { temp_alarm = fl.less (fl.lit 3500000) s.tmp_c } in
      if ltb warned.count2 30
      then record warned { system_perfect = true; system_mal = false }
      else warned

  module _ (size fuel : ℕ) where
    -- The branch of `loop` that calls `EarthQuakeCalculate`.
    unfoldable pub trigger : Act (Monitor World F)
    trigger s =
        let started = record (say Line.calculating s) { count5 = 0; earthquake_alarm = true } in
        when (shaken s.abs_accel && s.count5 == 10) (λ _. earthquake_calculate size fuel started) s

    unfoldable pub recheck : Act (Monitor World F)
    recheck s =
        let again : Act (Monitor World F) = do
          modify (say Line.disturbed)
          reset_offset size fuel
          modify (λ t. record t { offset_disturbed = t.offset_disturbed + 1 })
        in when (is_off s.sensor.mean) again s

    unfoldable pub loop : Act (Monitor World F)
    loop = do
      modify observe
      trigger
      modify show_text
      modify rearm
      modify (λ s. record s { earthquake_alarm = false })
      recheck
      modify set_alarms

    unfoldable pub setup : Act (Monitor World F)
    setup s =
        let started = dev.initialize s.sensor.world in
        let (connected, w) = dev.test_connection started in
        reset_offset size fuel
          (say Line.setting_offset (say (Line.connection connected) (set_world w s)))

    -- `main`, up to a number of rounds of its endless loop.
    unfoldable pub rounds : ℕ → Act (Monitor World F)
    rounds zero s = some s
    rounds (suc n) s = next (rounds n) (loop s)

    unfoldable pub main : ℕ → Act (Monitor World F)
    main n = do setup; rounds n
