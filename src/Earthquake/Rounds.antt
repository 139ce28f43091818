-- ===== src/Earthquake/Rounds.antt =====
-- The rounds of `loop`: how often a calculation runs, and what the alarms show.
use live_streamer.Common.{
  sym, ℕ, suc, ◌+◌, ◌≤◌, ◌<◌, ◌≡◌, refl, Bool, true, false, ◌&&◌, some, arith, if◌then◌else◌, ltb,
  leb, ◌==◌,
}
use live_streamer.Earthquake.{Device}
use live_streamer.Earthquake.Floats.{Floats}
use live_streamer.Earthquake.Monitor.{Line, Monitor, ◌>>◌, modify, >>-eq-some, say}
use live_streamer.Earthquake.Frame.{
  Frame, frame, calculations, Keeps, >>-Keeps, when-Keeps, modify-Keeps, reset_offset-Keeps,
  earthquake_calculate-Keeps,
}
use live_streamer.Earthquake.Watch.{
  shaken, announce, count_dead, read_temperature, accelerate, observe, rearm, show_text, set_alarms,
  trigger, recheck, loop,
}

some_injective : {A : Type 0} {a b : A} → some a ≡ some b → a ≡ b
some_injective e = cc

-- `count6` is 1 just in the round in which `count5` has reached 9.
pub record IsCounting {World F : Type 0} (s : Monitor World F) : Type 0 where
  pub within : s.count5 ≤ 10
  pub turning : s.count6 ≡ (if s.count5 == 9 then 1 else 0)

-- A round on the frame: `b` says whether a calculation runs, `c` is the count of dead readings.
abbrev pub counted : Bool → ℕ → Frame → Frame
counted b c f = record f {
  count2 = c;
  count5 =
      if b
      then 1
      else if f.count6 == 1
      then 10
      else if ltb f.count5 10
      then f.count5 + 1
      else f.count5;
  count6 =
      if b
      then 0
      else if f.count6 == 1
      then 0
      else if f.count5 == 8
      then f.count6 + 1
      else f.count6;
  calculated = if b then suc f.calculated else f.calculated;
  system_perfect = ltb c 30;
  system_mal = leb 30 c;
  earthquake_alarm = false;
}

module _ {World F : Type 0} ⦃dev : Device World⦄ ⦃fl : Floats F⦄ where
  -- The test before a calculation.
  abbrev pub fires : Monitor World F → Bool
  fires s = shaken (observe s).abs_accel && (observe s).count5 == 10

  frame-observe :
      (s : Monitor World F)
      → frame (observe s) ≡ record (frame s) {
        count2 = (observe s).count2;
        system_perfect = if leb 30 (observe s).count2 then false else s.system_perfect;
        system_mal = if leb 30 (observe s).count2 then true else s.system_mal;
      }
  unfolding observe announce count_dead read_temperature accelerate calculations
  frame-observe s = ground arith

  pub observe-count2 : (s : Monitor World F) → s.count2 ≤ (observe s).count2
  unfolding observe announce count_dead read_temperature accelerate
  observe-count2 s = ground arith

  abbrev pub settle : Monitor World F → Monitor World F
  settle u = record (rearm (show_text u)) { earthquake_alarm = false }

  module _ (size fuel : ℕ) where
    frame-trigger :
        (s u : Monitor World F)
        → trigger size fuel s ≡ some u
        → frame u ≡ (
            if shaken s.abs_accel && s.count5 == 10
            then record (frame s) {
              count5 = 0;
              calculated = suc (calculations s.printed);
              earthquake_alarm = true;
            }
            else frame s)
    unfolding trigger calculations
    frame-trigger s u e =
        let started = record (say Line.calculating s) { count5 = 0; earthquake_alarm = true } in
        ground (arith, earthquake_calculate-Keeps size fuel started u)

    recheck-Keeps : Keeps {World = World} {F = F} (recheck size fuel)
    unfolding recheck calculations
    recheck-Keeps s =
        when-Keeps _ _
          (>>-Keeps _ _ (modify-Keeps (say Line.disturbed) (λ t. refl)) (
            >>-Keeps _ _ (reset_offset-Keeps size fuel) (
              modify-Keeps (λ t. record t { offset_disturbed = t.offset_disturbed + 1 })
                (λ t. refl))))
          s

    -- The three parts of a round.
    loop_parts :
        (s t : Monitor World F)
        → loop size fuel s ≡ some t
        → (u v : Monitor World F) × (trigger size fuel (observe s) ≡ some u)
          × (recheck size fuel (settle u) ≡ some v)
          × (t ≡ set_alarms v)
    unfolding loop
    loop_parts s t e =
        let check = recheck size fuel >> modify set_alarms in
        let rest =
          modify show_text
          >> (modify rearm >> (modify (λ u. record u { earthquake_alarm = false }) >> check)) in
        let (u, fired, after) = >>-eq-some (trigger size fuel) rest (observe s) e in
        let (v, checked, last) =
          >>-eq-some (recheck size fuel) (modify set_alarms) (settle u) after in
        (u, v, fired, checked, sym (some_injective last))

    frame-settle :
        (u : Monitor World F)
        → frame (settle u) ≡ record (frame u) {
          count5 = if u.count6 == 1 then 10 else if ltb u.count5 10 then u.count5 + 1 else u.count5;
          count6 = if u.count6 == 1 then 0 else if u.count5 == 8 then u.count6 + 1 else u.count6;
          earthquake_alarm = false;
        }
    unfolding rearm show_text calculations
    frame-settle u = ground arith

    frame-set_alarms :
        (v : Monitor World F)
        → frame (set_alarms v) ≡ record (frame v) {
          system_perfect = if ltb v.count2 30 then true else v.system_perfect;
          system_mal = if ltb v.count2 30 then false else v.system_mal;
        }
    unfolding set_alarms
    frame-set_alarms v = ground arith

    pub frame-loop :
        (s t : Monitor World F)
        → IsCounting s
        → loop size fuel s ≡ some t
        → frame t ≡ counted (fires s) (observe s).count2 (frame s)
    frame-loop s t c e =
        let (u, v, fired, checked, last) = loop_parts s t e in
        ground (
          arith,
          frame-observe s,
          frame-trigger (observe s) u fired,
          frame-settle u,
          recheck-Keeps (settle u) v checked,
          frame-set_alarms v,
        )

    pub fires_ready : (s : Monitor World F) → fires s ≡ true → s.count5 ≡ 10
    fires_ready s f = ground (arith, frame-observe s)

    pub loop-IsCounting :
        (s t : Monitor World F) → IsCounting s → loop size fuel s ≡ some t → IsCounting t
    loop-IsCounting s t c e = ground (arith, frame-loop s t c e, fires_ready s)

    -- A round that starts with `count5` below 10 makes no calculation.
    pub loop_waits :
        (s t : Monitor World F)
        → IsCounting s
        → s.count5 < 10
        → loop size fuel s ≡ some t
        → (calculations t.printed ≡ calculations s.printed) × (t.count5 ≡ s.count5 + 1)
    loop_waits s t c h e = ground (arith, frame-loop s t c e, fires_ready s)
