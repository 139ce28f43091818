-- ===== src/Earthquake/Blind.antt =====
-- A round of `loop` in which neither a calculation nor a calibration is due.
use live_streamer.Common.{ℕ, ◌≡◌, ◌∙◌, false, ◌&&◌, some, arith, ◌==◌}
use live_streamer.Common.{ap}
use live_streamer.Common.Int.{ℤ}
use live_streamer.Earthquake.{Axes, Device}
use live_streamer.Earthquake.Floats.{Floats}
use live_streamer.Earthquake.Monitor.{Monitor, read_raw, Raw, set_world}
use live_streamer.Earthquake.Watch.{
  is_off, shaken, announce, count_dead, read_temperature, accelerate, observe, rearm, show_text,
  set_alarms, trigger, recheck, loop,
}
use live_streamer.Earthquake.Rounds.{fires, settle}

-- What the calibration has left.
pub record Calibrated : Type 0 where
  pub mean : Axes ℤ
  pub offset : Axes ℤ
  pub disturbed : ℕ

module _ {World F : Type 0} where
  abbrev calibrated : Monitor World F → Calibrated
  calibrated s = record {
    mean = s.sensor.mean;
    offset = s.sensor.offset;
    disturbed = s.offset_disturbed;
  }

module _ {World F : Type 0} ⦃dev : Device World⦄ ⦃fl : Floats F⦄ where
  calibrated-announce : (s : Monitor World F) → calibrated (announce s) ≡ calibrated s
  unfolding announce
  calibrated-announce s = ground arith

  calibrated-count_dead :
      (r : Raw) (s : Monitor World F) → calibrated (count_dead r s) ≡ calibrated s
  unfolding count_dead
  calibrated-count_dead r s = ground arith

  calibrated-observe : (s : Monitor World F) → calibrated (observe s) ≡ calibrated s
  unfolding observe read_temperature accelerate
  calibrated-observe s =
      let (raw, w) = read_raw (announce s).sensor.world in
      calibrated-count_dead raw (set_world w (announce s)) ∙ calibrated-announce s

  calibrated-rearm : (s : Monitor World F) → calibrated (rearm s) ≡ calibrated s
  unfolding rearm
  calibrated-rearm s = ground arith

  calibrated-set_alarms : (s : Monitor World F) → calibrated (set_alarms s) ≡ calibrated s
  unfolding set_alarms
  calibrated-set_alarms s = ground arith

  calibrated-settle : (s : Monitor World F) → calibrated (settle s) ≡ calibrated s
  unfolding show_text
  calibrated-settle s = calibrated-rearm (show_text s)

  module _ (size fuel : ℕ) where
    trigger_idle :
        (s : Monitor World F)
        → (shaken s.abs_accel && s.count5 == 10) ≡ false
        → trigger size fuel s ≡ some s
    unfolding trigger
    trigger_idle s f = rw f

    recheck_idle :
        (s : Monitor World F) → is_off s.sensor.mean ≡ false → recheck size fuel s ≡ some s
    unfolding recheck
    recheck_idle s f = rw f

    -- If the means of the last calibration are within the deadzone and no calculation is due, a
    -- round returns with the means and the offsets as they were, whatever the sensor reads: what
    -- disturbs the sensor later is never seen by the test for it.
    pub loop_blind :
        (s : Monitor World F)
        → fires s ≡ false
        → is_off s.sensor.mean ≡ false
        → (t : Monitor World F) × (loop size fuel s ≡ some t)
          × (t.sensor.mean ≡ s.sensor.mean)
          × (t.sensor.offset ≡ s.sensor.offset)
          × (t.offset_disturbed ≡ s.offset_disturbed)
    unfolding loop
    loop_blind s f q =
        let kept = calibrated-settle (observe s) ∙ calibrated-observe s in
        let shown = calibrated-set_alarms (settle (observe s)) ∙ kept in
        (
          set_alarms (settle (observe s)),
          rw (trigger_idle (observe s) f)
              (ground (arith, recheck_idle (settle (observe s)) (rw (ap (λ c. c.mean) kept) q))),
          ap (λ c. c.mean) shown,
          ap (λ c. c.offset) shown,
          ap (λ c. c.disturbed) shown,
        )
