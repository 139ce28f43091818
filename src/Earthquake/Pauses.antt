-- ===== src/Earthquake/Pauses.antt =====
-- How often a calculation runs in the rounds of `loop`, and what the alarms show after each.
use live_streamer.Common.{ℕ, zero, suc, ◌+◌, ◌≤◌, ◌≡◌, ◌≢◌, ◌∙◌, false, some, arith, ltb, leb}
use live_streamer.Earthquake.{Device}
use live_streamer.Earthquake.Floats.{Floats}
use live_streamer.Earthquake.Monitor.{Monitor, >>-eq-some}
use live_streamer.Earthquake.Frame.{calculations}
use live_streamer.Earthquake.Watch.{loop, rounds}
use live_streamer.Earthquake.Rounds.{
  IsCounting, frame-loop, loop-IsCounting, loop_waits, observe-count2,
}

module _ {World F : Type 0} ⦃dev : Device World⦄ ⦃fl : Floats F⦄ (size fuel : ℕ) where
  rounds_wait :
      (n : ℕ) (s t : Monitor World F)
      → IsCounting s
      → n + s.count5 ≤ 10
      → rounds size fuel n s ≡ some t
      → (calculations t.printed ≡ calculations s.printed) × (t.count5 ≡ n + s.count5)
  unfolding rounds
  rounds_wait zero s t c h e = ground arith
  rounds_wait (suc n) s t c h e =
      let (u, first, rest) = >>-eq-some (loop size fuel) (rounds size fuel n) s e in
      let step = loop_waits size fuel s u c (omega arith) first in
      let later =
        rounds_wait n u t (loop-IsCounting size fuel s u c first) (omega (arith, step.1)) rest in
      (later.0 ∙ step.0, omega (arith, later.1, step.1))

  -- Between two calculations lie at least nine rounds: after a round that makes one, the next
  -- nine make none, and leave the program ready for another.
  pub loop_pauses :
      (s u t : Monitor World F)
      → IsCounting s
      → loop size fuel s ≡ some u
      → calculations u.printed ≢ calculations s.printed
      → rounds size fuel 9 u ≡ some t
      → (calculations u.printed ≡ calculations s.printed + 1)
        × (calculations t.printed ≡ calculations u.printed)
        × (t.count5 ≡ 10)
  loop_pauses s u t c first made rest =
      let step = frame-loop size fuel s u c first in
      let fired : (calculations u.printed ≡ calculations s.printed + 1) × (u.count5 ≡ 1) =
        ground (arith, step) in
      let later =
        rounds_wait 9 u t (loop-IsCounting size fuel s u c first) (omega (arith, fired.1)) rest in
      (fired.0, later.0, omega (arith, later.1, fired.1))

  -- Whatever the sensor reads, a round that returns keeps the counters in step (`count5` at most
  -- 10, `count6` 1 exactly at 9); the count of dead readings never falls; the alarm for a broken
  -- system is on, and the sign of a working one off, exactly from 30 dead readings on, so they
  -- stay so for ever; and the alarm for an earthquake is off again, whether there was one or not.
  pub loop_alarms :
      (s t : Monitor World F)
      → IsCounting s
      → loop size fuel s ≡ some t
      → IsCounting t
        × (s.count2 ≤ t.count2)
        × (t.system_mal ≡ leb 30 t.count2)
        × (t.system_perfect ≡ ltb t.count2 30)
        × (t.earthquake_alarm ≡ false)
  loop_alarms s t c e =
      let step = frame-loop size fuel s t c e in
      (
        loop-IsCounting size fuel s t c e,
        ground (arith, step, observe-count2 s),
        ground (arith, step),
        ground (arith, step),
        ground (arith, step),
      )
