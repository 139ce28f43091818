-- ===== src/Examples/Tremor.antt =====
-- The properties of EARTHQUAKE.cpp at concrete inputs: a sensor whose state is its offset registers,
-- and numbers in units of 0.00001.
use live_streamer.Common.{
  ℕ, ◌+◌, ◌-◌, ◌≤◌, ◌⊎◌, ◌*◌, ◌/◌, ◌≡◌, ◌≢◌, refl, ◌<◌, [], ◌∷◌, true, false, not, none, some,
  arith, ltb, leb,
}
use live_streamer.Common.Int.{ℤ, pos, negsuc, pos_part, neg_part, sub_ℕ, ◌-ℤ◌, IsInt16}
use live_streamer.Text.{codes}
use live_streamer.Earthquake.{Axes, Device, Sensor}
use live_streamer.Earthquake.Floats.{Floats}
use live_streamer.Earthquake.Ideal.{Ideal, saturate, gauge, gauges}
use live_streamer.Earthquake.Offsets.{
  no_axes, set_offset_of_mpu, first_offset, data_ready, error_of, is_quiet,
}
use live_streamer.Earthquake.Settles.{settled, set_offset_of_mpu_settles}
use live_streamer.Earthquake.Report.{pga_verdict, pgv_verdict}
use live_streamer.Earthquake.Ladder.{level, reached, pga_limits, level-pga_verdict}
use live_streamer.Earthquake.Monitor.{Line, Monitor, say, read_raw, sum_z, low_pass, in_g}
use live_streamer.Earthquake.Calculate.{judge, earthquake_using_accel, earthquake_using_velocity}
use live_streamer.Earthquake.Judge.{branch_of, judge_lem}
use live_streamer.Earthquake.Frame.{calculations}
use live_streamer.Earthquake.Watch.{
  main, observe, announce, count_dead, read_temperature, accelerate, shaken,
}
use live_streamer.Earthquake.Rounds.{IsCounting, fires, frame-loop}
use live_streamer.Earthquake.Pauses.{loop_pauses, loop_alarms}
use live_streamer.Earthquake.Runs.{loop-Returns, rounds-Returns, main-Returns, main_stuck}

-- The readings of the sensor with empty registers.
abbrev skew : Axes ℤ
skew = record { x = pos 1003; y = negsuc 412; z = pos 16001 }

saturate-IsInt16 : (a : ℤ) → IsInt16 (saturate a)
unfolding saturate
saturate-IsInt16 a = ground arith

gauge-IsInt16 : (b o : ℤ) → IsInt16 (gauge b o)
unfolding gauge
gauge-IsInt16 b o =
    saturate-IsInt16 (sub_ℕ (pos_part b + 8 * pos_part o) (neg_part b + 8 * neg_part o))

instance abbrev sensor : Device (Axes ℤ)
sensor = record {
  initialize = λ w. w;
  test_connection = λ w. (true, w);
  set_x_accel_offset = λ o w. record w { x = o };
  set_y_accel_offset = λ o w. record w { y = o };
  set_z_accel_offset = λ o w. record w { z = o };
  get_motion = λ w. (gauges skew w, w);
  get_acceleration_x = λ w. (pos 1000, w);
  get_acceleration_y = λ w. (pos 1000, w);
  get_acceleration_z = λ w. (gauge skew.z w.z, w);
  get_temperature = λ w. (pos 0, w);
  gettimeofday = λ w. ((pos 0, pos 0), w);
  get_motion-IsInt16 =
      λ w. (gauge-IsInt16 skew.x w.x, gauge-IsInt16 skew.y w.y, gauge-IsInt16 skew.z w.z);
}

abbrev ideal : Ideal sensor
ideal = record {
  bias = skew;
  offset_of = λ w. w;
  bias-IsInt16 = omega arith;
  reads = λ w. refl;
  keeps = λ w. refl;
  sets_x = λ o w. refl;
  sets_y = λ o w. refl;
  sets_z = λ o w. refl;
}

-- Numbers in units of 0.00001, so that 1.0 is 100000; a product or quotient is rounded down.
less_eq-less_lem : (x n : ℕ) → leb n x ≡ not (ltb x n)
less_eq-less_lem x n = ground arith

less-lit_lem : (x n m : ℕ) → n < m → ltb x n ≡ true → ltb x m ≡ true
less-lit_lem x n m h e = ground arith

lit-less_lem : (x n m : ℕ) → n < m → leb m x ≡ true → ltb n x ≡ true
lit-less_lem x n m h e = ground arith

lit-apart_lem : (x n m : ℕ) → n < m → ltb x n ≡ true → ltb m x ≡ false
lit-apart_lem x n m h e = ground arith

instance abbrev fixed_point : Floats ℕ
fixed_point = record {
  lit = λ n. n;
  of_int = λ a. pos_part a * 100000;
  single = λ x. x;
  add = λ x y. x + y;
  sub = λ x y. x - y;
  mul = λ x y. x * y / 100000;
  div = λ x y. x * 100000 / y;
  fabs = λ x. x;
  ceil = λ x. (x + 99999) / 100000 * 100000;
  trunc = λ x. pos (x / 100000);
  less = ltb;
  less_eq = leb;
  to_text = λ x. x ∷ [];
  is_nan = λ x. false;
  less_eq-less = λ x n h. less_eq-less_lem x n;
  less-less_eq = λ x n h. less_eq-less_lem n x;
  less-lit = less-lit_lem;
  lit-less = λ x n m h k e. lit-less_lem x n m h e;
  lit-apart = lit-apart_lem;
}

abbrev still : Sensor (Axes ℤ)
still = record { world = no_axes; mean = no_axes; offset = no_axes }

abbrev zeros : Axes ℕ
zeros = record { x = 0; y = 0; z = 0 }

-- The globals, with `count5` at its end so that a calculation is due.
abbrev started : {World : Type 0} → Sensor World → Monitor World ℕ
started sensor' = record {
  sensor = sensor';
  printed = [];
  text = codes "null";
  count1 = pos 0;
  count2 = 0;
  count3 = pos 0;
  count5 = 10;
  count6 = 0;
  offset_disturbed = 0;
  tmp_c = 0;
  fxg = 0;
  fyg = 0;
  abs_accel = zeros;
  prev_accel = zeros;
  velocity_lpf = zeros;
  prev_time = record { x = (pos 0, pos 0); y = (pos 0, pos 0); z = (pos 0, pos 0) };
  high_accel = zeros;
  high_velocity = zeros;
  system_perfect = false;
  system_mal = false;
  temp_alarm = false;
  earthquake_alarm = false;
}

abbrev armed : Monitor (Axes ℤ) ℕ
armed = started still

abbrev unplugged : Sensor ℕ
unplugged = record { world = 0; mean = no_axes; offset = no_axes }

armed-IsCounting : IsCounting armed
armed-IsCounting = record { within = omega arith; turning = refl }

one_pos : 0 < 1
one_pos = omega arith

-- The first round from there, and nine more.
abbrev shaken_once : Monitor (Axes ℤ) ℕ
shaken_once = (loop-Returns 1 0 ideal one_pos armed).0

abbrev nine_later : Monitor (Axes ℤ) ℕ
nine_later = (rounds-Returns 1 0 ideal one_pos 9 shaken_once).0

fires-armed : fires armed ≡ true
unfolding observe announce count_dead read_temperature accelerate shaken read_raw low_pass in_g
    sum_z
fires-armed = refl

calculations-shaken_once : calculations (shaken_once).printed ≢ calculations (armed).printed
calculations-shaken_once same =
    let step =
      frame-loop 1 1 armed shaken_once armed-IsCounting (loop-Returns 1 0 ideal one_pos armed).1 in
    ground (arith, step, fires-armed)

-- A sensor that is not connected.
abbrev dead : Device ℕ
dead = record {
  initialize = λ w. w;
  test_connection = λ w. (false, w);
  set_x_accel_offset = λ o w. w;
  set_y_accel_offset = λ o w. w;
  set_z_accel_offset = λ o w. w;
  get_motion = λ w. (no_axes, w);
  get_acceleration_x = λ w. (pos 0, w);
  get_acceleration_y = λ w. (pos 0, w);
  get_acceleration_z = λ w. (pos 0, w);
  get_temperature = λ w. (pos 0, w);
  gettimeofday = λ w. ((pos 0, pos 0), w);
  get_motion-IsInt16 = λ w. omega arith;
}

far_from_one_g : is_quiet (pos 16384 -ℤ pos 0) ≡ false
unfolding ◌-ℤ◌
far_from_one_g = refl

set_offset_of_mpu_settles_example :
    (s' : Sensor (Axes ℤ)) × (set_offset_of_mpu 1000 1 still ≡ some s')
    × (s'.offset ≡ first_offset skew)
    × (s'.world ≡ s'.offset)
    × (s'.mean ≡ settled skew)
    × (data_ready (error_of s'.mean) ≡ 7)
set_offset_of_mpu_settles_example = set_offset_of_mpu_settles ideal 1000 0 still (omega arith)

main_stuck_example : main ⦃dev = dead⦄ ⦃fl = fixed_point⦄ 1000 5 3 (started unplugged) ≡ none
main_stuck_example =
    main_stuck ⦃dev = dead⦄ ⦃fl = fixed_point⦄ 1000 5 (pos 0) (λ w. refl) far_from_one_g
      (omega arith) 3 (started unplugged)

level-pga_verdict_example : level (pga_verdict {F = ℕ} 12345) ≡ 1 + reached {F = ℕ} pga_limits 12345
level-pga_verdict_example = level-pga_verdict 12345 refl

judge_lem_example :
    ((branch_of {F = ℕ} 20000 5000000 ≡ 4)
      × (8 ≤ level (pgv_verdict {F = ℕ} 5000000))
      × (level (pgv_verdict {F = ℕ} 5000000) ≤ 10)
      × (judge 1000 1 20000 5000000 armed
          ≡ earthquake_using_velocity 1000 1 5000000 (say (Line.branch 4) armed)))
    ⊎ (judge 1000 1 20000 5000000 armed
        ≡ earthquake_using_accel 1000 1 20000
            (say (Line.branch (branch_of {F = ℕ} 20000 5000000)) armed))
judge_lem_example = judge_lem 1000 1 20000 5000000 armed refl refl

loop_pauses_example :
    (calculations (shaken_once).printed ≡ calculations (armed).printed + 1)
    × (calculations (nine_later).printed ≡ calculations (shaken_once).printed)
    × ((nine_later).count5 ≡ 10)
loop_pauses_example =
    loop_pauses 1 1 armed shaken_once nine_later armed-IsCounting
      (loop-Returns 1 0 ideal one_pos armed).1 calculations-shaken_once
      (rounds-Returns 1 0 ideal one_pos 9 shaken_once).1

loop_alarms_example :
    IsCounting shaken_once
    × ((armed).count2 ≤ (shaken_once).count2)
    × ((shaken_once).system_mal ≡ leb 30 (shaken_once).count2)
    × ((shaken_once).system_perfect ≡ ltb (shaken_once).count2 30)
    × ((shaken_once).earthquake_alarm ≡ false)
loop_alarms_example =
    loop_alarms 1 1 armed shaken_once armed-IsCounting (loop-Returns 1 0 ideal one_pos armed).1

main-Returns_example : (t : Monitor (Axes ℤ) ℕ) × (main 1000 1 500 armed ≡ some t)
main-Returns_example = main-Returns 1000 0 ideal (omega arith) 500 armed
