-- ===== src/Earthquake/Frame.antt =====
-- What a calculation and a calibration leave as it is, in the state of EARTHQUAKE.cpp.
use live_streamer.Common.{
  inl, inr, ℕ, zero, suc, ◌≡◌, refl, ◌∙◌, List, [], ◌∷◌, Bool, true, false, some, arith,
  Option-cases,
}
use live_streamer.Earthquake.{Device}
use live_streamer.Earthquake.Offsets.{set_offset_of_mpu}
use live_streamer.Earthquake.Floats.{Floats}
use live_streamer.Earthquake.Monitor.{Line, Monitor, Act, ◌>>◌, modify, when, say}
use live_streamer.Earthquake.Calculate.{
  shake_accel, shake_velocity, shake_peaks, shake_count, shake, shakes, forget, reset_offset,
  earthquake_using_accel, earthquake_using_velocity, judge, conclude, earthquake_calculate, mean_of,
}

-- How often a calculation was announced.
unfoldable pub calculations : {F : Type 0} → List (Line F) → ℕ
calculations [] = 0
calculations (Line.calculating ∷ ls) = suc (calculations ls)
calculations (_ ∷ ls) = calculations ls

pub record Frame : Type 0 where
  pub count2 : ℕ
  pub count5 : ℕ
  pub count6 : ℕ
  pub calculated : ℕ
  pub system_perfect : Bool
  pub system_mal : Bool
  pub earthquake_alarm : Bool

module _ {World F : Type 0} where
  abbrev pub frame : Monitor World F → Frame
  frame s = record {
    count2 = s.count2;
    count5 = s.count5;
    count6 = s.count6;
    calculated = calculations s.printed;
    system_perfect = s.system_perfect;
    system_mal = s.system_mal;
    earthquake_alarm = s.earthquake_alarm;
  }

  abbrev pub Keeps : Act (Monitor World F) → Type 0
  Keeps m = (s t : Monitor World F) → m s ≡ some t → frame t ≡ frame s

  pub >>-Keeps : (m k : Act (Monitor World F)) → Keeps m → Keeps k → Keeps (m >> k)
  >>-Keeps m k hm hk s t e = elim (Option-cases (m s)) [
    | inl stops ↦ cc (rw stops at e)
    | inr (u, goes) ↦ hk u t (rw goes at e) ∙ hm s u goes
  ]

  pub when-Keeps : (b : Bool) (m : Act (Monitor World F)) → Keeps m → Keeps (when b m)
  when-Keeps true m h s t e = h s t e
  when-Keeps false m h s t e = cc

  pub modify-Keeps :
      (f : Monitor World F → Monitor World F)
      → ((s : Monitor World F) → frame (f s) ≡ frame s)
      → Keeps (modify f)
  modify-Keeps f h s t e = ground (arith, h s)

  in_turn-Keeps :
      (b1 b2 b3 b4 b5 b6 : Bool) (m1 m2 m3 m4 m5 m6 : Act (Monitor World F))
      → Keeps m1
      → Keeps m2
      → Keeps m3
      → Keeps m4
      → Keeps m5
      → Keeps m6
      → Keeps do when b1 m1; when b2 m2; when b3 m3; when b4 m4; when b5 m5; when b6 m6
  in_turn-Keeps b1 b2 b3 b4 b5 b6 m1 m2 m3 m4 m5 m6 h1 h2 h3 h4 h5 h6 =
      >>-Keeps _ _ (when-Keeps b1 m1 h1) (
        >>-Keeps _ _ (when-Keeps b2 m2 h2) (
          >>-Keeps _ _ (when-Keeps b3 m3 h3) (
            >>-Keeps _ _ (when-Keeps b4 m4 h4)
              (>>-Keeps _ _ (when-Keeps b5 m5 h5) (when-Keeps b6 m6 h6)))))

module _ {World F : Type 0} ⦃dev : Device World⦄ ⦃fl : Floats F⦄ where
  frame-shake : (s : Monitor World F) → frame (shake s) ≡ frame s
  unfolding shake shake_accel shake_velocity shake_peaks shake_count calculations
  frame-shake s = ground arith

  frame-shakes : (n : ℕ) (s : Monitor World F) → frame (shakes n s) ≡ frame s
  unfolding shakes
  frame-shakes zero s = refl
  frame-shakes (suc n) s = frame-shakes n (shake s) ∙ frame-shake s

  module _ (size fuel : ℕ) where
    pub reset_offset-Keeps : Keeps {World = World} {F = F} (reset_offset size fuel)
    unfolding reset_offset
    reset_offset-Keeps s t e = elim (Option-cases (set_offset_of_mpu size fuel s.sensor)) [
      | inl stops ↦ ground arith
      | inr (sensor', goes) ↦ ground arith
    ]

    earthquake_using_accel-Keeps :
        (pga : F) → Keeps {World = World} (earthquake_using_accel size fuel pga)
    unfolding earthquake_using_accel calculations
    earthquake_using_accel-Keeps pga s t e = reset_offset-Keeps _ t e

    earthquake_using_velocity-Keeps :
        (pgv : F) → Keeps {World = World} (earthquake_using_velocity size fuel pgv)
    unfolding earthquake_using_velocity calculations
    earthquake_using_velocity-Keeps pgv s t e = reset_offset-Keeps _ t e

    judge-Keeps : (pga pgv : F) → Keeps {World = World} (judge size fuel pga pgv)
    unfolding judge calculations
    judge-Keeps pga pgv =
        let branch = λ (n : ℕ) (m : Act (Monitor World F)) (h : Keeps m).
          >>-Keeps (modify (say (Line.branch n))) m (modify-Keeps _ (λ s. refl)) h in
        let accel = λ (n : ℕ). branch n _ (earthquake_using_accel-Keeps pga) in
        in_turn-Keeps _ _ _ _ _ _ _ _ _ _ _ _ (accel 1) (accel 2) (accel 3)
          (branch 4 _ (earthquake_using_velocity-Keeps pgv)) (accel 5) (accel 6)

    pub earthquake_calculate-Keeps : Keeps {World = World} {F = F} (earthquake_calculate size fuel)
    unfolding earthquake_calculate conclude forget calculations
    earthquake_calculate-Keeps s t e =
        let shaken = shakes 240 s in
        let pga = mean_of shaken.high_accel in
        let pgv = mean_of shaken.high_velocity in
        let begun = say (Line.pgv_is pgv) (say (Line.pga_is pga) shaken) in
        elim (Option-cases (judge size fuel pga pgv begun)) [
          | inl stops ↦ ground arith
          | inr (judged, goes) ↦
              ground (arith, judge-Keeps pga pgv begun judged goes, frame-shakes 240 s)
        ]
