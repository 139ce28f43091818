-- ===== src/StreamerServer/Trigger/Loop.antt =====
-- What the loop of main.c does, as long as `status/` can be read and after that.
use live_streamer.Common.{
  ℕ, zero, suc, ◌≡◌, refl, sym, subst, ◌∙◌, List, [], ◌∷◌, ◌++◌, replicate, true, false, Bool-cases,
  inl, inr, none, some, Bool, if◌then◌else◌, arith,
}
use live_streamer.Machine.{exited, waiting}
use live_streamer.Json.{Json}
use live_streamer.Files.{Files, write}
use live_streamer.StreamerServer.Json.{status_key, off}
use live_streamer.StreamerServer.Trigger.{
  Entry, Main, Signal, sigalrm, sigint, switch_off_all, trigger, sweep, kill_thread,
  int_mainhandler, next_round, main_loop, main,
}
use live_streamer.StreamerServer.Trigger.Reset.{
  AllRewritable, Rewritable, AllRewritable-write, Swept, switch_off_lem, switch_off_all_lem,
  path_of,
}

-- Alarms in n rounds, which find the same entries, one that cannot open the directory, and then
-- any signals.
abbrev pub until_error : ℕ → List Entry → List Signal → List Signal
until_error n es rest = replicate n (sigalrm (some es)) ++ sigalrm none ∷ rest

pub has_sigint : List Signal → Bool
has_sigint [] = false
has_sigint (sigint ∷ signals) = true
has_sigint (sigalrm dir ∷ signals) = has_sigint signals

module _ {Obj : Type 0} ⦃j : Json Obj⦄ where
  -- The files after a sweep.
  abbrev pub swept : List Entry → Files Obj → Files Obj
  swept es f = (switch_off_all es f).1

  swept_dir :
      (f : Files Obj) (e : Entry) (es : List Entry)
      → e.is_dir ≡ true
      → swept (e ∷ es) f ≡ swept es f
  unfolding switch_off_all
  swept_dir f e es d = ground arith

  swept_file :
      (f : Files Obj) (e : Entry) (es : List Entry)
      → e.is_dir ≡ false
      → (r : Rewritable f (path_of e.d_name))
      → swept (e ∷ es) f ≡ swept es (write f (path_of e.d_name) (j.add r.object status_key off))
  unfolding switch_off_all
  swept_file f e es d r = ground (arith, switch_off_lem f e.d_name r)

  -- A sweep leaves every file rewritable.
  AllRewritable-swept :
      (f : Files Obj) (es ds : List Entry)
      → AllRewritable f es
      → AllRewritable f ds
      → AllRewritable (swept es f) ds
  unfolding switch_off_all
  AllRewritable-swept f [] ds a b = b
  AllRewritable-swept f (e ∷ es) ds a b = elim (Bool-cases e.is_dir) [
    | inl d ↦
        subst (λ x. AllRewritable x ds) (sym (swept_dir f e es d))
          (AllRewritable-swept f es ds a.1 b)
    | inr d ↦
        let r = a.0 d in
        let o = j.add r.object status_key off in
        let holds = j.add-is_object r.object status_key off r.is_object in
        let f' = write f (path_of e.d_name) o in
        let a' = AllRewritable-write f (path_of e.d_name) o es holds r.can_write a.1 in
        let b' = AllRewritable-write f (path_of e.d_name) o ds holds r.can_write b in
        subst (λ x. AllRewritable x ds) (sym (swept_file f e es d r))
          (AllRewritable-swept f' es ds a' b')
  ]

  -- Files that a sweep before left alone, or switched off.
  Swept-trans :
      (f f' f'' : Files Obj) (es : List Entry) → Swept f f' es → Swept f' f'' es → Swept f f'' es
  Swept-trans f f' f'' es a b = record {
    switched = b.switched;
    untouched = λ q c. b.untouched q c ∙ a.untouched q c;
  }

  -- In a round whose alarm could not open the directory.
  stalled_lem :
      (signals : List Signal) (m : Main Obj)
      → m.alarm_set ≡ false
      → m.thread_strm ≡ true
      → main_loop signals m ≡ (if has_sigint signals then exited 137 else waiting, m)
  unfolding main_loop int_mainhandler kill_thread has_sigint
  stalled_lem [] m a t = refl
  stalled_lem (sigint ∷ signals) m a t = simp t
  stalled_lem (sigalrm dir ∷ signals) m a t = simp a (stalled_lem signals m a t)

  -- In a round whose alarm is set.
  abbrev begun : Main Obj → Main Obj
  begun m = record m { trig = true; alarm_set = true }

  -- A round of the loop whose sweep ends.
  round_lem :
      (m : Main Obj) (es : List Entry) (signals : List Signal)
      → m.flag ≡ true
      → AllRewritable m.files es
      → main_loop (sigalrm (some es) ∷ signals) (begun m)
        ≡ main_loop signals (begun (record m { files = swept es m.files }))
  unfolding main_loop trigger sweep next_round
  round_lem m es signals h a = simp (h, (switch_off_all_lem m.files es a).0)

  loop_lem :
      (n : ℕ) (f : Files Obj) (m : Main Obj) (es : List Entry) (rest : List Signal)
      → m.flag ≡ true
      → m.thread_strm ≡ true
      → AllRewritable m.files es
      → Swept f m.files es
      → let (r, m') = main_loop (until_error n es rest) (begun m) in
        (r ≡ (if has_sigint rest then exited 137 else waiting))
        × (m'.trig ≡ true)
        × Swept f m'.files es
  unfolding main_loop trigger sweep
  loop_lem zero f m es rest h t a w =
      let m' = record m { trig = true; alarm_set = false } in
      rw (stalled_lem rest m' refl t) (refl, refl, w)
  loop_lem (suc n) f m es rest h t a w =
      let m' : Main Obj = record m { files = swept es m.files } in
      subst
        (λ x.
          (x.0 ≡ (if has_sigint rest then exited 137 else waiting))
          × (x.1.trig ≡ true)
          × Swept f x.1.files es)
        (sym (round_lem m es (until_error n es rest) h a))
        (loop_lem n f m' es rest h t (AllRewritable-swept m.files es es a a)
          (Swept-trans f m.files m'.files es w (switch_off_all_lem m.files es a).1))

  first_round :
      (m : Main Obj) (es : List Entry) (plyr : Bool) (signals : List Signal)
      → m.flag ≡ true
      → AllRewritable m.files es
      → main (some es) true plyr signals m
        ≡ main_loop signals
            (begun (record m { files = swept es m.files; thread_strm = true; thread_plyr = plyr }))
  unfolding main trigger sweep next_round
  first_round m es plyr signals h a = simp (h, (switch_off_all_lem m.files es a).0)

  -- While the directory can be read, each round switches the listed files off and goes on. The
  -- first round in which it cannot be opened is the last one: no further alarm is set, and the loop
  -- sleeps on with `trig` set. Only a SIGINT ends it, which kills the process with its first call
  -- if the streamer server's thread runs: neither flag is cleared.
  pub main_stalls :
      (n : ℕ) (m : Main Obj) (es : List Entry) (plyr : Bool) (rest : List Signal)
      → m.flag ≡ true
      → AllRewritable m.files es
      → let (r, m') = main (some es) true plyr (until_error n es rest) m in
        (r ≡ (if has_sigint rest then exited 137 else waiting))
        × (m'.trig ≡ true)
        × Swept m.files m'.files es
  main_stalls n m es plyr rest h a =
      let m' : Main Obj = record m {
        files = swept es m.files;
        thread_strm = true;
        thread_plyr = plyr;
      } in
      subst
        (λ x.
          (x.0 ≡ (if has_sigint rest then exited 137 else waiting))
          × (x.1.trig ≡ true)
          × Swept m.files x.1.files es)
        (sym (first_round m es plyr (until_error n es rest) h a))
        (loop_lem n m.files m' es rest h refl (AllRewritable-swept m.files es es a a)
          (switch_off_all_lem m.files es a).1)
