-- ===== src/StreamerServer/Trigger.antt =====
-- StreamerServer/src/main.c: the reset of all status files, and the loop that repeats it.
pub mod Reset
pub mod Loop
use live_streamer.Common.{
  ℕ, ◌++◌, List, [], ◌∷◌, take, Bool, true, false, Option, none, some, ⊤, if◌then◌else◌,
}
use live_streamer.Text.{Text, codes}
use live_streamer.Machine.{M, pure, exit, modify, wait, gets, ◌>>=◌, ◌>>◌}
use live_streamer.Json.{Json}
use live_streamer.Files.{Files, from_file, to_file, object_add}
use live_streamer.StreamerServer.Json.{status_key, off}

-- An entry of `status/` as `readdir` gives it.
pub record Entry : Type 0 where
  pub d_name : Text
  pub is_dir : Bool

-- The globals of main.c: `trig`, `flag` and its own copy of `destroy_flag`, and the files; whether
-- the threads of the two servers run, and whether an alarm is set.
pub record Main (Obj : Type 0) : Type 0 where
  pub files : Files Obj
  pub trig : Bool
  pub flag : Bool
  pub destroy_flag : Bool
  pub thread_strm : Bool
  pub thread_plyr : Bool
  pub alarm_set : Bool

-- The signals that come in, the alarm with what `opendir` gives in its handler.
pub data Signal : Type 0 where
  sigalrm : Option (List Entry) → Signal
  sigint : Signal

module _ {Obj : Type 0} ⦃j : Json Obj⦄ where
  -- `snprintf(fn, 64, "status/%s", de->d_name)` and the rewrite of that file.
  unfoldable pub switch_off : Text → M (Files Obj) ⊤
  unfolding from_file object_add to_file
  switch_off d_name = do
    let fn = take 63 (codes "status/" ++ d_name)
    temp_obj ← from_file fn
    temp_obj ← object_add temp_obj status_key (some off)
    to_file fn temp_obj

  -- `while ((de = readdir(dr)) != NULL)`; directories are passed over.
  unfoldable pub switch_off_all : List Entry → M (Files Obj) ⊤
  switch_off_all [] = pure tt
  switch_off_all (de ∷ rest) =
      let others = switch_off_all rest in
      if de.is_dir then others else (switch_off de.d_name >> others)

  abbrev pub on_main_files : M (Files Obj) ⊤ → M (Main Obj) ⊤
  on_main_files g m = let (r, f) = g m.files in (r, record m { files = f })

  -- `opendir` gives NULL (`none`) or the entries; then `trig` is reset only after the sweep.
  unfoldable pub sweep : Option (List Entry) → M (Main Obj) ⊤
  sweep none = pure tt
  sweep (some entries) = do
    on_main_files (switch_off_all entries)
    modify (λ m. record m { trig = false })

  -- The handler, with `sig == SIGALRM`.
  unfoldable pub trigger : Bool → Option (List Entry) → M (Main Obj) ⊤
  trigger is_alarm dir = if is_alarm then sweep dir else pure tt

  -- `pthread_kill(t, SIGKILL)`: a thread that runs takes the signal, which ends the whole process;
  -- 137 is the status that a shell shows for it. One that has ended does not.
  unfoldable pub kill_thread : Bool → M (Main Obj) ⊤
  kill_thread runs = if runs then exit 137 else pure tt

  unfoldable pub int_mainhandler : M (Main Obj) ⊤
  unfolding kill_thread
  int_mainhandler = do
    strm ← gets (λ m. m.thread_strm)
    kill_thread strm
    plyr ← gets (λ m. m.thread_plyr)
    kill_thread plyr
    modify (λ m. record m { destroy_flag = true; flag = false })

  -- `while (flag)`: the head of the loop, up to `while (trig)`, and what follows it.
  unfoldable pub next_round : M (Main Obj) ⊤ → M (Main Obj) ⊤
  next_round rest = do
    flag ← gets (λ m. m.flag)
    if flag then (modify (λ m. record m { trig = true; alarm_set = true }) >> rest) else pure tt

  -- `while (trig) sleep(10);`, over the signals that come in, and the rounds after it. The alarm
  -- rings once, so that an alarm that is not set does not.
  unfoldable pub main_loop : List Signal → M (Main Obj) ⊤
  unfolding trigger int_mainhandler next_round
  main_loop [] = wait
  main_loop (sigint ∷ signals) = do int_mainhandler; main_loop signals
  main_loop (sigalrm dir ∷ signals) =
      let rest = main_loop signals in
      let ring : M (Main Obj) ⊤ = do
        modify (λ m. record m { alarm_set = false })
        trigger true dir
        trig ← gets (λ m. m.trig)
        if trig then rest else next_round rest
      in gets (λ m. m.alarm_set) >>= λ set. if set then ring else rest

  -- `main`: the first sweep, the two threads, of which the arguments say whether they run, and the
  -- loop.
  unfoldable pub main : Option (List Entry) → Bool → Bool → List Signal → M (Main Obj) ⊤
  unfolding next_round
  main dir strm plyr signals = do
    trigger true dir
    modify (λ m. record m { thread_strm = strm; thread_plyr = plyr })
    next_round (main_loop signals)
