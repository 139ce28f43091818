-- ===== src/FlvRecorder/Run.antt =====
-- Backup/Streamer/src/flv.c: linking the pipeline, running it and its end.
use live_streamer.Common.{List, [], ◌∷◌, Bool, true, false, ◌&&◌, ⊤, ℕ, if◌then◌else◌}
use live_streamer.Machine.{M, pure, crash, exit, wait, gets, modify, ◌>>=◌, ◌>>◌}
use live_streamer.Json.{Json}
use live_streamer.Streaming.{GstState, playing}
use live_streamer.Streaming.Control.{Message, eos, error, info, other}
use live_streamer.FlvRecorder.{
  Gst, Recorder, call, on_pipeline, unref_pipeline, initialize, set_prop, pipeline, bin, a_source,
  a_rate_conv, v_source, q_audio, q_cam, q_local, q_live, parse, flvmux, aacmux, tee, sink_local,
  sink_live, mux_progres, lcl_progres, live_progres, v_cap, a_cap, bin_add, link, link_filtered,
  get_template, request_pad, pad_link, unref_pad, add_ghost_pad, remove_watch, set_state, loop_run,
  loop_quit, loop_unref,
}

module _ {Obj : Type 0} where
  -- The class of the tee is read through its pointer. It gives whether it returned 0.
  unfoldable pub set_tee : Gst → M (Recorder Obj) Bool
  unfolding unref_pipeline
  set_tee g =
      if g.makes tee
      then (do
        call get_template
        if g.has_template
            then (do call (request_pad q_local); call (request_pad q_live); pure true)
            else (do unref_pipeline; pure false))
      else crash

  -- The end of `linkAll`, once both queues are linked to the tee.
  unfoldable pub finish_links : M (Recorder Obj) Bool
  finish_links = do
    call (unref_pad q_local)
    call (unref_pad q_live)
    call (link (q_local ∷ lcl_progres ∷ sink_local ∷ []))
    call (bin_add bin (live_progres ∷ sink_live ∷ []))
    call (link (live_progres ∷ sink_live ∷ []))
    call add_ghost_pad
    call (link (q_live ∷ bin ∷ []))
    pure true

  -- The pads are NULL, which do not link, if `setTee` has failed.
  unfoldable pub link_pads : Gst → Bool → M (Recorder Obj) Bool
  unfolding unref_pipeline finish_links
  link_pads g has_pads = do
    call (pad_link q_local)
    if has_pads && g.pads_link q_local
        then (do
          call (pad_link q_live)
          if g.pads_link q_live then finish_links else (do unref_pipeline; pure false))
        else (do unref_pipeline; pure false)

  unfoldable pub link_all : Gst → Bool → M (Recorder Obj) Bool
  unfolding link_pads on_pipeline
  link_all g has_pads = do
    on_pipeline (
        bin_add pipeline (
          v_source ∷ a_source ∷ a_rate_conv ∷ q_cam ∷ q_audio ∷ parse ∷ flvmux ∷ mux_progres ∷ tee
          ∷ q_local ∷ lcl_progres ∷ sink_local ∷ q_live ∷ bin ∷ aacmux ∷ []))
    call (link_filtered v_source q_cam v_cap)
    call (link_filtered a_source a_rate_conv a_cap)
    call (link (a_rate_conv ∷ q_audio ∷ aacmux ∷ flvmux ∷ []))
    call (link (q_cam ∷ parse ∷ flvmux ∷ mux_progres ∷ tee ∷ []))
    link_pads g has_pads

  unfoldable pub stop : M (Recorder Obj) ⊤
  unfolding on_pipeline unref_pipeline
  stop = do
    on_pipeline (set_state pipeline GstState.null)
    unref_pipeline
    call remove_watch
    call loop_unref

  -- The first SIGINT quits the loop, and any other ends the process.
  unfoldable pub int_handler : M (Recorder Obj) ⊤
  unfolding stop
  int_handler = do
    first ← gets (λ r. r.first_int)
    if first
        then (do call loop_quit; modify (λ r. record r { first_int = false }))
        else (do stop; exit 0)

  -- The watch of the bus: whether the message quits the loop.
  unfoldable pub bus_call : Message → M (Recorder Obj) Bool
  bus_call eos = do call loop_quit; pure true
  bus_call error = do call loop_quit; pure true
  bus_call info = do call loop_quit; pure true
  bus_call other = pure false

-- What comes in while the main loop runs.
pub data Happening : Type 0 where
  message : Message → Happening
  sigint : Happening

module _ {Obj : Type 0} where
  -- `g_main_loop_run`: it returns once the loop was quit, and blocks for as long as nothing comes.
  unfoldable pub main_loop : List Happening → M (Recorder Obj) ⊤
  unfolding bus_call int_handler
  main_loop [] = wait
  main_loop (message m ∷ rest) = do quits ← bus_call m; if quits then pure tt else main_loop rest
  main_loop (sigint ∷ rest) = int_handler

  unfoldable pub play : List Happening → M (Recorder Obj) ⊤
  unfolding on_pipeline main_loop
  play happenings = do on_pipeline (set_state pipeline playing); call loop_run; main_loop happenings

module _ {Obj : Type 0} ⦃j : Json Obj⦄ where
  -- `ret` is unsigned, so that `ret < 0` is false, whatever `initialize` and `setTee` gave.
  unfoldable pub main : Gst → List Happening → M (Recorder Obj) ℕ
  unfolding link_all play stop
  main g happenings = do
    initialize g
    set_prop g
    has_pads ← set_tee g
    link_all g has_pads
    play happenings
    stop
    pure 0
