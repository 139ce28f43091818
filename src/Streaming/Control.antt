-- ===== src/Streaming/Control.antt =====
-- The functions that run the pipeline and take it down.
use live_streamer.Common.{ℕ, [], ◌∷◌, Bool, true, ⊤}
use live_streamer.Machine.{M, pure, gets, ◌>>=◌, ◌>>◌}
use live_streamer.Json.{Json}
use live_streamer.Streaming.{
  Gst, Pipe, Element, GstState, changed, call, on_pipeline, unref_pipeline, bin_remove, unlink,
  remove_pad, pad_unlink, remove_ghost_pad, remove_watch, set_state, unref, loop_run, loop_quit,
  loop_unref, thread_new, q_live, sink_live, live_progres, bin, paused, playing,
}
use live_streamer.Streaming.Build.{init_live, initialize}

module _ {Obj : Type 0} where
  -- `g_main_loop_run` blocks the thread that calls it, until the loop is quit.
  unfoldable pub play : Gst → M (Pipe Obj) ℕ
  unfolding on_pipeline changed
  play g = do
    at ← gets (λ p. p.pipeline_at)
    on_pipeline (set_state Element.pipeline playing)
    call loop_run
    pure (changed g at Element.pipeline playing)

  unfoldable pub pause : Gst → M (Pipe Obj) ℕ
  unfolding on_pipeline changed
  pause g = do
    at ← gets (λ p. p.pipeline_at)
    on_pipeline (set_state Element.pipeline paused)
    pure (changed g at Element.pipeline paused)

  unfoldable pub stop_live : M (Pipe Obj) ⊤
  unfolding on_pipeline
  stop_live = do
    call (set_state bin GstState.null)
    call (set_state q_live GstState.null)
    call (unlink (live_progres ∷ sink_live ∷ []))
    call remove_ghost_pad
    call (unlink (q_live ∷ bin ∷ []))
    call (remove_pad q_live)
    call (pad_unlink q_live)
    call (bin_remove bin (live_progres ∷ sink_live ∷ []))
    on_pipeline (bin_remove Element.pipeline (q_live ∷ bin ∷ []))
    on_pipeline (bin_remove Element.pipeline (bin ∷ []))
    call (unref bin)

  unfoldable pub start_streaming : M (Pipe Obj) ⊤
  start_streaming = call thread_new

  unfoldable pub stop_streaming : Gst → M (Pipe Obj) ℕ
  unfolding on_pipeline unref_pipeline changed
  stop_streaming g = do
    call loop_quit
    at ← gets (λ p. p.pipeline_at)
    on_pipeline (set_state Element.pipeline GstState.null)
    unref_pipeline
    call remove_watch
    call loop_unref
    pure (changed g at Element.pipeline GstState.null)

-- The messages of the bus that are told apart.
pub data Message : Type 0 where
  eos error info other : Message

module _ {Obj : Type 0} where
  -- It returns TRUE, so that the watch stays.
  unfoldable pub bus_call : Gst → Message → M (Pipe Obj) Bool
  unfolding stop_streaming
  bus_call g eos = do stop_streaming g; pure true
  bus_call g error = do stop_streaming g; pure true
  bus_call g info = pure true
  bus_call g other = pure true

module _ {Obj : Type 0} ⦃j : Json Obj⦄ where
  unfoldable pub start_live : Gst → M (Pipe Obj) ⊤
  unfolding on_pipeline
  start_live g = do
    on_pipeline (set_state Element.pipeline paused)
    init_live g
    on_pipeline (set_state Element.pipeline playing)

  -- Whether `setAll` returned 0.
  unfoldable pub set_all : Gst → M (Pipe Obj) Bool
  set_all g = do stop_streaming g; stop_live; initialize g
