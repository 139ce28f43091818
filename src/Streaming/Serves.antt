-- ===== src/Streaming/Serves.antt =====
-- The functions of VA_gstreamer.c as the pipeline that the dialogue uses.
use live_streamer.Common.{◌+◌, ◌≡◌, refl, ap, ◌∙◌, Bool, true, ◌&&◌, some, arith}
use live_streamer.Text.{Text, codes}
use live_streamer.Machine.{ok}
use live_streamer.Json.{Json, get_string}
use live_streamer.Files.{Files}
use live_streamer.StreamerClient.State.{Streaming, State, get_json_value_from_file, properties_file}
use live_streamer.StreamerClient.Comm.{obey}
use live_streamer.StreamerClient.Comm.Obey.{
  Works, Action, Status, word, followed, calls, obey-calls,
}
use live_streamer.System.{System}
use live_streamer.Streaming.{
  Gst, Pipe, alive, used, changed, on_pipeline, set_state, paused, Element, GstState, bin, q_live,
  sink_live, live_progres,
}
use live_streamer.Streaming.Build
use live_streamer.Streaming.Build.{
  tee_to, get_cur_time, set_camera, camera_caps, camera_device, camera_links, init_camera,
  init_local, init_live, init_core, initialize,
}
use live_streamer.Streaming.Control
use live_streamer.Streaming.Control.{
  stop_live, start_live, start_streaming, stop_streaming, set_all,
}
use live_streamer.Streaming.Life.{
  init_core_lem, init_core_result, init_camera_result, checks_pass, set_all_result,
  restart_freed_uses,
}

-- Whether everything that `initLive` checks can be made and linked.
abbrev live_checks : Gst → Bool
live_checks g =
    (g.makes bin && g.makes q_live && g.makes sink_live && g.makes live_progres)
    && (g.has_template && g.pads_link q_live)

module _ {Obj : Type 0} ⦃j : Json Obj⦄ where
  -- The properties that are read with no test for NULL.
  pub record HasProperties (f : Files Obj) : Type 0 where
    pub location : Text
    pub server : Text
    pub app : Text
    pub id : Text
    pub has_location : get_string (f.at properties_file) (codes "location") ≡ some location
    pub has_server : get_string (f.at properties_file) (codes "videoServerIp") ≡ some server
    pub has_app : get_string (f.at properties_file) (codes "serverApp") ≡ some app
    pub has_id : get_string (f.at properties_file) (codes "streamId") ≡ some id

module _ {Obj : Type 0} ⦃j : Json Obj⦄ (g : Gst) where
  abbrev pub gst_streaming : Streaming (Pipe Obj)
  gst_streaming = record {
    set_all = Control.set_all g;
    init_live = Build.init_live g;
    start_streaming = Control.start_streaming;
    start_live = Control.start_live g;
    stop_live = Control.stop_live;
    stop_streaming = Control.stop_streaming g;
  }

  init_live_lem :
      (p : Pipe Obj) → p.pipeline_at ≡ alive → (init_live g p).1.freed_uses ≡ p.freed_uses
  unfolding init_live tee_to used get_json_value_from_file
  init_live_lem p h = ground arith

  init_live_returns :
      (p : Pipe Obj) → HasProperties p.files → (init_live g p).0 ≡ ok (live_checks g)
  unfolding init_live tee_to get_json_value_from_file
  init_live_returns p h = ground (arith, h.has_server, h.has_app, h.has_id)

  start_live_returns : (p : Pipe Obj) → HasProperties p.files → (start_live g p).0 ≡ ok tt
  unfolding start_live on_pipeline
  start_live_returns p h =
      rw (init_live_returns (on_pipeline (set_state Element.pipeline paused) p).1 h) refl

  init_camera_alive :
      (p : Pipe Obj) → p.pipeline_at ≡ alive → (init_camera g p).1.pipeline_at ≡ alive
  unfolding init_camera set_camera camera_caps camera_device camera_links get_json_value_from_file
  init_camera_alive p h = ground arith

  init_local_alive :
      (p : Pipe Obj)
      → p.pipeline_at ≡ alive
      → (init_local g p).0 ≡ ok true
      → (init_local g p).1.pipeline_at ≡ alive
  unfolding init_local get_cur_time tee_to get_json_value_from_file
  init_local_alive p h e = ground arith

  initialize_alive :
      (p : Pipe Obj) → (initialize g p).0 ≡ ok true → (initialize g p).1.pipeline_at ≡ alive
  unfolding initialize
  initialize_alive p e =
      let p1 = (init_core g p).1 in
      let p2 = (init_camera g p1).1 in
      ground (arith, (init_core_lem g p).1, init_camera_alive p1, init_local_alive p2)

  init_local_files : (p : Pipe Obj) → (init_local g p).1.files ≡ p.files
  unfolding init_local get_cur_time tee_to get_json_value_from_file
  init_local_files p = ground arith

  initialize_files : (p : Pipe Obj) → (initialize g p).1.files ≡ p.files
  unfolding initialize
  initialize_files p =
      let p1 = (init_core g p).1 in
      let p2 = (init_camera g p1).1 in
      ground (arith, (init_core_result g p).1, (init_camera_result g p1).1, init_local_files p2)

  set_all_files : (p : Pipe Obj) → (set_all g p).1.files ≡ p.files
  unfolding set_all stop_live stop_streaming
  set_all_files p = initialize_files (stop_live (stop_streaming g p).1).1

  set_all-HasProperties :
      (p : Pipe Obj) → HasProperties p.files → HasProperties (set_all g p).1.files
  set_all-HasProperties p h = rw (set_all_files p) h

  module _ (can : checks_pass g ≡ true)
      (stops : g.state_change Element.pipeline GstState.null ≡ 1) where
    builds : (p : Pipe Obj) → HasProperties p.files → (set_all g p).0 ≡ ok true
    builds p h = set_all_result g p h.location h.has_location ∙ ap ok can

    -- In every status, each action's calls on the pipeline return and succeed; for "off", there is
    -- a pipeline.
    gst_streaming-Works :
        (st : Status) (a : Action) (p : Pipe Obj)
        → HasProperties p.files
        → (a ≡ Action.off → p.pipeline_at ≡ alive)
        → Works ⦃g = gst_streaming⦄ st a p
    unfolding calls stop_streaming changed start_streaming stop_live
    gst_streaming-Works Status.ready Action.live p h a =
        rw (builds p h, init_live_returns (set_all g p).1 (set_all-HasProperties p h)) refl
    gst_streaming-Works Status.ready Action.local p h a = rw (builds p h) refl
    gst_streaming-Works Status.live Action.live p h a = refl
    gst_streaming-Works Status.live Action.local p h a = refl
    gst_streaming-Works Status.local Action.live p h a = rw (start_live_returns p h) refl
    gst_streaming-Works Status.local Action.local p h a = refl
    gst_streaming-Works Status.off Action.live p h a = refl
    gst_streaming-Works Status.off Action.local p h a = refl
    gst_streaming-Works Status.ready Action.off p h a = rw (a refl, stops) refl
    gst_streaming-Works Status.live Action.off p h a = rw (a refl, stops) refl
    gst_streaming-Works Status.local Action.off p h a = rw (a refl, stops) refl
    gst_streaming-Works Status.off Action.off p h a = rw (a refl, stops) refl

    started_freed_uses :
        (p : Pipe Obj)
        → HasProperties p.files
        → p.pipeline_at ≡ alive
        → (init_live g (set_all g (stop_streaming g p).1).1).1.freed_uses ≡ p.freed_uses + 4
    unfolding set_all stop_live stop_streaming
    started_freed_uses p h a =
        let p' = (stop_streaming g p).1 in
        let p'' = (stop_live (stop_streaming g p').1).1 in
        init_live_lem (set_all g p').1 (initialize_alive p'' (builds p' h))
        ∙ restart_freed_uses g p a

    relive :
        (p : Pipe Obj)
        → HasProperties p.files
        → (calls ⦃g = gst_streaming⦄ Status.ready Action.live p).1.freed_uses
          ≡ (init_live g (set_all g p).1).1.freed_uses
    unfolding calls start_streaming
    relive p h = rw (builds p h, init_live_returns (set_all g p).1 (set_all-HasProperties p h)) refl

    -- A live camera has a pipeline, and its properties name the stream, the recordings' location,
    -- the video server and its application. All elements that are checked can be made, pads link,
    -- and the running pipeline stops at once. If the camera is told "off" and then "live", both
    -- calls return and it is live again; it has then made four calls on the pipeline that it freed
    -- in between.
    pub obey-restart :
        (s : State Obj (Pipe Obj))
        → s.status ≡ codes "live"
        → HasProperties s.pipeline.files
        → s.pipeline.pipeline_at ≡ alive
        → let (r, s') = obey ⦃g = gst_streaming⦄ 1 (word Action.off) s in
          let (r', s'') = obey ⦃g = gst_streaming⦄ 1 (word Action.live) s' in
          (r ≡ ok tt)
          × (r' ≡ ok tt)
          × (s''.status ≡ codes "live")
          × (s''.pipeline.freed_uses ≡ s.pipeline.freed_uses + 4)
    unfolding calls stop_streaming
    obey-restart s live h a =
        let s' = followed s Action.off (stop_streaming g s.pipeline).1 in
        rw
          (
            obey-calls ⦃g = gst_streaming⦄ s 0 Status.live Action.off live
                (gst_streaming-Works Status.live Action.off s.pipeline h (λ e. a)),
            obey-calls ⦃g = gst_streaming⦄ s' 0 Status.ready Action.live refl
                (gst_streaming-Works Status.ready Action.live s'.pipeline h (λ e. cc)),
          )
          (refl, refl, refl, relive s'.pipeline h ∙ started_freed_uses s.pipeline h a)
