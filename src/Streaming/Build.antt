-- ===== src/Streaming/Build.antt =====
-- The functions that build the pipeline. Each gives whether it returned 0.
use live_streamer.Common.{◌++◌, [], ◌∷◌, Bool, true, false, ◌&&◌, some, ⊤, if◌then◌else◌}
use live_streamer.Text.{Text, codes}
use live_streamer.Machine.{M, pure, gets, deref, modify, ◌>>=◌, ◌>>◌}
use live_streamer.Json.{Json}
use live_streamer.Streaming.{
  Gst, Pipe, Element, call, on_pipeline, unref_pipeline, property, make, caps_from_string, set,
  bin_add, link, link_filtered, get_template, request_pad, pad_link, add_ghost_pad, get_bus,
  add_watch, unref_bus, loop_new, number, string, alive, nowhere, v_source, q_cam, flvmux, q_live,
  tee, q_local, parse, x264enc, sink_local, sink_live, lcl_progres, live_progres, mux_progres,
  a_source, q_audio, bin,
}

-- `rtmp://…/…/…`
unfoldable pub live_address : Text → Text → Text → Text
live_address ip app id = codes "rtmp://" ++ (ip ++ (codes "/" ++ (app ++ (codes "/" ++ id))))

module _ {Obj : Type 0} where
  unfoldable pub get_cur_time : Gst → M (Pipe Obj) ⊤
  get_cur_time g = modify (λ p. record p { time_str = g.now })

  -- The end of `initLocal` and of `initLive` up to the link of the tee with the queue.
  unfoldable pub tee_to : Gst → Element → M (Pipe Obj) ⊤ → M (Pipe Obj) ⊤ → M (Pipe Obj) Bool
  unfolding unref_pipeline
  tee_to g queue add finish = do
    call get_template
    if g.has_template
        then (do
          call (request_pad queue)
          add
          call (pad_link queue)
          if g.pads_link queue then (do finish; pure true) else (do unref_pipeline; pure false))
        else (do unref_pipeline; pure false)

module _ {Obj : Type 0} ⦃j : Json Obj⦄ where
  unfoldable pub set_camera : Gst → M (Pipe Obj) ⊤
  set_camera g = do
    cam ← property (codes "h264device")
    modify (λ p. record p { is_h264 = g.opens cam })

  -- The caps, and the encoder of a camera that has none.
  unfoldable pub camera_caps : Bool → M (Pipe Obj) ⊤
  camera_caps true = do caps ← property (codes "h264caps"); call (caps_from_string caps)
  camera_caps false = do
    caps ← property (codes "v4l2caps")
    call (caps_from_string caps)
    call (make x264enc (codes "x264enc"))

  unfoldable pub camera_device : Bool → M (Pipe Obj) ⊤
  camera_device true = do
    device ← property (codes "h264device")
    call (set v_source (codes "device") (string device))
  camera_device false = do
    device ← property (codes "v4l2device")
    call (set v_source (codes "device") (string device))
    call (set x264enc (codes "speed-preset") (number 1))

  unfoldable pub camera_links : Bool → M (Pipe Obj) ⊤
  unfolding on_pipeline
  camera_links true = do
    call (link_filtered v_source q_cam)
    call (link (q_cam ∷ parse ∷ flvmux ∷ []))
  camera_links false = do
    on_pipeline (bin_add Element.pipeline (x264enc ∷ []))
    call (link_filtered v_source q_cam)
    call (link (q_cam ∷ x264enc ∷ parse ∷ flvmux ∷ []))

  unfoldable pub init_camera : Gst → M (Pipe Obj) Bool
  unfolding set_camera camera_caps camera_device camera_links on_pipeline
  init_camera g = do
    set_camera g
    call (make v_source (codes "v4l2src"))
    call (make q_cam (codes "queue"))
    h264 ← gets (λ p. p.is_h264)
    camera_caps h264
    call (make parse (codes "h264parse"))
    if g.makes v_source && g.makes q_cam && g.makes parse
        then (do
          camera_device h264
          on_pipeline (bin_add Element.pipeline (v_source ∷ q_cam ∷ parse ∷ []))
          camera_links h264
          pure true)
        else pure false

  unfoldable pub init_audio : Gst → M (Pipe Obj) Bool
  unfolding on_pipeline
  init_audio g = do
    call (make a_source (codes "alsasrc"))
    call (make q_audio (codes "queue"))
    caps ← property (codes "audiocaps")
    call (caps_from_string caps)
    if g.makes a_source && g.makes q_audio
        then (do
          device ← property (codes "audiodevice")
          call (set a_source (codes "device") (string device))
          call (set a_source (codes "buffer-time") (number 99999999999999))
          call (set a_source (codes "do-timestamp") (number 1))
          call (set q_audio (codes "leaky") (number 1))
          call (set q_audio (codes "max-size-buffers") (number 0))
          call (set q_audio (codes "max-size-bytes") (number 0))
          call (set q_audio (codes "max-size-time") (number 3000000000))
          on_pipeline (bin_add Element.pipeline (a_source ∷ q_audio ∷ []))
          call (link_filtered a_source q_audio)
          call (link (q_audio ∷ flvmux ∷ []))
          pure true)
        else pure false

  unfoldable pub init_local : Gst → M (Pipe Obj) Bool
  unfolding get_cur_time tee_to on_pipeline
  init_local g = do
    call (make q_local (codes "queue"))
    call (make sink_local (codes "filesink"))
    call (make lcl_progres (codes "progressreport"))
    if g.makes q_local && g.makes sink_local && g.makes lcl_progres
        then (do
          get_cur_time g
          modify (λ p. record p { time_str = p.time_str ++ codes ".flv" })
          location ← property (codes "location")
          location ← deref location
          time_str ← gets (λ p. p.time_str)
          call (set sink_local (codes "location") (string (some (location ++ time_str))))
          call (set sink_local (codes "enable-last-sample") (number 0))
          call (set lcl_progres (codes "update-freq") (number 2))
          tee_to g q_local
              (on_pipeline (bin_add Element.pipeline (q_local ∷ lcl_progres ∷ sink_local ∷ [])))
              (call (link (q_local ∷ lcl_progres ∷ sink_local ∷ []))))
        else pure false

  unfoldable pub init_live : Gst → M (Pipe Obj) Bool
  unfolding tee_to on_pipeline live_address
  init_live g = do
    call (make bin (codes "bin"))
    call (make q_live (codes "queue"))
    call (make sink_live (codes "rtmpsink"))
    call (make live_progres (codes "progressreport"))
    if g.makes bin && g.makes q_live && g.makes sink_live && g.makes live_progres
        then (do
          ip ← property (codes "videoServerIp")
          app ← property (codes "serverApp")
          id ← property (codes "streamId")
          ip ← deref ip
          app ← deref app
          id ← deref id
          call (set sink_live (codes "location") (string (some (live_address ip app id))))
          call (set sink_live (codes "max-lateness") (number 100))
          call (set sink_live (codes "async") (number 1))
          call (set live_progres (codes "update-freq") (number 2))
          call (set q_live (codes "leaky") (number 2))
          call (set q_live (codes "max-size-buffers") (number 0))
          call (set q_live (codes "max-size-bytes") (number 20000000))
          call (set q_live (codes "max-size-time") (number 10000000))
          tee_to g q_live
              (do
                on_pipeline (bin_add Element.pipeline (q_live ∷ bin ∷ []))
                call (bin_add bin (live_progres ∷ sink_live ∷ [])))
              (do
                call (link (live_progres ∷ sink_live ∷ []))
                call add_ghost_pad
                call (link (q_live ∷ bin ∷ []))
                call unref_bus))
        else pure false

  -- The part of `initialize` that builds what the camera and the file share.
  unfoldable pub init_core : Gst → M (Pipe Obj) Bool
  unfolding on_pipeline
  init_core g = do
    call loop_new
    call (make Element.pipeline (codes "pipeline"))
    modify (λ p. record p { pipeline_at = if g.makes Element.pipeline then alive else nowhere })
    call (make flvmux (codes "flvmux"))
    call (make mux_progres (codes "progressreport"))
    call (make tee (codes "tee"))
    if g.makes Element.pipeline && g.makes flvmux && g.makes mux_progres && g.makes tee
        then (do
          call (set flvmux (codes "streamable") (number 0))
          call (set mux_progres (codes "update-freq") (number 2))
          call (set tee (codes "allow-not-linked") (number 1))
          on_pipeline get_bus
          call add_watch
          call unref_bus
          on_pipeline (bin_add Element.pipeline (flvmux ∷ mux_progres ∷ tee ∷ []))
          call (link (flvmux ∷ mux_progres ∷ tee ∷ []))
          pure true)
        else pure false

  -- The camera, and the file; the audio is commented out.
  unfoldable pub initialize : Gst → M (Pipe Obj) Bool
  initialize g = do
    core ← init_core g
    if core
        then (do camera ← init_camera g; if camera then init_local g else pure false)
        else pure false
