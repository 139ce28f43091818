-- ===== src/FlvRecorder.antt =====
-- Backup/Streamer/src/flv.c, a recorder of camera and microphone: the functions that build its
-- pipeline, with a probe for the live stream.
pub mod Run
pub mod Ends
use live_streamer.Common.{
  ℕ, ◌+◌, ◌-◌, ◌++◌, List, [], ◌∷◌, length, Bool, true, false, ◌&&◌, Option, none, some, ⊤,
  if◌then◌else◌,
}
use live_streamer.Text.{Text, codes}
use live_streamer.Machine.{M, pure, gets, deref, modify, ◌>>=◌, ◌>>◌}
use live_streamer.Json.{Json, get_string}
use live_streamer.Streaming.{
  Value, number, string, GstState, Pointer, nowhere, alive, used, dropped,
}

-- The global pointers to elements.
pub data Element : Type 0 where
  pipeline bin a_source a_rate_conv v_source q_audio q_cam q_local q_live parse flvmux : Element
  aacmux tee sink_local sink_live mux_progres lcl_progres live_progres : Element

pub data Caps : Type 0 where
  v_cap a_cap : Caps

-- The calls of GStreamer, with the arguments that tell one from another.
pub data Call : Type 0 where
  make : Element → Text → Call
  caps_from_string : Caps → Option Text → Call
  set : Element → Text → Value → Call
  bin_add : Element → List Element → Call
  link : List Element → Call
  link_filtered : Element → Element → Caps → Call
  -- The tee's template, its request pads to the two queues, their links, and the queues' pads.
  get_template : Call
  request_pad pad_link unref_pad : Element → Call
  add_ghost_pad get_bus add_watch unref_bus remove_watch connect_overrun : Call
  set_state : Element → GstState → Call
  unref : Element → Call
  loop_new loop_run loop_quit loop_unref : Call

-- What the calls give that the program looks at, and what `strftime` prints.
pub record Gst : Type 0 where
  pub makes : Element → Bool
  pub makes_caps : Caps → Bool
  pub has_template : Bool
  pub pads_link : Element → Bool
  pub now : Text

pub record Recorder (Obj : Type 0) : Type 0 where
  -- What reading properties.json gives.
  pub properties : Option Obj
  pub first_int : Bool
  pub time_str : Text
  pub pipeline_at : Pointer
  -- Uses of the pipeline after it was freed, and bytes written behind `loc` and `serverIp`.
  pub freed_uses : ℕ
  pub spilled : ℕ
  -- Newest first.
  pub calls : List Call

module _ {Obj : Type 0} where
  abbrev pub call : Call → M (Recorder Obj) ⊤
  call c = modify (λ r. record r { calls = c ∷ r.calls })

  -- A call that reads through the pointer to the pipeline.
  unfoldable pub on_pipeline : Call → M (Recorder Obj) ⊤
  on_pipeline c =
      modify (λ r. record r { freed_uses = used r.pipeline_at r.freed_uses; calls = c ∷ r.calls })

  unfoldable pub unref_pipeline : M (Recorder Obj) ⊤
  unfolding on_pipeline
  unref_pipeline = do
    on_pipeline (unref pipeline)
    modify (λ r. record r { pipeline_at = dropped r.pipeline_at })

  -- `sprintf` of a text to a local array of 128 bytes.
  unfoldable pub print_local : Text → M (Recorder Obj) ⊤
  print_local t = modify (λ r. record r { spilled = r.spilled + (length t + 1 - 128) })

  unfoldable pub get_cur_time : Gst → M (Recorder Obj) ⊤
  get_cur_time g = modify (λ r. record r { time_str = g.now })

-- `rtmp://…/…/…`
unfoldable pub server_address : Text → Text → Text → Text
server_address ip app id = codes "rtmp://" ++ (ip ++ (codes "/" ++ (app ++ (codes "/" ++ id))))

-- Whether `initialize` finds that all pointers it tests are there.
unfoldable pub has_all : Gst → Bool
has_all g =
    (g.makes pipeline && g.makes a_source && g.makes a_rate_conv && g.makes v_source)
    && (g.makes q_audio && g.makes q_cam && g.makes q_local && g.makes q_live)
    && (g.makes flvmux && g.makes tee && g.makes sink_local && g.makes sink_live)
    && (g.makes_caps v_cap && g.makes_caps a_cap && g.makes lcl_progres && g.makes live_progres)
    && (g.makes bin && g.makes aacmux)

module _ {Obj : Type 0} ⦃j : Json Obj⦄ where
  unfoldable pub get_json_value : Text → M (Recorder Obj) (Option Text)
  get_json_value key = gets (λ r. get_string r.properties key)

  -- It gives whether it returned 0.
  unfoldable pub initialize : Gst → M (Recorder Obj) Bool
  unfolding get_json_value has_all
  initialize g = do
    call loop_new
    call (make pipeline (codes "pipeline"))
    modify (λ r. record r { pipeline_at = if g.makes pipeline then alive else nowhere })
    call (make a_source (codes "alsasrc"))
    call (make a_rate_conv (codes "audiorate"))
    call (make v_source (codes "v4l2src"))
    call (make q_audio (codes "queue"))
    call (make q_cam (codes "queue"))
    call (make q_local (codes "queue"))
    call (make q_live (codes "queue"))
    call (make parse (codes "h264parse"))
    call (make flvmux (codes "flvmux"))
    call (make aacmux (codes "speexenc"))
    call (make tee (codes "tee"))
    call (make sink_local (codes "filesink"))
    call (make sink_live (codes "fakesink"))
    call (make mux_progres (codes "progressreport"))
    call (make lcl_progres (codes "progressreport"))
    call (make live_progres (codes "progressreport"))
    caps ← get_json_value (codes "v4l2caps")
    call (caps_from_string v_cap caps)
    caps ← get_json_value (codes "audiocaps")
    call (caps_from_string a_cap caps)
    call (make bin (codes "bin"))
    pure (has_all g)

  unfoldable pub set_prop : Gst → M (Recorder Obj) ⊤
  unfolding get_json_value get_cur_time print_local server_address on_pipeline
  set_prop g = do
    device ← get_json_value (codes "v4l2device")
    call (set v_source (codes "device") (string device))
    device ← get_json_value (codes "audiodevice")
    call (set a_source (codes "device") (string device))
    call (set flvmux (codes "streamable") (number 0))
    get_cur_time g
    modify (λ r. record r { time_str = r.time_str ++ codes ".flv" })
    location ← get_json_value (codes "location")
    location ← deref location
    time_str ← gets (λ r. r.time_str)
    print_local (location ++ time_str)
    call (set sink_local (codes "location") (string (some (location ++ time_str))))
    call (set sink_local (codes "enable-last-sample") (number 0))
    ip ← get_json_value (codes "serverIp")
    app ← get_json_value (codes "serverApp")
    id ← get_json_value (codes "streamId")
    ip ← deref ip
    app ← deref app
    id ← deref id
    print_local (server_address ip app id)
    call (set sink_live (codes "async") (number 1))
    call (set lcl_progres (codes "update-freq") (number 2))
    call (set live_progres (codes "update-freq") (number 2))
    call (set mux_progres (codes "update-freq") (number 2))
    call (set q_live (codes "leaky") (number 2))
    call (set q_live (codes "max-size-time") (number 0))
    call (set q_live (codes "max-size-bytes") (number 0))
    call (set q_live (codes "max-size-time") (number 3000000000))
    on_pipeline get_bus
    call add_watch
    call unref_bus
    call connect_overrun
