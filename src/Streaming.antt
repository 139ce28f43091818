-- ===== src/Streaming.antt =====
-- StreamerClient/src/gstreamer/VA_gstreamer.c: the calls of GStreamer that build, run and take
-- down the camera's pipeline.
pub mod Build
pub mod Control
pub mod Life
pub mod Serves
use live_streamer.Common.{ℕ, ◌+◌, ◌++◌, List, ◌∷◌, Bool, Option, none, some, ⊤, if◌then◌else◌}
use live_streamer.Text.{Text, codes}
use live_streamer.Machine.{M, pure, gets, deref, modify, ◌>>=◌, ◌>>◌}
use live_streamer.Json.{Json}
use live_streamer.Files.{Files}
use live_streamer.StreamerClient.State.{get_json_value_from_file}

-- The global pointers to elements.
pub data Element : Type 0 where
  pipeline bin v_source q_cam flvmux q_live tee q_local parse x264enc sink_local sink_live : Element
  lcl_progres live_progres mux_progres a_source q_audio : Element

-- A value of a property.
pub data Value : Type 0 where
  number : ℕ → Value
  string : Option Text → Value

pub data GstState : Type 0 where
  null paused playing : GstState

-- The calls, with the arguments that tell one from another.
pub data Call : Type 0 where
  -- `gst_element_factory_make` of a factory, and the makers of a pipeline and a bin.
  make : Element → Text → Call
  caps_from_string : Option Text → Call
  set : Element → Text → Value → Call
  bin_add bin_remove : Element → List Element → Call
  link unlink : List Element → Call
  link_filtered : Element → Element → Call
  -- The tee's request pad to a queue: its template, the pad, its link, and the way back.
  get_template : Call
  request_pad remove_pad pad_link pad_unlink : Element → Call
  -- The bin's ghost pad.
  add_ghost_pad remove_ghost_pad : Call
  get_bus add_watch unref_bus remove_watch : Call
  set_state : Element → GstState → Call
  unref : Element → Call
  loop_new loop_run loop_quit loop_unref : Call
  thread_new : Call

-- What the calls give that the program looks at.
pub record Gst : Type 0 where
  -- Whether an element can be made, whether there is a pad template, and whether pads link.
  pub makes : Element → Bool
  pub has_template : Bool
  pub pads_link : Element → Bool
  -- The result of a state change (1 is success).
  pub state_change : Element → GstState → ℕ
  -- The same for an element that was freed, which has no defined result.
  pub freed_change : Element → GstState → ℕ
  -- Whether `fopen` opens a device, and what `strftime` prints for the time of day.
  pub opens : Option Text → Bool
  pub now : Text

-- Where the pointer to the pipeline stands.
pub data Pointer : Type 0 where
  nowhere alive freed : Pointer

pub record Pipe (Obj : Type 0) : Type 0 where
  -- properties.json
  pub files : Files Obj
  pub is_h264 : Bool
  pub time_str : Text
  pub pipeline_at : Pointer
  -- Uses of the pipeline after it was freed.
  pub freed_uses : ℕ
  -- The calls, newest first.
  pub calls : List Call

unfoldable pub used : Pointer → ℕ → ℕ
used nowhere n = n
used alive n = n
used freed n = n + 1

-- `gst_object_unref` of the one reference; NULL stays what it is.
unfoldable pub dropped : Pointer → Pointer
dropped nowhere = nowhere
dropped alive = freed
dropped freed = freed

-- The result of `gst_element_set_state`, by where the pointer stands: NULL is no element, and
-- gives 0 (failure).
unfoldable pub changed : Gst → Pointer → Element → GstState → ℕ
changed g nowhere e to = 0
changed g alive e to = g.state_change e to
changed g freed e to = g.freed_change e to

module _ {Obj : Type 0} where
  abbrev pub call : Call → M (Pipe Obj) ⊤
  call c = modify (λ p. record p { calls = c ∷ p.calls })

  -- A call that reads through the pointer to the pipeline.
  unfoldable pub on_pipeline : Call → M (Pipe Obj) ⊤
  on_pipeline c =
      modify (λ p. record p { freed_uses = used p.pipeline_at p.freed_uses; calls = c ∷ p.calls })

  unfoldable pub unref_pipeline : M (Pipe Obj) ⊤
  unfolding on_pipeline
  unref_pipeline = do
    on_pipeline (unref Element.pipeline)
    modify (λ p. record p { pipeline_at = dropped p.pipeline_at })

module _ {Obj : Type 0} ⦃j : Json Obj⦄ where
  abbrev pub property : Text → M (Pipe Obj) (Option Text)
  property key p = let (r, f) = get_json_value_from_file key p.files in (r, record p { files = f })
