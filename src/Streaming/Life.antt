-- ===== src/Streaming/Life.antt =====
-- When the pipeline can be built, and which calls use it after it was freed.
use live_streamer.Common.{true, ℕ, ◌+◌, ◌≡◌, refl, ◌∙◌, Bool, ◌&&◌, Option, some, arith}
use live_streamer.Text.{Text, codes}
use live_streamer.Machine.{ok}
use live_streamer.Json.{Json, get_string}
use live_streamer.StreamerClient.State.{get_json_value_from_file, properties_file}
use live_streamer.Streaming.{
  Gst, Pipe, Pointer, nowhere, alive, freed, used, dropped, property, Element, tee, flvmux,
  mux_progres, v_source, q_cam, parse, q_local, sink_local, lcl_progres,
}
use live_streamer.Streaming.Build.{
  tee_to, get_cur_time, set_camera, camera_caps, camera_device, camera_links, init_camera,
  init_local, init_core, initialize,
}
use live_streamer.Streaming.Control.{stop_live, stop_streaming, set_all}

-- The calls of `setAll` that use a pipeline that is freed, by where the pointer stands before.
unfoldable pub freed_calls : Pointer → ℕ
freed_calls nowhere = 0
freed_calls alive = 2
freed_calls freed = 4

-- Whether everything that `initialize` checks can be made and linked. It does not check `x264enc`,
-- which `initCamera` makes for a raw camera, nor the links between elements.
unfoldable pub checks_pass : Gst → Bool
checks_pass g =
    (g.makes Element.pipeline && g.makes flvmux && g.makes mux_progres && g.makes tee)
    && (g.makes v_source && g.makes q_cam && g.makes parse)
    && (g.makes q_local && g.makes sink_local && g.makes lcl_progres)
    && (g.has_template && g.pads_link q_local)

module _ {Obj : Type 0} ⦃j : Json Obj⦄ (g : Gst) where
  -- What a property reads as.
  abbrev pub read_property : Pipe Obj → Text → Option Text
  read_property p key = get_string (p.files.at properties_file) key

  property_lem : (p : Pipe Obj) (key : Text) → property key p ≡ (ok (read_property p key), p)
  unfolding get_json_value_from_file
  property_lem p key = refl

  -- What building leaves of the life of the pipeline.
  abbrev Keeps : Pipe Obj → Pipe Obj → Type 0
  Keeps p p' = (p'.freed_uses ≡ p.freed_uses) × (p'.pipeline_at ≡ alive)

  init_camera-Keeps : (p : Pipe Obj) → p.pipeline_at ≡ alive → Keeps p (init_camera g p).1
  unfolding init_camera set_camera camera_caps camera_device camera_links used
      get_json_value_from_file
  init_camera-Keeps p h = ground arith

  init_local_lem :
      (p : Pipe Obj) → p.pipeline_at ≡ alive → (init_local g p).1.freed_uses ≡ p.freed_uses
  unfolding init_local get_cur_time tee_to used dropped get_json_value_from_file
  init_local_lem p h = ground arith

  pub init_core_lem :
      (p : Pipe Obj)
      → ((init_core g p).1.freed_uses ≡ p.freed_uses)
        × ((init_core g p).0 ≡ ok true → (init_core g p).1.pipeline_at ≡ alive)
  unfolding init_core used
  init_core_lem p = ground arith

  initialize_lem : (p : Pipe Obj) → (initialize g p).1.freed_uses ≡ p.freed_uses
  unfolding initialize
  initialize_lem p =
      let p1 = (init_core g p).1 in
      let p2 = (init_camera g p1).1 in
      let (same, made) = init_core_lem p in
      ground (arith, same, made, init_camera-Keeps p1, init_local_lem p2)

  -- `setAll` takes the pipeline down before it builds the next one. If there was one, it uses it
  -- after it was freed: twice if it was running, and four times if it had been stopped. This is
  -- so whether or not the next one can be built.
  pub set_all_freed_uses :
      (p : Pipe Obj) → (set_all g p).1.freed_uses ≡ p.freed_uses + freed_calls p.pipeline_at
  unfolding set_all stop_live stop_streaming used dropped freed_calls
  set_all_freed_uses p = ground (arith, initialize_lem (stop_live (stop_streaming g p).1).1)

  pub init_core_result :
      (p : Pipe Obj)
      → ((init_core g p).0
          ≡ ok (g.makes Element.pipeline && g.makes flvmux && g.makes mux_progres && g.makes tee))
        × ((init_core g p).1.files ≡ p.files)
  unfolding init_core
  init_core_result p = ground arith

  pub init_camera_result :
      (p : Pipe Obj)
      → ((init_camera g p).0 ≡ ok (g.makes v_source && g.makes q_cam && g.makes parse))
        × ((init_camera g p).1.files ≡ p.files)
  unfolding init_camera set_camera camera_caps camera_device camera_links get_json_value_from_file
  init_camera_result p = ground arith

  init_local_result :
      (p : Pipe Obj) (location : Text)
      → read_property p (codes "location") ≡ some location
      → (init_local g p).0
        ≡ ok (
            (g.makes q_local && g.makes sink_local && g.makes lcl_progres)
            && (g.has_template && g.pads_link q_local))
  unfolding init_local get_cur_time tee_to get_json_value_from_file
  init_local_result p location h = ground arith

  initialize_result :
      (p : Pipe Obj) (location : Text)
      → read_property p (codes "location") ≡ some location
      → (initialize g p).0 ≡ ok (checks_pass g)
  unfolding initialize checks_pass
  initialize_result p location h =
      let p1 = (init_core g p).1 in
      let p2 = (init_camera g p1).1 in
      let (r1, f1) = init_core_result p in
      let (r2, f2) = init_camera_result p1 in
      let h2 : read_property p2 (codes "location") ≡ some location = rw (f2, f1) h in
      ground (arith, r1, r2, init_local_result p2 location h2)

  -- On a camera whose properties name a location for the recordings, `setAll` returns 0 exactly if
  -- each of the elements that it checks can be made (the pipeline, and all but `x264enc`), the tee
  -- has a template for its pads, and the pad links. Whether `x264enc` can be made, and whether the
  -- elements can be linked, does not matter to it.
  pub set_all_result :
      (p : Pipe Obj) (location : Text)
      → read_property p (codes "location") ≡ some location
      → (set_all g p).0 ≡ ok (checks_pass g)
  unfolding set_all stop_live stop_streaming
  set_all_result p location h = initialize_result (stop_live (stop_streaming g p).1).1 location h

  -- A running stream that is stopped and started again makes four calls on the freed pipeline.
  pub restart_freed_uses :
      (p : Pipe Obj)
      → p.pipeline_at ≡ alive
      → (set_all g (stop_streaming g p).1).1.freed_uses ≡ p.freed_uses + 4
  unfolding stop_streaming used dropped freed_calls
  restart_freed_uses p h =
      let p' = (stop_streaming g p).1 in
      let stopped : (p'.freed_uses ≡ p.freed_uses) × (p'.pipeline_at ≡ freed) = ground arith in
      set_all_freed_uses p' ∙ rw (stopped.0, stopped.1)
