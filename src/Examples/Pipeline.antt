-- ===== src/Examples/Pipeline.antt =====
-- The properties of the pipeline at concrete inputs.
use live_streamer.Common.{some, ◌+◌, ◌≡◌, refl, true, [], ◌∷◌}
use live_streamer.Text.{codes, text_eq}
use live_streamer.Machine.{ok}
use live_streamer.Json.{get_string}
use live_streamer.StreamerClient.State.{State, properties_file}
use live_streamer.StreamerClient.Comm.{obey}
use live_streamer.StreamerClient.Comm.Obey.{Action, word}
use live_streamer.System.{System}
use live_streamer.Streaming.Serves.{HasProperties, gst_streaming, obey-restart}
use live_streamer.Streaming.{Gst, Pipe, Pointer, nowhere, alive}
use live_streamer.Streaming.Control.{set_all}
use live_streamer.Streaming.Life.{freed_calls, checks_pass, set_all_freed_uses, set_all_result}
use live_streamer.Examples.PlainJson.{Members, lookup, plain_json}
use live_streamer.Examples.States.{cam, server, one_file, empty_buffer}

abbrev gst : Gst
gst = record {
  makes = λ e. true;
  has_template = true;
  pads_link = λ e. true;
  state_change = λ e s. 1;
  freed_change = λ e s. 0;
  opens = λ d. true;
  now = codes "010118_120000";
}

abbrev pipe : Pointer → Pipe Members
pipe at = record {
  files = one_file properties_file (
      (codes "streamId", cam)
      ∷ (codes "location", codes "/root/")
      ∷ (codes "videoServerIp", codes "192.168.1.5")
      ∷ (codes "serverApp", codes "live")
      ∷ []);
  is_h264 = true;
  time_str = [];
  pipeline_at = at;
  freed_uses = 0;
  calls = [];
}

set_all_freed_uses_example : (set_all gst (pipe nowhere)).1.freed_uses ≡ 0 + freed_calls nowhere
set_all_freed_uses_example = set_all_freed_uses gst (pipe nowhere)

set_all_result_example : (set_all gst (pipe nowhere)).0 ≡ ok (checks_pass gst)
unfolding codes text_eq lookup get_string
set_all_result_example = set_all_result gst (pipe nowhere) (codes "/root/") refl

pipe-HasProperties : (at : Pointer) → HasProperties (pipe at).files
unfolding codes text_eq lookup get_string
pipe-HasProperties at = record {
  location = codes "/root/";
  server = codes "192.168.1.5";
  app = codes "live";
  id = cam;
  has_location = refl;
  has_server = refl;
  has_app = refl;
  has_id = refl;
}

gst_checks : checks_pass gst ≡ true
unfolding checks_pass
gst_checks = refl

abbrev live_camera : State Members (Pipe Members)
live_camera = record {
  files = one_file properties_file ((codes "streamId", cam) ∷ []);
  srvr_sock = some 3;
  numbytes = 0;
  temp_buff = empty_buffer;
  status = codes "live";
  pipeline = pipe alive;
  send_works = true;
  log = [];
}

obey-restart_example :
    let (r, s') = obey ⦃g = gst_streaming gst⦄ 1 (word Action.off) live_camera in
    let (r', s'') = obey ⦃g = gst_streaming gst⦄ 1 (word Action.live) s' in
    (r ≡ ok tt) × (r' ≡ ok tt) × (s''.status ≡ codes "live") × (s''.pipeline.freed_uses ≡ 0 + 4)
obey-restart_example =
    obey-restart gst gst_checks refl live_camera refl (pipe-HasProperties alive) refl

-- The server wants the camera live, which is ready and has no pipeline yet.
abbrev gst_system : System Members (Pipe Members)
gst_system = record {
  server = server;
  camera = record live_camera { status = codes "ready"; pipeline = pipe nowhere };
}
