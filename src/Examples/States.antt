-- ===== src/Examples/States.antt =====
-- A stream named `cam`, a server that knows it, and its camera.
use live_streamer.Common.{ℕ, List, [], ◌∷◌, true, false, none, some, replicate, if◌then◌else◌}
use live_streamer.Text.{Text, codes, text_eq}
use live_streamer.Machine.{ok}
use live_streamer.Buffer.{Buffer, max_data_size}
use live_streamer.Files.{Files}
use live_streamer.StreamerServer.State.{State as Server}
use live_streamer.StreamerServer.Json.{address}
use live_streamer.StreamerClient.State.{State as Camera, Streaming, properties_file}
use live_streamer.System.{System}
use live_streamer.Examples.PlainJson.{Members}

abbrev pub cam : Text
cam = codes "cam"

-- Its record: the camera is off and shall be live.
abbrev pub cam_record : Members
cam_record =
    (codes "streamId", cam) ∷ (codes "status", codes "off") ∷ (codes "action", codes "live") ∷ []

abbrev pub empty_buffer : Buffer
empty_buffer = record { cells = replicate max_data_size 0; spilled = 0 }

abbrev pub one_file : Text → Members → Files Members
one_file p m = record { at = λ q. if text_eq p q then some m else none; writable = λ q. true }

abbrev pub server : Server Members
server = record {
  files = one_file (address cam) cam_record;
  strm_id = none;
  clnt_sock = 4;
  numbytes = 0;
  ack = false;
  temp_buf_s = empty_buffer;
  temp_buf_p = empty_buffer;
  log = [];
}

-- The pipeline is the list of the calls made on it, newest first.
abbrev pub Calls : Type 0
Calls = List ℕ

instance abbrev pub calls_streaming : Streaming Calls
calls_streaming = record {
  set_all = λ p. (ok true, 1 ∷ p);
  init_live = λ p. (ok true, 2 ∷ p);
  start_streaming = λ p. (ok tt, 3 ∷ p);
  start_live = λ p. (ok tt, 4 ∷ p);
  stop_live = λ p. (ok tt, 5 ∷ p);
  stop_streaming = λ p. (ok 1, 6 ∷ p);
}

abbrev pub server_ip : Text
server_ip = codes "192.168.1.5"

abbrev pub camera_with : Text → Camera Members Calls
camera_with status = record {
  files =
      one_file properties_file ((codes "streamId", cam) ∷ (codes "TCPServerIp", server_ip) ∷ []);
  srvr_sock = some 3;
  numbytes = 0;
  temp_buff = empty_buffer;
  status = status;
  pipeline = [];
  send_works = true;
  log = [];
}

abbrev pub system : System Members Calls
system = record { server = server; camera = camera_with (codes "ready") }
