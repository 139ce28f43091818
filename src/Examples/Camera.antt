-- ===== src/Examples/Camera.antt =====
-- The properties of the camera, and of the camera with the server, at concrete inputs.
use live_streamer.Common.{
  ◌≡◌, ◌≢◌, refl, length, length-replicate, true, false, some, none, replicate, [], ◌∷◌, ◌++◌,
  arith, if◌then◌else◌,
}
use live_streamer.Text.{Text, codes, text_eq}
use live_streamer.Buffer.{max_data_size}
use live_streamer.Machine.{ok, exited, waiting, ◌>>◌}
use live_streamer.Json.{get_string}
use live_streamer.StreamerServer.Json.{address, status_key}
use live_streamer.StreamerServer.Json.Effect.{Usable, current}
use live_streamer.StreamerServer.Comm.Reply.{accepts}
use live_streamer.StreamerClient.State.{closed, sent}
use live_streamer.StreamerClient.Comm.{obey}
use live_streamer.StreamerClient.Comm.Obey
use live_streamer.StreamerClient.Comm.Obey.{
  Action, word, target, Status, status_word, Works, followed, calls, Named,
}
use live_streamer.StreamerServer.Player
use live_streamer.StreamerServer.Player.{ws_service_callback}
use live_streamer.System.{System, on_server, session}
use live_streamer.System.Unknown.{IsUnknown, session_goes_on}
use live_streamer.System.Request.{request_obeyed}
use live_streamer.System.Exchange.{InTouch}
use live_streamer.System.Session.{Settled, session_ends}
use live_streamer.System.Retries.{Dies, main-Dies}
use live_streamer.System.Shutdown.{answers, int_handler_lem}
use live_streamer.StreamerClient.Client.{int_handler, main}
use live_streamer.StreamerClient.Comm.{status_text}
use live_streamer.Sockets.{failed, Attempt, connect_to_client}
use live_streamer.Buffer.Frames.{frame}
use live_streamer.Examples.PlainJson.{Members, parse, lookup, plain_json, plain_json-ReadsMessages}
use live_streamer.Examples.States.{
  Calls, one_file, cam, server, system, server_ip, camera_with, calls_streaming,
}

cam-Usable : Usable server.files cam
cam-Usable = record { can_write = refl; holds_object = refl }

system-InTouch : InTouch system cam Status.ready (word Action.live)
unfolding current address codes text_eq lookup get_string
system-InTouch = record {
  server_size = length-replicate max_data_size 0;
  camera_size = length-replicate max_data_size 0;
  send_works = refl;
  named = refl;
  plain_id = omega arith;
  short_id = omega arith;
  usable = cam-Usable;
  has_status = refl;
  has_action = refl;
}

session_ends_example :
    let (r, sys') = session 2 1 system in
    (r ≡ ok tt)
    × (sys'.camera.status
        ≡ (if accepts (codes "ready") (codes "live") then codes "ready" else codes "live"))
    × Settled sys' cam
unfolding calls
session_ends_example =
    session_ends plain_json-ReadsMessages system cam Status.ready Action.live 0 system-InTouch refl

-- The record holds an action that no camera knows.
abbrev puzzled : System Members Calls
puzzled = record system {
  server = record server {
    files = one_file (address cam) (
        (codes "streamId", cam)
        ∷ (codes "status", codes "ready")
        ∷ (codes "action", codes "start")
        ∷ []);
  };
}

puzzled-InTouch : InTouch puzzled cam Status.ready (codes "start")
unfolding current address codes text_eq lookup get_string
puzzled-InTouch = record {
  server_size = length-replicate max_data_size 0;
  camera_size = length-replicate max_data_size 0;
  send_works = refl;
  named = refl;
  plain_id = omega arith;
  short_id = omega arith;
  usable = record { can_write = refl; holds_object = refl };
  has_status = refl;
  has_action = refl;
}

start-IsUnknown : IsUnknown (codes "start")
unfolding codes text_eq
start-IsUnknown = record { no_live = refl; no_local = refl; no_off = refl }

session_goes_on_example :
    let (r, sys') = session 5 1 puzzled in
    (r ≡ waiting)
    × (sys'.camera.pipeline ≡ [])
    × (length sys'.server.log ≡ 5)
    × InTouch sys' cam Status.ready (codes "start")
unfolding accepts codes text_eq
session_goes_on_example =
    session_goes_on plain_json-ReadsMessages cam Status.ready (codes "start") (omega arith)
      (omega arith) start-IsUnknown refl 1 5 puzzled puzzled-InTouch

abbrev local_request : Text
local_request = codes "{\"streamId\":\"cam\",\"action\":\"local\"}"

system_status : lookup (current server.files cam) status_key ≡ some (some (codes "off"))
unfolding current address codes text_eq lookup
system_status = refl

request_obeyed_example :
    let (r, sys') =
      (on_server (ws_service_callback (λ t. some 0) (some 9) Player.receive (some local_request))
          >> session 2 1)
        system in
    (r ≡ ok tt)
    × (sys'.camera.status
        ≡ (if accepts (codes "ready") (codes "local") then codes "ready" else codes "local"))
    × Settled sys' cam
unfolding parse codes text_eq lookup calls
request_obeyed_example =
    request_obeyed plain_json-ReadsMessages system (λ t. some 0) 9 local_request
      {o = (codes "streamId", cam) ∷ (codes "action", codes "local") ∷ []} cam (codes "off")
      (codes "live") Status.ready Action.local refl refl refl system-InTouch system_status 0 refl

obey-calls_example :
    let s = camera_with (codes "ready") in
    obey 1 (word Action.live) s
    ≡ (ok tt, followed s Action.live (calls Status.ready Action.live []).1)
unfolding calls
obey-calls_example =
    Obey.obey-calls (camera_with (codes "ready")) 0 Status.ready Action.live refl refl

live_not_off : Action.live ≢ Action.off
live_not_off e = cc

-- An attempt that connects.
abbrev attempt : Attempt
attempt = record { host_known = λ ip. true; socket = some 7; connects = true }

int_handler_lem_example :
    let s = camera_with (codes "live") in
    let (r, s') = int_handler 1 attempt (answers cam Action.live 1) s in
    let (sock, connected) = connect_to_client attempt server_ip s.srvr_sock in
    (r ≡ exited 0)
    × (s'.pipeline ≡ (calls_streaming.stop_streaming s.pipeline).1)
    × (s'.log
        ≡ closed sock
          ∷ (if connected
              then replicate 1 (sent sock (frame (status_text cam (codes "live"))))
                ++ (sent sock (frame (status_text cam (codes "off"))) ∷ s.log)
              else s.log))
unfolding get_string codes text_eq lookup
int_handler_lem_example =
    int_handler_lem plain_json-ReadsMessages cam (omega arith) (omega arith) Action.live
      live_not_off 1 1 (camera_with (codes "live")) attempt server_ip
      (length-replicate max_data_size 0) refl refl refl refl

-- The server's host is not known.
abbrev no_host : Attempt
no_host = record { host_known = λ ip. false; socket = none; connects = false }

main-Dies_example :
    let s = camera_with (codes "ready") in
    let (r, s') = main 1 ((no_host, []) ∷ (no_host, []) ∷ (attempt, failed ∷ []) ∷ []) s in
    Dies s r s' 2 (sent (some 7) (frame (status_text cam (codes "ready"))))
unfolding connect_to_client get_string codes text_eq lookup
main-Dies_example =
    main-Dies cam server_ip 1 ((no_host, []) ∷ (no_host, []) ∷ []) [] (camera_with (codes "ready"))
      attempt 7 failed [] (λ sock. refl, (λ sock. refl, tt)) refl refl refl tt
      (length-replicate max_data_size 0) refl refl refl
