-- ===== src/System.antt =====
-- The camera and the server together: rounds of a status report and its answer over a connection
-- that loses nothing, where one `recv` gives what one `send` was handed.
pub mod Messages
pub mod Round
pub mod Exchange
pub mod Session
pub mod Unknown
pub mod Shutdown
pub mod Retries
pub mod Request
use live_streamer.Common.{ℕ, zero, suc, List, [], ◌∷◌, Bool, true, false, ⊤, if◌then◌else◌}
use live_streamer.Machine.{M, pure, wait, gets, ◌>>=◌, ◌>>◌}
use live_streamer.Sockets.{bytes}
use live_streamer.Json.{Json}
use live_streamer.StreamerServer.State.{State as Server, Event as ServerEvent}
use live_streamer.StreamerServer.State
use live_streamer.StreamerServer.Comm.{receive as server_receive}
use live_streamer.StreamerClient.State.{State as Camera, Event as CameraEvent, Streaming}
use live_streamer.StreamerClient.Comm.{sig_status, receive as camera_receive}

pub record System (Obj P : Type 0) : Type 0 where
  pub server : Server Obj
  pub camera : Camera Obj P

-- The bytes of the newest `send`.
unfoldable pub sent_by_server : List ServerEvent → List ℕ
sent_by_server [] = []
sent_by_server (ServerEvent.sent sock bs ∷ log) = bs
sent_by_server (ServerEvent.ws_sent wsi t ∷ log) = sent_by_server log
sent_by_server (ServerEvent.closed sock ∷ log) = sent_by_server log

unfoldable pub sent_by_camera : List CameraEvent → List ℕ
sent_by_camera [] = []
sent_by_camera (CameraEvent.sent sock bs ∷ log) = bs
sent_by_camera (CameraEvent.closed sock ∷ log) = sent_by_camera log

module _ {Obj P : Type 0} where
  abbrev pub on_server : {A : Type 0} → M (Server Obj) A → M (System Obj P) A
  on_server m sys = let (r, s) = m sys.server in (r, record sys { server = s })

  abbrev pub on_camera : {A : Type 0} → M (Camera Obj P) A → M (System Obj P) A
  on_camera m sys = let (r, s) = m sys.camera in (r, record sys { camera = s })

module _ {Obj P : Type 0} ⦃j : Json Obj⦄ ⦃g : Streaming P⦄ where
  -- A report, its answer, and what the camera does about it. The result is whether it was ACK.
  unfoldable pub round : ℕ → M (System Obj P) Bool
  round tries = do
    on_camera sig_status
    report ← gets (λ sys. sent_by_camera sys.camera.log)
    on_server (server_receive (bytes report))
    answer ← gets (λ sys. sent_by_server sys.server.log)
    on_camera (camera_receive tries (bytes answer))

  -- The loops of `clientComm` on both sides, with a bound on the rounds.
  unfoldable pub session : ℕ → ℕ → M (System Obj P) ⊤
  session zero tries = wait
  session (suc rounds) tries = do
    acked ← round tries
    if acked then pure tt else session rounds tries
