-- ===== src/StreamerClient/Client.antt =====
-- StreamerClient/src/TCPClient/Client.c: connecting, and the loop of `main`.
use live_streamer.Common.{ℕ, List, [], ◌∷◌, Bool, Option, ⊤, if◌then◌else◌}
use live_streamer.Text.{Text, codes}
use live_streamer.Machine.{M, pure, deref, wait, exit, gets, modify, ◌>>=◌, ◌>>◌}
use live_streamer.Sockets.{Recv, Attempt, connect_to_client}
use live_streamer.Json.{Json}
use live_streamer.StreamerClient.State.{
  State, Streaming, closed, on_files, on_pipeline, emit, get_json_value_from_file,
}
use live_streamer.StreamerClient.Comm.{client_comm, set_status}

module _ {Obj P : Type 0} where
  -- `connect2Client` of an address that can be NULL, which `gethostbyname` does not take.
  unfoldable pub connect : Option Text → Attempt → M (State Obj P) Bool
  unfolding connect_to_client
  connect srvr_ip a = do
    srvr_ip ← deref srvr_ip
    sock ← gets (λ s. s.srvr_sock)
    let (sock', done) = connect_to_client a srvr_ip sock
    modify (λ s. record s { srvr_sock = sock' })
    pure done

  unfoldable pub close_socket : M (State Obj P) ⊤
  close_socket = do sock ← gets (λ s. s.srvr_sock); emit (closed sock)

module _ {Obj P : Type 0} ⦃j : Json Obj⦄ ⦃g : Streaming P⦄ where
  -- One turn of the loop in `main`: the socket is closed whether or not the connection was made.
  unfoldable pub serve_once : ℕ → Option Text → Attempt → List Recv → M (State Obj P) ⊤
  unfolding connect close_socket
  serve_once tries srvr_ip a rs = do
    connected ← connect srvr_ip a
    if connected then (do client_comm tries rs; close_socket) else close_socket

  unfoldable pub serve_all : ℕ → Option Text → List (Attempt × List Recv) → M (State Obj P) ⊤
  serve_all tries srvr_ip [] = wait
  serve_all tries srvr_ip ((a, rs) ∷ rest) = do
    serve_once tries srvr_ip a rs
    serve_all tries srvr_ip rest

  unfoldable pub main : ℕ → List (Attempt × List Recv) → M (State Obj P) ⊤
  unfolding serve_all
  main tries turns = do
    srvr_ip ← on_files (get_json_value_from_file (codes "TCPServerIp"))
    set_status (codes "ready")
    serve_all tries srvr_ip turns

  -- SIGINT: the streams are stopped, the status "off" is reported, and the process ends.
  unfoldable pub int_handler : ℕ → Attempt → List Recv → M (State Obj P) ⊤
  unfolding connect close_socket
  int_handler tries a rs = do
    on_pipeline g.stop_streaming
    set_status (codes "off")
    srvr_ip ← on_files (get_json_value_from_file (codes "TCPServerIp"))
    connected ← connect srvr_ip a
    if connected then client_comm tries rs else pure tt
    close_socket
    exit 0
