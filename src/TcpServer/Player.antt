-- ===== src/TcpServer/Player.antt =====
-- PlayerServer.c and PlayerSrvrComm.c of TCPServer/src, the same text as the server for streamers.
use live_streamer.Common.{ℕ, List, ⊤}
use live_streamer.Text.{Text}
use live_streamer.Machine.{M}
use live_streamer.Json.{Json}
use live_streamer.Sockets.{Recv}
use live_streamer.Sockets.Listen.{Setup, Arrival, Threads, start_server}
use live_streamer.Endpoint.{State}
use live_streamer.TcpServer.Streamer

unfoldable pub start_player_srvr : Setup → List Arrival → M Threads ⊤
unfolding start_server
start_player_srvr = start_server

module _ {Obj : Type 0} where
  unfoldable pub send_data : M (State Obj) ⊤
  unfolding Streamer.send_data
  send_data = Streamer.send_data

  unfoldable pub receive_data : Recv → M (State Obj) Text
  unfolding Streamer.receive_data
  receive_data = Streamer.receive_data

  unfoldable pub sig_off : M (State Obj) ⊤
  unfolding Streamer.sig_off
  sig_off = Streamer.sig_off

  unfoldable pub sig_live : M (State Obj) ⊤
  unfolding Streamer.sig_live
  sig_live = Streamer.sig_live

  unfoldable pub sig_local : M (State Obj) ⊤
  unfolding Streamer.sig_local
  sig_local = Streamer.sig_local

module _ {Obj : Type 0} ⦃j : Json Obj⦄ where
  unfoldable pub msg_parse : Text → M (State Obj) ⊤
  unfolding Streamer.msg_parse
  msg_parse = Streamer.msg_parse

  unfoldable pub handle_tcp_client : ℕ → Recv → Recv → M (State Obj) ⊤
  unfolding Streamer.handle_tcp_client
  handle_tcp_client = Streamer.handle_tcp_client
