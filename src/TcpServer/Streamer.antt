-- ===== src/TcpServer/Streamer.antt =====
-- StreamerServer.c, StreamerSrvrComm.c and Json.c of TCPServer/src.
pub mod Greeting
use live_streamer.Common.{ℕ, List, Option, none, some, ⊤}
use live_streamer.Text.{Text, codes}
use live_streamer.Machine.{M, pure, deref, gets, modify, ◌>>=◌, ◌>>◌}
use live_streamer.Json.{Json, get_string}
use live_streamer.Sockets.{Recv}
use live_streamer.Sockets.Listen.{Setup, Arrival, Threads, start_server}
use live_streamer.StreamerServer.Comm.{action_text}
use live_streamer.Endpoint
use live_streamer.Endpoint.{
  State, close_socket, print_text, server_send, server_json, set_value, get_value,
}

unfoldable pub start_streamer_srvr : Setup → List Arrival → M Threads ⊤
unfolding start_server
start_streamer_srvr = start_server

module _ {Obj : Type 0} where
  unfoldable pub send_data : M (State Obj) ⊤
  unfolding server_send
  send_data = server_send

  -- `numbytes` is a local variable here.
  unfoldable pub receive_data : Recv → M (State Obj) Text
  receive_data = Endpoint.receive_data

  -- The three SIG functions; the array is not cleared first.
  unfoldable pub sig : Text → M (State Obj) ⊤
  unfolding print_text send_data
  sig action = do
    id ← gets (λ s. s.strm_id)
    id ← deref id
    print_text (action_text id action)
    send_data

  unfoldable pub sig_off : M (State Obj) ⊤
  unfolding sig
  sig_off = sig (codes "off")

  unfoldable pub sig_live : M (State Obj) ⊤
  unfolding sig
  sig_live = sig (codes "live")

  unfoldable pub sig_local : M (State Obj) ⊤
  unfolding sig
  sig_local = sig (codes "local")

  -- `JsonToFile`: json-c refuses to write a NULL object.
  unfoldable pub json_to_file : Option Obj → M (State Obj) ⊤
  unfolding Endpoint.json_to_file
  json_to_file none = pure tt
  json_to_file (some jobj) = Endpoint.json_to_file jobj

module _ {Obj : Type 0} ⦃j : Json Obj⦄ where
  unfoldable pub json_from_file : M (State Obj) (Option Obj)
  unfolding server_json
  json_from_file = server_json

  unfoldable pub set_json_value : Text → Option Text → M (State Obj) ⊤
  unfolding set_value json_from_file
  set_json_value = set_value json_from_file

  unfoldable pub get_json_value_from_file : Text → M (State Obj) (Option Text)
  unfolding get_value json_from_file
  get_json_value_from_file = get_value json_from_file

  -- The whole message becomes the content of the file.
  unfoldable pub msg_parse : Text → M (State Obj) ⊤
  unfolding json_to_file
  msg_parse temp_str = do
    let jobj = j.tokener_parse temp_str
    modify (λ s. record s { strm_id = get_string jobj (codes "streamId") })
    json_to_file jobj

  unfoldable pub receive : Recv → M (State Obj) ⊤
  receive r = do str ← receive_data r; msg_parse str

  -- `HandleTCPClient`, over what the two calls of `recv` give: up to the end of SIGLive, and
  -- from there.
  unfoldable pub greet : ℕ → Recv → M (State Obj) ⊤
  greet fd first = do modify (λ s. record s { sock = some fd }); receive first; sig_live

  unfoldable pub part : Recv → M (State Obj) ⊤
  unfolding close_socket
  part second = do receive second; close_socket

  unfoldable pub handle_tcp_client : ℕ → Recv → Recv → M (State Obj) ⊤
  unfolding greet part
  handle_tcp_client fd first second = do greet fd first; part second
