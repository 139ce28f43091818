-- ===== src/OtaServer.antt =====
-- OTAServer/src: the server that tells a camera whether there is a newer version of its software.
pub mod Answer
use live_streamer.Common.{ℕ, ◌++◌, List, [], ◌∷◌, Option, none, some, ⊤, if◌then◌else◌}
use live_streamer.Text.{Text, codes, text_eq}
use live_streamer.Buffer.{max_data_size, memset}
use live_streamer.Machine.{M, pure, deref, modify, ◌>>=◌, ◌>>◌}
use live_streamer.Json.{Json, get_string}
use live_streamer.Sockets.{Recv}
use live_streamer.Sockets.Listen.{Setup, Arrival, Threads, start_server}
use live_streamer.Endpoint.{
  State, on_buf, close_socket, print_text, server_send, receive_data, json_to_file, server_json,
  set_value, get_value,
}

-- The answers; the second one prints the version without quotes.
unfoldable pub updated_text : Text
updated_text = codes "{ \"status\" : \"updated\" }\n"

unfoldable pub available_text : Text → Text
available_text version =
    codes "{ \"status\" : \"available\",\"addr\" : \"http://103.226.217.136/UpdatePackage.tar.xz\""
    ++ (codes ",\"package\" : \"UpdatePackage.tar.xz\",\"version\" : " ++ (version ++ codes " }\n"))

module _ {Obj : Type 0} where
  unfoldable pub send_data : M (State Obj) ⊤
  unfolding server_send
  send_data = server_send

  -- The common end of the SIG functions.
  unfoldable pub send_text : Text → M (State Obj) ⊤
  unfolding print_text send_data
  send_text t = do print_text t; send_data

  unfoldable pub sig_updated : M (State Obj) ⊤
  unfolding send_text
  sig_updated = do on_buf (memset max_data_size); send_text updated_text

module _ {Obj : Type 0} ⦃j : Json Obj⦄ where
  unfoldable pub json_from_file : M (State Obj) (Option Obj)
  unfolding server_json
  json_from_file = server_json

  unfoldable pub set_json_value : Text → Option Text → M (State Obj) ⊤
  unfolding set_value json_from_file
  set_json_value = set_value json_from_file

  unfoldable pub get_json_value_from_file : Text → M (State Obj) (Option Text)
  unfolding get_value json_from_file
  get_json_value_from_file = get_value json_from_file

  unfoldable pub sig_available : M (State Obj) ⊤
  unfolding send_text
  sig_available = do
    on_buf (memset max_data_size)
    version ← get_json_value_from_file (codes "version")
    version ← deref version
    send_text (available_text version)

  -- The comparison of the version in the request with the version in the file.
  unfoldable pub answer_update : Option Text → M (State Obj) ⊤
  answer_update ver_trgt = do
    ver_latest ← get_json_value_from_file (codes "version")
    ver_trgt ← deref ver_trgt
    ver_latest ← deref ver_latest
    if text_eq ver_trgt ver_latest then sig_updated else sig_available

  unfoldable pub msg_parse : Text → M (State Obj) ⊤
  msg_parse temp_str = do
    let jobj = j.tokener_parse temp_str
    act ← deref (get_string jobj (codes "action"))
    if text_eq act (codes "update")
        then answer_update (get_string jobj (codes "version"))
        else pure tt

  unfoldable pub receive : Recv → M (State Obj) ⊤
  receive r = do str ← receive_data r; msg_parse str

  unfoldable pub handle_tcp_client : ℕ → Recv → M (State Obj) ⊤
  unfolding close_socket
  handle_tcp_client fd r = do modify (λ s. record s { sock = some fd }); receive r; close_socket

-- The accept loop, which starts `ThreadMain` for each connection.
unfoldable pub start_srvr : Setup → List Arrival → M Threads ⊤
unfolding start_server
start_srvr = start_server
