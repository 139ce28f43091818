-- ===== src/TcpClient.antt =====
-- TCPClient/src: the forerunner of StreamerClient, which follows one action and has no pipeline.
pub mod Follow
use live_streamer.Common.{ℕ, Bool, true, false, Option, none, some, ⊤, if◌then◌else◌}
use live_streamer.Text.{Text, codes, text_eq}
use live_streamer.Machine.{M, pure, deref, exit, gets, modify, ◌>>=◌, ◌>>◌}
use live_streamer.Json.{Json, get_string}
use live_streamer.Sockets.{Recv, Attempt, connect_to_client}
use live_streamer.StreamerClient.Comm.{status_text}
use live_streamer.Endpoint
use live_streamer.Endpoint.{
  State, close_socket, print_text, client_send, client_json, set_value, get_value,
}

abbrev pub is_none : Option Text → Bool
is_none none = true
is_none (some t) = false

module _ {Obj : Type 0} where
  -- `connect2Client` of an address that can be NULL, which `gethostbyname` does not take.
  unfoldable pub connect : Option Text → Attempt → M (State Obj) Bool
  unfolding connect_to_client
  connect srvr_ip a = do
    srvr_ip ← deref srvr_ip
    sock ← gets (λ s. s.sock)
    let (sock', done) = connect_to_client a srvr_ip sock
    modify (λ s. record s { sock = sock' })
    pure done

  unfoldable pub send_data : M (State Obj) ⊤
  unfolding client_send
  send_data = client_send

  unfoldable pub receive_data : Recv → M (State Obj) Text
  receive_data = Endpoint.receive_data

module _ {Obj : Type 0} ⦃j : Json Obj⦄ where
  unfoldable pub set_json_value : Text → Option Text → M (State Obj) ⊤
  unfolding set_value client_json
  set_json_value = set_value client_json

  unfoldable pub get_json_value_from_file : Text → M (State Obj) (Option Text)
  unfolding get_value client_json
  get_json_value_from_file = get_value client_json

  -- The four SIG functions.
  unfoldable pub sig : Text → M (State Obj) ⊤
  sig status = do
    id ← get_json_value_from_file (codes "streamId")
    id ← deref id
    print_text (status_text id status)
    send_data

  unfoldable pub sig_ready : M (State Obj) ⊤
  unfolding sig
  sig_ready = sig (codes "ready")

  unfoldable pub sig_off : M (State Obj) ⊤
  unfolding sig
  sig_off = sig (codes "off")

  unfoldable pub sig_live : M (State Obj) ⊤
  unfolding sig
  sig_live = sig (codes "live")

  unfoldable pub sig_local : M (State Obj) ⊤
  unfolding sig
  sig_local = sig (codes "local")

  abbrev pub when : Bool → M (State Obj) ⊤ → M (State Obj) ⊤
  when b m = if b then m else pure tt

  unfoldable pub follow : Option Text → M (State Obj) ⊤
  unfolding sig_live sig_local sig_off
  follow action = do
    set_json_value (codes "action") action
    act ← deref action
    when (text_eq act (codes "live")) sig_live
    when (text_eq act (codes "local")) sig_local
    when (text_eq act (codes "off")) sig_off

  -- The second test is `("ready", status) == 0`, a comma: it asks whether there is no status.
  unfoldable pub msg_parse : Text → M (State Obj) ⊤
  msg_parse temp_str = do
    let jobj = j.tokener_parse temp_str
    own ← get_json_value_from_file (codes "streamId")
    own ← deref own
    id ← deref (get_string jobj (codes "streamId"))
    if text_eq own id
        then (if is_none (get_string jobj (codes "status"))
            then follow (get_string jobj (codes "action"))
            else pure tt)
        else pure tt

  unfoldable pub receive : Recv → M (State Obj) ⊤
  receive r = do str ← receive_data r; msg_parse str

  unfoldable pub client_communication : Recv → M (State Obj) ⊤
  client_communication r = do sig_ready; receive r

  unfoldable pub main : Attempt → Recv → M (State Obj) ⊤
  unfolding connect close_socket
  main a r = do
    srvr_ip ← get_json_value_from_file (codes "serverIp")
    connected ← connect srvr_ip a
    if connected then (do client_communication r; close_socket) else exit 1
