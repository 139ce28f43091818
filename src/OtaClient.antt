-- ===== src/OtaClient.antt =====
-- OTAClient/src: the camera's check for a newer version of its software.
pub mod Check
use live_streamer.Common.{
  ℕ, ◌++◌, List, [], ◌∷◌, Bool, true, false, Option, none, some, ⊤, if◌then◌else◌,
}
use live_streamer.Text.{Text, codes, text_eq}
use live_streamer.Buffer.{sprintf}
use live_streamer.Machine.{M, pure, deref, exit, gets, modify, ◌>>=◌, ◌>>◌}
use live_streamer.Json.{Json, get_string}
use live_streamer.Sockets.{Recv, Attempt, connect_to_client}
use live_streamer.Endpoint.{
  State, ran, emit, on_buf, close_socket, print_text, client_send, receive_data, client_json,
  set_value, get_value,
}

-- `{ "streamId" : "…","version" : "…","action" : "update"}`
unfoldable pub request_text : Text → Text → Text
request_text id version =
    codes "{ \"streamId\" : \""
    ++ (id ++ (codes "\",\"version\" : \"" ++ (version ++ codes "\",\"action\" : \"update\"}")))

-- The shell script that fetches a package and runs its update.sh.
unfoldable pub script : Text → Text → Text
script addr archive =
    codes "#!/bin/bash\nmkdir /root/update\ncd /root/update\nwget "
    ++ (addr
        ++ (codes "\ntar -xJf "
            ++ (archive ++ (codes "\nrm -rf " ++ (archive ++ codes "\nsh update.sh\nexit\n")))))

module _ {Obj : Type 0} where
  -- `connect2Client` of an address that can be NULL, which `gethostbyname` does not take.
  unfoldable pub connect : Option Text → Attempt → M (State Obj) Bool
  unfolding connect_to_client
  connect srvr_ip a = do
    srvr_ip ← deref srvr_ip
    sock ← gets (λ s. s.sock)
    let (sock', done) = connect_to_client a srvr_ip sock
    modify (λ s. record s { sock = sock' })
    pure done

  unfoldable pub send_data : M (State Obj) ⊤
  unfolding client_send
  send_data = client_send

module _ {Obj : Type 0} ⦃j : Json Obj⦄ where
  unfoldable pub set_json_value : Text → Option Text → M (State Obj) ⊤
  unfolding set_value client_json
  set_json_value = set_value client_json

  unfoldable pub get_json_value_from_file : Text → M (State Obj) (Option Text)
  unfolding get_value client_json
  get_json_value_from_file = get_value client_json

  unfoldable pub sig_check_update : M (State Obj) ⊤
  sig_check_update = do
    id ← get_json_value_from_file (codes "streamId")
    version ← get_json_value_from_file (codes "version")
    id ← deref id
    version ← deref version
    print_text (request_text id version)
    send_data

  -- The script is formatted into `tempBuff` by an unbounded `sprintf`, and run from there.
  unfoldable pub update : Option Obj → M (State Obj) ⊤
  update jobj = do
    archive ← deref (get_string jobj (codes "package"))
    addr ← deref (get_string jobj (codes "addr"))
    on_buf (sprintf (script addr archive))
    emit (ran (script addr archive))
    set_json_value (codes "version") (get_string jobj (codes "version"))

  unfoldable pub msg_parse : Text → M (State Obj) ⊤
  msg_parse temp_str = do
    let jobj = j.tokener_parse temp_str
    status ← deref (get_string jobj (codes "status"))
    if text_eq status (codes "available") then update jobj else pure tt

  unfoldable pub receive : Recv → M (State Obj) ⊤
  receive r = do str ← receive_data r; msg_parse str

  unfoldable pub client_communication : Recv → M (State Obj) ⊤
  client_communication r = do sig_check_update; receive r

  unfoldable pub main : Attempt → Recv → M (State Obj) ⊤
  unfolding connect close_socket
  main a r = do
    srvr_ip ← get_json_value_from_file (codes "serverIp")
    connected ← connect srvr_ip a
    if connected then (do client_communication r; close_socket) else exit 1
