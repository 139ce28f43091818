-- ===== src/StreamerServer/Comm.antt =====
-- StreamerServer/src/srvrComm.c: the dialogue with one streamer.
pub mod Reply
pub mod Errors
pub mod Directed
pub mod Isolation
use live_streamer.Common.{
  ℕ, ◌-◌, ◌++◌, List, [], ◌∷◌, take, length, Bool, true, false, ◌&&◌, Option, none, some, ⊤,
  if◌then◌else◌,
}
use live_streamer.Text.{Text, codes, text_eq}
use live_streamer.Buffer.{Buffer, max_data_size, copy_in, store, memset, snprintf, text}
use live_streamer.Machine.{M, pure, crash, exit, wait, gets, deref, modify, ◌>>=◌, ◌>>◌}
use live_streamer.Json.{Json, get_string}
use live_streamer.StreamerServer.State.{State, sent, closed, on_files, emit}
use live_streamer.Sockets.{Recv, failed, bytes}
use live_streamer.StreamerServer.Json.{
  stream_id_key, status_key, action_key, off, set_json_value, get_json_value_from_file,
}

abbrev pub done : Text
done = codes "done"

abbrev pub ready : Text
ready = codes "ready"

-- `{ "streamId" : "…","action" : "…"}`
unfoldable pub action_text : Text → Text → Text
action_text id action =
    codes "{ \"streamId\" : \"" ++ (id ++ (codes "\",\"action\" : \"" ++ (action ++ codes "\"}")))

module _ {Obj : Type 0} where
  abbrev pub on_buf : (Buffer → Buffer) → M (State Obj) ⊤
  on_buf g = modify (λ s. record s { temp_buf_s = g s.temp_buf_s })

  -- All of the array but its last byte is sent, whatever the text in it.
  unfoldable pub send_data : M (State Obj) ⊤
  send_data s = emit (sent s.clnt_sock (take (max_data_size - 1) s.temp_buf_s.cells)) s

  -- The common part of the SIG functions: the text is put into the cleared array, a NUL is
  -- stored behind the end of the array, and the array is sent.
  unfoldable pub send_text : Text → M (State Obj) ⊤
  unfolding send_data
  send_text t = do on_buf (snprintf max_data_size t); on_buf (store max_data_size 0); send_data

  unfoldable pub receive_data : Recv → M (State Obj) Text
  receive_data failed = do on_buf (memset max_data_size); exit 1
  receive_data (bytes bs) = do
    on_buf (memset max_data_size)
    let copied = take (max_data_size - 1) bs
    on_buf (copy_in copied)
    modify (λ s. record s { numbytes = length copied })
    on_buf (store (length copied) 0)
    gets (λ s. text s.temp_buf_s)

  -- `strcmp(s, t) == 0`
  unfoldable pub same : Option Text → Text → M (State Obj) Bool
  same s t = do s ← deref s; pure (text_eq s t)

  -- Only a message that names a stream sets the global.
  unfoldable pub set_strm_id : Option Text → M (State Obj) ⊤
  set_strm_id none = pure tt
  set_strm_id (some id) = modify (λ s. record s { strm_id = some id })

module _ {Obj : Type 0} ⦃j : Json Obj⦄ where
  unfoldable pub action_in_file : M (State Obj) (Option Text)
  action_in_file = do id ← gets (λ s. s.strm_id); on_files (get_json_value_from_file action_key id)

  unfoldable pub sig_live : M (State Obj) ⊤
  unfolding send_text
  sig_live = do
    on_buf (memset max_data_size)
    id ← gets (λ s. s.strm_id)
    id ← deref id
    send_text (action_text id (codes "live"))

  unfoldable pub sig_act : M (State Obj) ⊤
  unfolding send_text
  sig_act = do
    on_buf (memset max_data_size)
    action ← action_in_file
    id ← gets (λ s. s.strm_id)
    id ← deref id
    action ← deref action
    send_text (action_text id action)

  unfoldable pub sig_ack : M (State Obj) ⊤
  unfolding send_text
  sig_ack = do
    on_buf (memset max_data_size)
    send_text (codes "ACK")
    modify (λ s. record s { ack = true })
    id ← gets (λ s. s.strm_id)
    on_files (set_json_value action_key (some done) id)

  -- The two comparisons of the status with the action in the file.
  unfoldable pub compare_status : Option Text → M (State Obj) ⊤
  unfolding same
  compare_status status = do
    action ← action_in_file
    status ← deref status
    action ← deref action
    if text_eq status action then sig_ack else sig_act

  -- The second test of `msgParse` asks for the action only if the status is "ready".
  unfoldable pub reply_to_status : Option Text → M (State Obj) ⊤
  unfolding same
  reply_to_status status = do
    is_ready ← same status ready
    if is_ready
        then (do
          action ← action_in_file
          is_off ← same action off
          if is_off then sig_ack else compare_status status)
        else compare_status status

  unfoldable pub msg_parse : Text → M (State Obj) ⊤
  unfolding same
  msg_parse str = do
    let jobj = j.tokener_parse str
    set_strm_id (get_string jobj stream_id_key)
    id ← gets (λ s. s.strm_id)
    on_files (set_json_value stream_id_key id id)
    on_files (set_json_value status_key (get_string jobj status_key) id)
    on_files (get_json_value_from_file status_key id)
    action ← action_in_file
    is_done ← same action done
    if is_done then sig_ack else reply_to_status (get_string jobj status_key)

  unfoldable pub receive : Recv → M (State Obj) ⊤
  unfolding receive_data
  receive r = do str ← receive_data r; msg_parse str

  -- `while (!ACK) receive();`, over what the calls of `recv` give.
  unfoldable pub receive_until_ack : List Recv → M (State Obj) ⊤
  receive_until_ack [] = do ack ← gets (λ s. s.ack); if ack then pure tt else wait
  receive_until_ack (r ∷ rs) = do
    ack ← gets (λ s. s.ack)
    if ack then pure tt else (do receive r; receive_until_ack rs)

  unfoldable pub client_comm : List Recv → M (State Obj) ⊤
  unfolding receive_until_ack
  client_comm rs = do
    modify (λ s. record s { ack = false })
    receive_until_ack rs
    clnt_sock ← gets (λ s. s.clnt_sock)
    emit (closed clnt_sock)

  -- `ThreadMain`, with the socket that the accept loop put into the thread's arguments.
  unfoldable pub thread_main : ℕ → List Recv → M (State Obj) ⊤
  unfolding client_comm
  thread_main sock rs = do modify (λ s. record s { clnt_sock = sock }); client_comm rs
