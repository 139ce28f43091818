-- ===== src/StreamerClient/Comm.antt =====
-- StreamerClient/src/TCPClient/ClientComm.c, and the calls of Client.c that it makes.
pub mod Obey
use live_streamer.Common.{
  ℕ, zero, suc, ◌-◌, ◌++◌, List, [], ◌∷◌, take, length, Bool, true, false, Option, none, some, ⊤,
  if◌then◌else◌, ◌==◌,
}
use live_streamer.Text.{Text, codes, text_eq}
use live_streamer.Buffer.{Buffer, max_data_size, copy_in, store, memset, snprintf, text}
use live_streamer.Machine.{M, pure, wait, gets, deref, modify, ◌>>=◌, ◌>>◌}
use live_streamer.Sockets.{Recv, failed, bytes}
use live_streamer.Json.{Json, get_string}
use live_streamer.StreamerClient.State.{
  State, Streaming, sent, on_files, on_pipeline, emit, get_json_value_from_file,
}

-- `{ "streamId" : "…","status" : "…"}`
unfoldable pub status_text : Text → Text → Text
status_text id status =
    codes "{ \"streamId\" : \"" ++ (id ++ (codes "\",\"status\" : \"" ++ (status ++ codes "\"}")))

module _ {Obj P : Type 0} where
  abbrev pub on_buf : (Buffer → Buffer) → M (State Obj P) ⊤
  on_buf g = modify (λ s. record s { temp_buff = g s.temp_buff })

  -- The array is cleared again unless `send` failed.
  unfoldable pub send_data : M (State Obj P) ⊤
  send_data = do
    buf ← gets (λ s. s.temp_buff)
    sock ← gets (λ s. s.srvr_sock)
    emit (sent sock (take (max_data_size - 1) buf.cells))
    works ← gets (λ s. s.send_works)
    if works then on_buf (memset max_data_size) else pure tt

  -- NULL if `recv` failed.
  unfoldable pub receive_data : Recv → M (State Obj P) (Option Text)
  receive_data failed = do on_buf (memset max_data_size); pure none
  receive_data (bytes bs) = do
    on_buf (memset max_data_size)
    let copied = take (max_data_size - 1) bs
    on_buf (copy_in copied)
    modify (λ s. record s { numbytes = length copied })
    on_buf (store (length copied) 0)
    gets (λ s. some (text s.temp_buff))

  -- `snprintf(status, MAXDATASIZE / 4, …)` of one of the short constants.
  abbrev pub set_status : Text → M (State Obj P) ⊤
  set_status t = modify (λ s. record s { status = t })

module _ {Obj P : Type 0} ⦃j : Json Obj⦄ where
  unfoldable pub sig_status : M (State Obj P) ⊤
  unfolding send_data get_json_value_from_file
  sig_status = do
    on_buf (memset max_data_size)
    id ← on_files (get_json_value_from_file (codes "streamId"))
    id ← deref id
    status ← gets (λ s. s.status)
    on_buf (snprintf max_data_size (status_text id status))
    on_buf (store max_data_size 0)
    send_data

module _ {Obj P : Type 0} ⦃g : Streaming P⦄ where
  -- `while (stopStreaming() != 1) …`, with a bound on the attempts.
  unfoldable pub stop_all : ℕ → M (State Obj P) ⊤
  stop_all zero = wait
  stop_all (suc tries) = do
    r ← on_pipeline g.stop_streaming
    if r == 1 then pure tt else stop_all tries

  -- The pipeline is built, and streams from then on; nothing more is done if that fails.
  unfoldable pub start_from_ready : M P ⊤ → Text → M (State Obj P) ⊤
  start_from_ready prepare t = do
    done ← on_pipeline g.set_all
    if done then (do on_pipeline prepare; on_pipeline g.start_streaming; set_status t) else pure tt

  unfoldable pub go_live : M (State Obj P) ⊤
  unfolding start_from_ready
  go_live = do
    status ← gets (λ s. s.status)
    if text_eq status (codes "local")
        then (do on_pipeline g.start_live; set_status (codes "live"))
        else if text_eq status (codes "ready")
        then start_from_ready (do g.init_live; pure tt) (codes "live")
        else set_status (codes "live")

  unfoldable pub go_local : M (State Obj P) ⊤
  unfolding start_from_ready
  go_local = do
    status ← gets (λ s. s.status)
    if text_eq status (codes "live")
        then (do on_pipeline g.stop_live; set_status (codes "local"))
        else if text_eq status (codes "ready")
        then start_from_ready (pure tt) (codes "local")
        else set_status (codes "local")

  unfoldable pub go_off : ℕ → M (State Obj P) ⊤
  unfolding stop_all
  go_off tries = do stop_all tries; set_status (codes "ready")

  -- The three actions that the camera knows.
  unfoldable pub obey : ℕ → Text → M (State Obj P) ⊤
  obey tries action =
      if text_eq action (codes "live")
      then go_live
      else if text_eq action (codes "local")
      then go_local
      else if text_eq action (codes "off")
      then go_off tries
      else pure tt

module _ {Obj P : Type 0} ⦃j : Json Obj⦄ ⦃g : Streaming P⦄ where
  -- Only messages for this stream are obeyed.
  unfoldable pub msg_parse : ℕ → Text → M (State Obj P) ⊤
  unfolding get_json_value_from_file
  msg_parse tries str = do
    let jobj = j.tokener_parse str
    own ← on_files (get_json_value_from_file (codes "streamId"))
    own ← deref own
    id ← deref (get_string jobj (codes "streamId"))
    if text_eq own id
        then (do action ← deref (get_string jobj (codes "action")); obey tries action)
        else pure tt

  -- Whether the message was an ACK.
  unfoldable pub receive : ℕ → Recv → M (State Obj P) Bool
  unfolding receive_data
  receive tries r = do
    str ← receive_data r
    str ← deref str
    if text_eq str (codes "ACK") then pure true else (do msg_parse tries str; pure false)

  -- `while (receive() != ACK) { SIGStatus(); sleep(1); }`
  unfoldable pub report_until_ack : ℕ → List Recv → M (State Obj P) ⊤
  report_until_ack tries [] = wait
  report_until_ack tries (r ∷ rs) = do
    acked ← receive tries r
    if acked then pure tt else (do sig_status; report_until_ack tries rs)

  unfoldable pub client_comm : ℕ → List Recv → M (State Obj P) ⊤
  client_comm tries rs = do sig_status; report_until_ack tries rs
