-- ===== src/StreamerServer/Comm/Directed.antt =====
-- Where the server's answers go. The socket is a global that the threads of all connections
-- share, and a thread sets it once, when it starts.
use live_streamer.Common.{
  ◌-◌, ◌≡◌, ◌⊎◌, inl, inr, refl, ◌∷◌, take, Option, none, some, if◌then◌else◌, Bool, true, false,
  arith,
}
use live_streamer.Text.{Text}
use live_streamer.Buffer.{max_data_size}
use live_streamer.Machine.{◌>>=◌, ◌>>◌}
use live_streamer.Json.{Json, get_string}
use live_streamer.StreamerServer.Json.{
  stream_id_key, status_key, set_json_value, get_json_value_from_file,
}
use live_streamer.Sockets.{Recv, failed, bytes}
use live_streamer.StreamerServer.State.{State, sent, on_files}
use live_streamer.StreamerServer.Comm.{
  done, sig_ack, sig_act, send_text, compare_status, reply_to_status, msg_parse, receive,
  receive_data, action_in_file, same, set_strm_id,
}

module _ {Obj : Type 0} where
  -- At most one message was sent: what the array holds, on the socket that the global held.
  abbrev pub Directed : State Obj → State Obj → Type 0
  Directed s s' =
      (s'.clnt_sock ≡ s.clnt_sock)
      × ((s'.log ≡ s.log)
          ⊎ (s'.log ≡ sent s.clnt_sock (take (max_data_size - 1) s'.temp_buf_s.cells) ∷ s.log))

module _ {Obj : Type 0} ⦃j : Json Obj⦄ where
  sig_ack-Directed : (s : State Obj) → Directed s (sig_ack s).1
  unfolding sig_ack send_text
  sig_ack-Directed s = (refl, inr refl)

  sig_act-Directed : (s : State Obj) → Directed s (sig_act s).1
  unfolding sig_act action_in_file
  sig_act-Directed s = ground arith

  -- The state once the action was read from the file.
  abbrev asked_file : State Obj → State Obj
  asked_file s = (action_in_file s).1

  compare_status-Directed :
      (status : Option Text) (s : State Obj) → Directed s (compare_status status s).1
  unfolding compare_status action_in_file
  compare_status-Directed status s =
      ground (arith, sig_ack-Directed (asked_file s), sig_act-Directed (asked_file s))

  reply_to_status-Directed :
      (status : Option Text) (s : State Obj) → Directed s (reply_to_status status s).1
  unfolding reply_to_status action_in_file
  reply_to_status-Directed status s = ground (
    arith,
    sig_ack-Directed (asked_file s),
    compare_status-Directed status (asked_file s),
    compare_status-Directed status s,
  )

  -- The two ends of `msgParse`.
  settle-Directed :
      (is_done : Bool) (status : Option Text) (s : State Obj)
      → Directed s ((if is_done then sig_ack else reply_to_status status) s).1
  settle-Directed true status s = sig_ack-Directed s
  settle-Directed false status s = reply_to_status-Directed status s

  -- `msgParse`, once the global names the stream.
  answer-Directed :
      (id status : Option Text) (s : State Obj)
      → Directed s
          ((on_files (set_json_value stream_id_key id id)
              >> (on_files (set_json_value status_key status id)
                  >> (on_files (get_json_value_from_file status_key id)
                      >> (action_in_file >>= λ action.
                          (same action done >>= λ is_done.
                          if is_done then sig_ack else reply_to_status status)))))
            s).1
  unfolding action_in_file same
  answer-Directed id status s =
      let f1 = (set_json_value stream_id_key id id s.files).1 in
      let f2 = (set_json_value status_key status id f1).1 in
      let f3 = (get_json_value_from_file status_key id f2).1 in
      let s4 = asked_file (record s { files = f3 }) in
      ground (arith, settle-Directed true status s4, settle-Directed false status s4)

  msg_parse-Directed : (str : Text) (s : State Obj) → Directed s (msg_parse str s).1
  unfolding msg_parse set_strm_id
  msg_parse-Directed str s = go (get_string (j.tokener_parse str) stream_id_key) refl
    where
      go :
          (o : Option Text)
          → get_string (j.tokener_parse str) stream_id_key ≡ o
          → Directed s (msg_parse str s).1
      go none e = rw e (answer-Directed s.strm_id (get_string (j.tokener_parse str) status_key) s)
      go (some id) e = rw e (
          answer-Directed (some id) (get_string (j.tokener_parse str) status_key)
            (record s { strm_id = some id }))

  -- Whatever a call of `recv` gives, and however the message ends, `receive` sends at most one
  -- message. It goes to the socket that the shared global held, which stays as it is.
  pub receive-Directed : (r : Recv) (s : State Obj) → Directed s (receive r s).1
  unfolding receive receive_data
  receive-Directed failed s = (refl, inl refl)
  receive-Directed (bytes bs) s = msg_parse-Directed _ _
