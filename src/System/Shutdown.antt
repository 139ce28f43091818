-- ===== src/System/Shutdown.antt =====
-- StreamerClient/src/TCPClient/Client.c, `intHandler`: what the server hears when the camera is
-- interrupted.
use live_streamer.Common.{
  ℕ, zero, suc, ◌<◌, ◌≡◌, ◌≢◌, ◌⊎◌, inl, inr, refl, ap, ◌∙◌, List, [], ◌∷◌, ◌++◌, length, false,
  some, true, replicate, if◌then◌else◌, arith, ⊤, Bool-cases,
}
use live_streamer.Text.{Text, codes, text_eq_refl}
use live_streamer.Buffer.{max_data_size}
use live_streamer.Buffer.Frames.{max_data_size_lem, frame}
use live_streamer.Buffer.Reading.{length-received}
use live_streamer.Machine.{Outcome, ok, exited}
use live_streamer.Sockets.{Recv, bytes, Attempt, connect_to_client}
use live_streamer.Json.{Json, get_string}
use live_streamer.StreamerServer.Comm.{action_text}
use live_streamer.StreamerClient.State.{
  State, Event, sent, closed, Streaming, properties_file, get_json_value_from_file,
}
use live_streamer.StreamerClient.Comm.{
  status_text, go_live, go_local, obey, report_until_ack, receive, client_comm,
}
use live_streamer.StreamerClient.Comm.Obey.{
  Action, word, target, Named, msg_parse_obeys, off_not_local, off_not_live, off_not_ready,
  live_not_local, live_not_ready, local_not_live, local_not_ready,
}
use live_streamer.StreamerClient.Client.{int_handler, connect, close_socket}
use live_streamer.System.Messages.{
  IsPlain, IsPlain-IsCString, ReadsMessages, length-action_text, action_text-IsCString,
}
use live_streamer.System.Round.{
  camera_heard, camera_receive_lem, reported, length-reported, sig_status_lem, length-frame,
}
use live_streamer.System.Exchange.{IsPlain-word, ack_plain, ack_fits, action_text_not_ack}

-- The server sends the action `n` times, and then ACK.
abbrev pub answers : Text → Action → ℕ → List Recv
answers id a n =
    replicate n (bytes (frame (action_text id (word a)))) ++ (bytes (frame (codes "ACK")) ∷ [])

replicate-cons :
    {A : Type 0} (n : ℕ) (x : A) (xs : List A)
    → replicate n x ++ (x ∷ xs) ≡ x ∷ (replicate n x ++ xs)
replicate-cons zero x xs = refl
replicate-cons (suc n) x xs = ap (λ ys. x ∷ ys) (replicate-cons n x xs)

module _ {Obj P : Type 0} ⦃j : Json Obj⦄ ⦃g : Streaming P⦄ where
  -- A camera that is off, or has the status of the action already, only takes over the status.
  obey_without_calls :
      (s : State Obj P) (tries : ℕ) (a : Action)
      → a ≢ Action.off
      → (s.status ≡ codes "off") ⊎ (s.status ≡ target a)
      → obey tries (word a) s ≡ (ok tt, record s { status = target a })
  unfolding obey go_live go_local
  obey_without_calls s tries Action.live n (inl e) =
      ground (arith, text_eq_refl (codes "live"), off_not_local, off_not_ready)
  obey_without_calls s tries Action.live n (inr e) =
      ground (arith, text_eq_refl (codes "live"), live_not_local, live_not_ready)
  obey_without_calls s tries Action.local n (inl e) =
      ground (arith, local_not_live, text_eq_refl (codes "local"), off_not_live, off_not_ready)
  obey_without_calls s tries Action.local n (inr e) =
      ground (arith, local_not_live, text_eq_refl (codes "local"), local_not_ready)
  obey_without_calls s tries Action.off n e = absurd (n refl)

-- The loop of `clientComm` that ends in ACK, with the reports that it sends.
pub record Acknowledged {Obj P : Type 0} (s : State Obj P) (r : Outcome ⊤) (s' : State Obj P)
    (reports : List Event) : Type 0 where
  pub returns : r ≡ ok tt
  pub same_pipeline : s'.pipeline ≡ s.pipeline
  pub same_socket : s'.srvr_sock ≡ s.srvr_sock
  pub sends : s'.log ≡ reports ++ s.log

module _ {Obj P : Type 0} ⦃j : Json Obj⦄ ⦃g : Streaming P⦄ (reads : ReadsMessages j) (id : Text)
    (plain_id : IsPlain id) (short_id : length id < 200) (a : Action) (not_off : a ≢ Action.off)
    (tries : ℕ) where
  -- The camera that was told the action and has reported again.
  abbrev told : State Obj P → State Obj P
  told s = reported (record (camera_heard s (action_text id (word a))) { status = target a }) id

  receive_told :
      (s : State Obj P)
      → length s.temp_buff.cells ≡ max_data_size
      → Named s id
      → (s.status ≡ codes "off") ⊎ (s.status ≡ target a)
      → receive tries (bytes (frame (action_text id (word a)))) s
        ≡ (ok false, record (camera_heard s (action_text id (word a))) { status = target a })
  receive_told s size named e =
      let plain = IsPlain-word a in
      let r = reads.reads_action id (word a) plain_id plain.0 in
      rw (
        camera_receive_lem s tries (action_text id (word a)) size
            (action_text-IsCString id (word a) (IsPlain-IsCString id plain_id)
              (IsPlain-IsCString (word a) plain.0))
            (omega (arith, max_data_size_lem, length-action_text id (word a), short_id, plain.1)),
        action_text_not_ack id (word a),
        msg_parse_obeys (camera_heard s (action_text id (word a))) tries (action_text id (word a))
            id id (word a) named r.parsed r.has_id r.has_value,
        text_eq_refl id,
        obey_without_calls (camera_heard s (action_text id (word a))) tries a not_off e,
      )

  report_until_ack_lem :
      (n : ℕ) (s : State Obj P)
      → length s.temp_buff.cells ≡ max_data_size
      → s.send_works ≡ true
      → Named s id
      → (s.status ≡ codes "off") ⊎ (s.status ≡ target a)
      → let (r, s') = report_until_ack tries (answers id a n) s in
        Acknowledged s r s' (replicate n (sent s.srvr_sock (frame (status_text id (target a)))))
  unfolding report_until_ack
  report_until_ack_lem zero s size works named e =
      rw
        (
          camera_receive_lem s tries (codes "ACK") size ack_plain ack_fits,
          text_eq_refl (codes "ACK"),
        )
        (record { returns = refl; same_pipeline = refl; same_socket = refl; sends = refl })
  report_until_ack_lem (suc n) s size works named e =
      let message = action_text id (word a) in
      let heard = record (camera_heard s message) { status = target a } in
      let heard_size = length-received (frame message) s.temp_buff size (length-frame message) in
      let next =
        report_until_ack_lem n (told s) (length-reported heard id heard_size) works named
          (inr refl) in
      rw (receive_told s size named e, sig_status_lem heard id heard_size works named)
        (record {
          returns = next.returns;
          same_pipeline = next.same_pipeline;
          same_socket = next.same_socket;
          sends =
              next.sends
              ∙ replicate-cons n (sent s.srvr_sock (frame (status_text id (target a)))) s.log;
        })

  -- An interrupted camera stops its streams and ends with status 0, whatever number the stop
  -- gave, if it returned. If the camera can connect, it reports "off" first. The server may then
  -- send one of the actions live and local, the same one any number of times, before the ACK: the
  -- camera reports each time that it is so, though the pipeline is only stopped. If it cannot
  -- connect, it sends nothing. The socket is closed either way. The properties name the stream and
  -- the server's address; the stream's name has printable characters, fewer than 200 bytes of them;
  -- send works, and the JSON library reads the messages.
  pub int_handler_lem :
      (n : ℕ) (s : State Obj P) (attempt : Attempt) (srvr_ip : Text) {result : ℕ}
      → length s.temp_buff.cells ≡ max_data_size
      → s.send_works ≡ true
      → Named s id
      → get_string (s.files.at properties_file) (codes "TCPServerIp") ≡ some srvr_ip
      → (g.stop_streaming s.pipeline).0 ≡ ok result
      → let (r, s') = int_handler tries attempt (answers id a n) s in
        let (sock, connected) = connect_to_client attempt srvr_ip s.srvr_sock in
        (r ≡ exited 0)
        × (s'.pipeline ≡ (g.stop_streaming s.pipeline).1)
        × (s'.log
            ≡ closed sock
              ∷ (if connected
                  then replicate n (sent sock (frame (status_text id (target a))))
                    ++ (sent sock (frame (status_text id (codes "off"))) ∷ s.log)
                  else s.log))
  unfolding int_handler connect close_socket client_comm get_json_value_from_file
  int_handler_lem n s attempt srvr_ip size works named has_ip stops =
      let (sock, connected) = connect_to_client attempt srvr_ip s.srvr_sock in
      let stopped = record s {
        pipeline = (g.stop_streaming s.pipeline).1;
        status = codes "off";
        srvr_sock = sock;
      } in
      elim (Bool-cases connected) [
        | inl c ↦
            let done =
              report_until_ack_lem n (reported stopped id) (length-reported stopped id size) works
                named (inl refl) in
            rw (stops, has_ip, c, sig_status_lem stopped id size works named, done.returns)
              (refl, done.same_pipeline, rw (done.same_socket, done.sends) refl)
        | inr c ↦ rw (stops, has_ip, c) (refl, refl, refl)
      ]
