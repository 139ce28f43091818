-- ===== src/System/Retries.antt =====
-- StreamerClient/src/TCPClient/Client.c, the loop of `main`: how long the camera keeps trying.
use live_streamer.Common.{
  ℕ, ◌-◌, ◌≡◌, refl, sym, ap, ◌∙◌, List, [], ◌∷◌, ◌++◌, length, length-append, append_assoc, false,
  true, Option, none, some, ⊤, arith, take-nil,
}
use live_streamer.Text.{Text, codes, text_eq, c_string}
use live_streamer.Buffer.{max_data_size}
use live_streamer.Buffer.Frames.{max_data_size_lem, frame}
use live_streamer.Buffer.Reading.{text-received}
use live_streamer.Machine.{Outcome, fault}
use live_streamer.Sockets.{Recv, failed, bytes, Attempt, connect_to_client, open_socket}
use live_streamer.Json.{Json, get_string}
use live_streamer.StreamerClient.State.{
  State, Event, sent, closed, Streaming, properties_file, get_json_value_from_file,
}
use live_streamer.StreamerClient.Comm.{
  status_text, msg_parse, receive, receive_data, report_until_ack, client_comm,
}
use live_streamer.StreamerClient.Comm.Obey.{Named}
use live_streamer.StreamerClient.Client.{connect, close_socket, serve_once, serve_all, main}
use live_streamer.System.Round.{reported, length-reported, sig_status_lem}

-- `recv` fails, or the server has closed the connection.
abbrev pub Lost : Recv → Type 0
Lost failed = ⊤
Lost (bytes []) = ⊤
Lost (bytes (b ∷ bs)) = ⊥

-- One of the three calls of `connect2Client` fails.
abbrev pub Refused : Text → Attempt → Type 0
Refused ip a = (sock : Option ℕ) → (connect_to_client a ip sock).1 ≡ false

abbrev pub AllRefused : Text → List (Attempt × List Recv) → Type 0
AllRefused ip [] = ⊤
AllRefused ip ((a, rs) ∷ turns) = Refused ip a × AllRefused ip turns

abbrev pub AllClosed : List Event → Type 0
AllClosed [] = ⊤
AllClosed (closed sock ∷ log) = AllClosed log
AllClosed (sent sock bs ∷ log) = ⊥

AllClosed-append : (xs ys : List Event) → AllClosed xs → AllClosed ys → AllClosed (xs ++ ys)
AllClosed-append [] ys hx hy = hy
AllClosed-append (closed sock ∷ xs) ys hx hy = AllClosed-append xs ys hx hy
AllClosed-append (sent sock bs ∷ xs) ys hx hy = absurd hx

-- A run that closes a socket for each of `tries` attempts, then sends one message, and dies.
pub record Dies {Obj P : Type 0} (s : State Obj P) (r : Outcome ⊤) (s' : State Obj P) (tries : ℕ)
    (message : Event) : Type 0 where
  pub closes : List Event
  pub all_closed : AllClosed closes
  pub one_each : length closes ≡ tries
  pub faults : r ≡ fault
  pub sends : s'.log ≡ message ∷ (closes ++ s.log)

module _ {Obj P : Type 0} ⦃j : Json Obj⦄ ⦃g : Streaming P⦄ (id ip : Text) (tries : ℕ) where
  receive-Lost :
      (s : State Obj P) (answer : Recv)
      → Lost answer
      → length s.temp_buff.cells ≡ max_data_size
      → Named s id
      → let (r, s') = receive tries answer s in (r ≡ fault) × (s'.log ≡ s.log)
  unfolding receive receive_data msg_parse get_json_value_from_file c_string text_eq codes
      get_string
  receive-Lost s failed lost size named = (refl, refl)
  receive-Lost s (bytes []) lost size named =
      rw
        (
          take-nil ℕ (max_data_size - 1),
          text-received [] s.temp_buff size (omega (arith, max_data_size_lem)),
          named,
          j.tokener_parse-nil,
        )
        (refl, refl)
  receive-Lost s (bytes (b ∷ bs)) lost size named = absurd lost

  -- The turn that connects.
  serve_all-Lost :
      (rest : List (Attempt × List Recv)) (s : State Obj P) (a : Attempt) (sock : Option ℕ)
      (answer : Recv) (rs : List Recv)
      → connect_to_client a ip s.srvr_sock ≡ (sock, true)
      → Lost answer
      → length s.temp_buff.cells ≡ max_data_size
      → s.send_works ≡ true
      → Named s id
      → let (r, s') = serve_all tries (some ip) ((a, answer ∷ rs) ∷ rest) s in
        Dies s r s' 0 (sent sock (frame (status_text id s.status)))
  unfolding serve_all serve_once connect client_comm report_until_ack
  serve_all-Lost rest s a sock answer rs connects lost size works named =
      let on = record s { srvr_sock = sock } in
      let (faults, same_log) =
        receive-Lost (reported on id) answer lost (length-reported on id size) named in
      rw (connects, sig_status_lem on id size works named, faults)
        (record { closes = []; all_closed = tt; one_each = refl; faults = refl; sends = same_log })

  serve_all_retries :
      (turns rest : List (Attempt × List Recv)) (s : State Obj P) (a : Attempt) (sock : Option ℕ)
      (answer : Recv) (rs : List Recv)
      → AllRefused ip turns
      → ((old : Option ℕ) → connect_to_client a ip old ≡ (sock, true))
      → Lost answer
      → length s.temp_buff.cells ≡ max_data_size
      → s.send_works ≡ true
      → Named s id
      → let (r, s') = serve_all tries (some ip) (turns ++ ((a, answer ∷ rs) ∷ rest)) s in
        Dies s r s' (length turns) (sent sock (frame (status_text id s.status)))
  unfolding serve_all serve_once connect close_socket
  serve_all_retries [] rest s a sock answer rs refused connects lost size works named =
      serve_all-Lost rest s a sock answer rs (connects s.srvr_sock) lost size works named
  serve_all_retries ((b, bs) ∷ turns) rest s a sock answer rs refused connects lost size works
        named =
      let left = (connect_to_client b ip s.srvr_sock).0 in
      let after = record s { srvr_sock = left; log = closed left ∷ s.log } in
      let d =
        serve_all_retries turns rest after a sock answer rs refused.1 connects lost size works
          named in
      rw (refused.0 s.srvr_sock) (record {
        closes = d.closes ++ (closed left ∷ []);
        all_closed = AllClosed-append d.closes (closed left ∷ []) d.all_closed tt;
        one_each = omega (arith, length-append d.closes (closed left ∷ []), d.one_each);
        faults = d.faults;
        sends =
            d.sends
            ∙ ap (λ log. sent sock (frame (status_text id s.status)) ∷ log)
                (sym (append_assoc d.closes (closed left ∷ []) s.log));
      })

  -- The camera tries again after every attempt to connect that fails, and closes the socket once
  -- for each; the first connection that is lost before an answer came kills it by a NULL pointer,
  -- after its report "ready", so that it does not try again. The properties name the stream and
  -- the server's address, and send works.
  pub main-Dies :
      (turns rest : List (Attempt × List Recv)) (s : State Obj P) (a : Attempt) (fd : ℕ)
      (answer : Recv) (rs : List Recv)
      → AllRefused ip turns
      → a.host_known ip ≡ true
      → a.socket ≡ some fd
      → a.connects ≡ true
      → Lost answer
      → length s.temp_buff.cells ≡ max_data_size
      → s.send_works ≡ true
      → Named s id
      → get_string (s.files.at properties_file) (codes "TCPServerIp") ≡ some ip
      → let (r, s') = main tries (turns ++ ((a, answer ∷ rs) ∷ rest)) s in
        Dies s r s' (length turns) (sent (some fd) (frame (status_text id (codes "ready"))))
  unfolding main get_json_value_from_file connect_to_client open_socket
  main-Dies turns rest s a fd answer rs refused known opens connects lost size works named has_ip =
      let ready = record s { status = codes "ready" } in
      let d =
        serve_all_retries turns rest ready a (some fd) answer rs refused
          (λ old. rw (known, opens, connects) refl) lost size works named in
      rw has_ip (record {
        closes = d.closes;
        all_closed = d.all_closed;
        one_each = d.one_each;
        faults = d.faults;
        sends = d.sends;
      })

  -- Without an address the first attempt to connect ends the process, before anything is sent.
  main-no_address :
      (a : Attempt) (rs : List Recv) (rest : List (Attempt × List Recv)) (s : State Obj P)
      → get_string (s.files.at properties_file) (codes "TCPServerIp") ≡ none
      → let (r, s') = main tries ((a, rs) ∷ rest) s in (r ≡ fault) × (s'.log ≡ s.log)
  unfolding main get_json_value_from_file serve_all serve_once connect
  main-no_address a rs rest s no_ip = rw no_ip (refl, refl)
