-- ===== src/TcpClient/Follow.antt =====
-- What the client reports, and how it follows an action.
use live_streamer.Common.{
  ℕ, ◌<◌, ◌≡◌, refl, ◌∷◌, List, length, none, some, true, arith, ◌∙◌, ◌&&◌, false,
}
use live_streamer.Text.{Text, c_string, codes, text_eq, text_eq_refl}
use live_streamer.Buffer.{max_data_size, memset}
use live_streamer.Buffer.Reading.{received}
use live_streamer.Buffer.Leftover.{printed, wire}
use live_streamer.Machine.{ok}
use live_streamer.Json.{Json, get_string, get_string_lem}
use live_streamer.Sockets.{bytes}
use live_streamer.StreamerClient.Comm.{status_text}
use live_streamer.Endpoint.{print_text, State, holds, sent}
use live_streamer.Endpoint.Frames.{receive_sent}
use live_streamer.TcpClient.{
  is_none, get_json_value_from_file, set_json_value, sig, send_data, receive_data, follow,
  msg_parse, receive,
}

-- What the client reads of the server's message: an action for its stream, and no status.
pub record Asks {Obj : Type 0} (j : Json Obj) (t id action : Text) : Type 0 where
  pub object : Obj
  pub parsed : j.tokener_parse t ≡ some object
  pub has_id : j.get_ex object (codes "streamId") ≡ some (some id)
  pub has_action : j.get_ex object (codes "action") ≡ some (some action)
  pub has_no_status : j.get_ex object (codes "status") ≡ none

module _ {Obj : Type 0} ⦃j : Json Obj⦄ where
  -- The client's own file names a stream.
  pub record Named (s : State Obj) (id : Text) (o : Obj) : Type 0 where
    pub has_file : s.file ≡ holds o
    pub has_id : j.get_ex o (codes "streamId") ≡ some (some id)

  get_id_lem :
      (s : State Obj) (id : Text) (o : Obj)
      → Named s id o
      → get_json_value_from_file (codes "streamId") s ≡ (ok (some id), s)
  unfolding get_json_value_from_file get_string
  get_id_lem s id o n = rw (n.has_file, n.has_id)

  -- The client after a report.
  abbrev pub reported : State Obj → Text → State Obj
  reported s t = record s {
    temp_buff = memset max_data_size (printed t s.temp_buff);
    log = sent s.sock (wire t s.temp_buff) ∷ s.log;
  }

  pub sig_lem :
      (s : State Obj) (id status : Text) (o : Obj)
      → Named s id o
      → s.send_works ≡ true
      → sig status s ≡ (ok tt, reported s (status_text id status))
  unfolding sig send_data print_text
  sig_lem s id status o n w = rw (get_id_lem s id o n, w)

  -- The client with the action in its file.
  abbrev pub noted : State Obj → Obj → Text → State Obj
  noted s o action = record s { file = holds (j.add o (codes "action") action) }

  set_action_lem :
      (s : State Obj) (o : Obj) (action : Text)
      → s.file ≡ holds o
      → j.is_object o ≡ true
      → s.writable ≡ true
      → set_json_value (codes "action") (some action) s ≡ (ok tt, noted s o action)
  unfolding set_json_value
  set_action_lem s o action h e w = rw (h, e, w)

  no_status_lem :
      (o : Obj) → j.get_ex o (codes "status") ≡ none → get_string (some o) (codes "status") ≡ none
  unfolding get_string
  no_status_lem o h = rw (get_string, h)

  -- The client asked for a live stream: the action is noted in its file, and the status "live"
  -- reported.
  follow_live :
      (s : State Obj) (id : Text) (o : Obj)
      → Named s id o
      → j.is_object o ≡ true
      → s.writable ≡ true
      → s.send_works ≡ true
      → follow (some (codes "live")) s
        ≡ (ok tt, reported (noted s o (codes "live")) (status_text id (codes "live")))
  unfolding follow text_eq codes
  follow_live s id o n e w works =
      let n' : Named (noted s o (codes "live")) id (j.add o (codes "action") (codes "live")) =
        record {
          has_file = refl;
          has_id = j.get_ex-add o (codes "action") (codes "live") (codes "streamId") e ∙ n.has_id;
        } in
      rw (
        set_action_lem s o (codes "live") n.has_file e w,
        sig_lem (noted s o (codes "live")) id (codes "live")
            (j.add o (codes "action") (codes "live")) n' works,
      )

  -- The client after a `recv`.
  abbrev pub heard : State Obj → List ℕ → State Obj
  heard s bs = record s { numbytes = length bs; temp_buff = received bs s.temp_buff }

  msg_parse_live :
      (s : State Obj) (t id : Text) (o : Obj)
      → Named s id o
      → j.is_object o ≡ true
      → s.writable ≡ true
      → s.send_works ≡ true
      → (m : Asks j t id (codes "live"))
      → msg_parse t s ≡ (ok tt, reported (noted s o (codes "live")) (status_text id (codes "live")))
  unfolding msg_parse
  msg_parse_live s t id o n e w works m =
      rw
        (
          m.parsed,
          get_id_lem s id o n,
          get_string_lem m.object (codes "streamId") (some id) m.has_id,
          text_eq_refl id,
          no_status_lem m.object m.has_no_status,
          get_string_lem m.object (codes "action") (some (codes "live")) m.has_action,
        )
        (follow_live s id o n e w works)

  pub receive_live :
      (s : State Obj) (bs : List ℕ) (t id : Text) (o : Obj)
      → length s.temp_buff.cells ≡ max_data_size
      → length bs < max_data_size
      → c_string bs ≡ t
      → Named s id o
      → j.is_object o ≡ true
      → s.writable ≡ true
      → s.send_works ≡ true
      → (m : Asks j t id (codes "live"))
      → receive (bytes bs) s
        ≡ (ok tt, reported (noted (heard s bs) o (codes "live")) (status_text id (codes "live")))
  unfolding receive receive_data
  receive_live s bs t id o size short reads n e w works m =
      let n' : Named (heard s bs) id o = record { has_file = n.has_file; has_id = n.has_id } in
      rw (receive_sent s t size bs short reads) (msg_parse_live (heard s bs) t id o n' e w works m)

  -- A message for another stream, or one that has a status, is ignored.
  pub msg_parse_ignores :
      (s : State Obj) (t id other : Text) (o m : Obj)
      → Named s id o
      → j.tokener_parse t ≡ some m
      → j.get_ex m (codes "streamId") ≡ some (some other)
      → (text_eq id other && is_none (get_string (some m) (codes "status"))) ≡ false
      → msg_parse t s ≡ (ok tt, s)
  unfolding msg_parse
  msg_parse_ignores s t id other o m n p i h =
      rw (p, get_id_lem s id o n, get_string_lem m (codes "streamId") (some other) i) (ground arith)
