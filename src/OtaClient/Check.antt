-- ===== src/OtaClient/Check.antt =====
-- What the client asks, and what it does about the answer.
use live_streamer.Common.{
  ◌<◌, ◌≡◌, ◌∷◌, ◌-◌, take, length, some, true, replicate, ap, sym, ◌∙◌, length-replicate,
}
use live_streamer.Text.{Text, IsCString, codes, text_eq, text_eq_refl}
use live_streamer.Buffer.{Buffer, max_data_size, memset, sprintf, store, snprintf}
use live_streamer.Buffer.Frames.{frame, loaded-frame, memset_lem}
use live_streamer.Machine.{ok}
use live_streamer.Json.{Json, get_string, get_string_lem}
use live_streamer.Sockets.{bytes}
use live_streamer.Endpoint.{State, holds, sent, ran, print_text}
use live_streamer.Endpoint.Frames.{heard, receive_data_lem}
use live_streamer.OtaClient.{
  request_text, script, send_data, get_json_value_from_file, set_json_value, sig_check_update,
  update, msg_parse, receive,
}

-- What the client reads of an answer: that it is up to date, or where a package is.
pub record IsUpdated {Obj : Type 0} (j : Json Obj) (t : Text) : Type 0 where
  pub object : Obj
  pub parsed : j.tokener_parse t ≡ some object
  pub has_status : j.get_ex object (codes "status") ≡ some (some (codes "updated"))

pub record IsAvailable {Obj : Type 0} (j : Json Obj) (t addr archive w : Text) : Type 0 where
  pub object : Obj
  pub parsed : j.tokener_parse t ≡ some object
  pub has_status : j.get_ex object (codes "status") ≡ some (some (codes "available"))
  pub has_addr : j.get_ex object (codes "addr") ≡ some (some addr)
  pub has_package : j.get_ex object (codes "package") ≡ some (some archive)
  pub has_version : j.get_ex object (codes "version") ≡ some (some w)

-- The array of a new process.
abbrev pub zeros : Buffer
zeros = record { cells = replicate max_data_size 0; spilled = 0 }

-- The array with a text in it.
abbrev pub printed : Text → Buffer
printed t = store max_data_size 0 (snprintf max_data_size t zeros)

printed-frame : (t : Text) → take (max_data_size - 1) (printed t).cells ≡ frame t
printed-frame t =
    ap (λ b. take (max_data_size - 1) (store max_data_size 0 (snprintf max_data_size t b)).cells)
      (sym (memset_lem zeros (length-replicate max_data_size 0)))
    ∙ loaded-frame t zeros (length-replicate max_data_size 0)

module _ {Obj : Type 0} ⦃j : Json Obj⦄ where
  -- The client's own file.
  pub record Installed (s : State Obj) (id v : Text) : Type 0 where
    pub object : Obj
    pub has_file : s.file ≡ holds object
    pub is_object : j.is_object object ≡ true
    pub can_write : s.writable ≡ true
    pub has_id : j.get_ex object (codes "streamId") ≡ some (some id)
    pub has_version : j.get_ex object (codes "version") ≡ some (some v)

  get_value_lem :
      (s : State Obj) (o : Obj) (k v : Text)
      → s.file ≡ holds o
      → j.get_ex o k ≡ some (some v)
      → get_json_value_from_file k s ≡ (ok (some v), s)
  unfolding get_json_value_from_file get_string
  get_value_lem s o k v h e = rw (h, e)

  set_value_lem :
      (s : State Obj) (o : Obj) (k v : Text)
      → s.file ≡ holds o
      → j.is_object o ≡ true
      → s.writable ≡ true
      → set_json_value k (some v) s ≡ (ok tt, record s { file = holds (j.add o k v) })
  unfolding set_json_value
  set_value_lem s o k v h e w = rw (h, e, w)

  -- The client after its request.
  abbrev pub asked : State Obj → Text → State Obj
  asked s t = record s {
    temp_buff = memset max_data_size (printed t);
    log = sent s.sock (frame t) ∷ s.log;
  }

  -- A new process sends the request as one frame.
  pub sig_check_update_lem :
      (s : State Obj) (id v : Text)
      → s.temp_buff ≡ zeros
      → s.send_works ≡ true
      → Installed s id v
      → sig_check_update s ≡ (ok tt, asked s (request_text id v))
  unfolding sig_check_update send_data print_text
  sig_check_update_lem s id v zero works c = rw (
    get_value_lem s c.object (codes "streamId") id c.has_file c.has_id,
    get_value_lem s c.object (codes "version") v c.has_file c.has_version,
    works,
    zero,
    printed-frame (request_text id v),
  )

  -- The client after an update.
  abbrev pub updated : State Obj → Obj → Text → Text → Text → State Obj
  updated s o addr archive w = record s {
    file = holds (j.add o (codes "version") w);
    temp_buff = sprintf (script addr archive) s.temp_buff;
    log = ran (script addr archive) ∷ s.log;
  }

  msg_parse_updated : (s : State Obj) (t : Text) → IsUpdated j t → msg_parse t s ≡ (ok tt, s)
  unfolding msg_parse codes text_eq
  msg_parse_updated s t a =
      rw (a.parsed, get_string_lem a.object (codes "status") (some (codes "updated")) a.has_status)

  msg_parse_available :
      (s : State Obj) (t addr archive w id v : Text)
      → (a : IsAvailable j t addr archive w) → (c : Installed s id v)
      → msg_parse t s ≡ (ok tt, updated s c.object addr archive w)
  unfolding msg_parse update
  msg_parse_available s t addr archive w id v a c =
      let s1 : State Obj = record s {
        temp_buff = sprintf (script addr archive) s.temp_buff;
        log = ran (script addr archive) ∷ s.log;
      } in
      rw
        (
          a.parsed,
          get_string_lem a.object (codes "status") (some (codes "available")) a.has_status,
          text_eq_refl (codes "available"),
          get_string_lem a.object (codes "package") (some archive) a.has_package,
          get_string_lem a.object (codes "addr") (some addr) a.has_addr,
          get_string_lem a.object (codes "version") (some w) a.has_version,
        )
        (set_value_lem s1 c.object (codes "version") w c.has_file c.is_object c.can_write)

  -- The answer that the client is up to date changes nothing but the array.
  pub receive_updated :
      (s : State Obj) (t : Text)
      → length s.temp_buff.cells ≡ max_data_size
      → IsCString t
      → length t < max_data_size
      → IsUpdated j t
      → receive (bytes (frame t)) s ≡ (ok tt, heard s t)
  unfolding receive
  receive_updated s t size plain fits a =
      rw (receive_data_lem s t size plain fits) (msg_parse_updated (heard s t) t a)

  pub receive_available :
      (s : State Obj) (t addr archive w id v : Text)
      → length s.temp_buff.cells ≡ max_data_size
      → IsCString t
      → length t < max_data_size
      → (a : IsAvailable j t addr archive w) → (c : Installed s id v)
      → receive (bytes (frame t)) s ≡ (ok tt, updated (heard s t) c.object addr archive w)
  unfolding receive
  receive_available s t addr archive w id v size plain fits a c =
      let c' : Installed (heard s t) id v = record {
        object = c.object;
        has_file = c.has_file;
        is_object = c.is_object;
        can_write = c.can_write;
        has_id = c.has_id;
        has_version = c.has_version;
      } in
      rw (receive_data_lem s t size plain fits)
        (msg_parse_available (heard s t) t addr archive w id v a c')
