-- ===== src/OtaServer/Answer.antt =====
-- What the server answers to a request.
use live_streamer.Common.{ℕ, ◌<◌, ◌≡◌, ◌∷◌, length, some, if◌then◌else◌, Bool-cases, inl, inr}
use live_streamer.Text.{Text, IsCString, codes, text_eq, text_eq_refl}
use live_streamer.Buffer.{max_data_size, memset}
use live_streamer.Buffer.Frames.{frame}
use live_streamer.Buffer.Reading.{length-received}
use live_streamer.System.Round.{length-frame}
use live_streamer.Machine.{ok}
use live_streamer.Json.{Json, get_string, get_string_lem}
use live_streamer.Sockets.{bytes}
use live_streamer.Endpoint.{State, holds, closed}
use live_streamer.Endpoint.Frames.{heard, answered, receive_data_lem, answer_lem}
use live_streamer.OtaServer.{
  updated_text, available_text, sig_updated, sig_available, answer_update, msg_parse, receive,
  handle_tcp_client, get_json_value_from_file,
}

-- The text that a request for an update gets.
abbrev pub reply : Text → Text → Text
reply v w = if text_eq v w then updated_text else available_text w

-- What the server reads of a request.
pub record Asks {Obj : Type 0} (j : Json Obj) (t v : Text) : Type 0 where
  pub object : Obj
  pub parsed : j.tokener_parse t ≡ some object
  pub has_action : j.get_ex object (codes "action") ≡ some (some (codes "update"))
  pub has_version : j.get_ex object (codes "version") ≡ some (some v)

module _ {Obj : Type 0} ⦃j : Json Obj⦄ where
  -- The server knows the newest version.
  pub record Offers (s : State Obj) (w : Text) : Type 0 where
    pub object : Obj
    pub has_file : s.file ≡ holds object
    pub has_version : j.get_ex object (codes "version") ≡ some (some w)

  get_version_lem :
      (s : State Obj) (w : Text)
      → Offers s w
      → get_json_value_from_file (codes "version") s ≡ (ok (some w), s)
  unfolding get_json_value_from_file get_string
  get_version_lem s w f = rw (f.has_file, f.has_version)

  module _ (s : State Obj) (size : length s.temp_buff.cells ≡ max_data_size) where
    sig_updated_lem : sig_updated s ≡ (ok tt, answered s updated_text)
    unfolding sig_updated
    sig_updated_lem = answer_lem s updated_text size

    sig_available_lem :
        (w : Text) → Offers s w → sig_available s ≡ (ok tt, answered s (available_text w))
    unfolding sig_available
    sig_available_lem w f =
        let cleared : State Obj = record s { temp_buff = memset max_data_size s.temp_buff } in
        let f' : Offers cleared w = record {
          object = f.object;
          has_file = f.has_file;
          has_version = f.has_version;
        } in
        rw (get_version_lem cleared w f') (answer_lem s (available_text w) size)

    msg_parse_lem :
        (t v w : Text) → Asks j t v → Offers s w → msg_parse t s ≡ (ok tt, answered s (reply v w))
    unfolding msg_parse answer_update
    msg_parse_lem t v w a f =
        rw
          (
            a.parsed,
            get_string_lem a.object (codes "action") (some (codes "update")) a.has_action,
            text_eq_refl (codes "update"),
            get_version_lem s w f,
            get_string_lem a.object (codes "version") (some v) a.has_version,
          )
          (elim (Bool-cases (text_eq v w)) [
            | inl e ↦ rw e (sig_updated_lem)
            | inr e ↦ rw e (sig_available_lem w f)
          ])

  -- The server after it has handled a connection.
  abbrev pub handled : State Obj → ℕ → Text → Text → State Obj
  handled s fd t r =
      let s' = answered (heard (record s { sock = some fd }) t) r in
      record s' { log = closed (some fd) ∷ s'.log }

  -- A request for an update that fits the array is answered by the version of the server, or by
  -- the message that the client is up to date, and the connection is closed.
  pub handle_tcp_client_lem :
      (s : State Obj) (fd : ℕ) (t v w : Text)
      → length s.temp_buff.cells ≡ max_data_size
      → IsCString t
      → length t < max_data_size
      → Asks j t v
      → Offers s w
      → handle_tcp_client fd (bytes (frame t)) s ≡ (ok tt, handled s fd t (reply v w))
  unfolding handle_tcp_client receive
  handle_tcp_client_lem s fd t v w size plain fits a f =
      let s1 : State Obj = heard (record s { sock = some fd }) t in
      let f1 : Offers s1 w = record {
        object = f.object;
        has_file = f.has_file;
        has_version = f.has_version;
      } in
      let size1 = length-received (frame t) s.temp_buff size (length-frame t) in
      rw (
        receive_data_lem (record s { sock = some fd }) t size plain fits,
        msg_parse_lem s1 size1 t v w a f1,
      )
