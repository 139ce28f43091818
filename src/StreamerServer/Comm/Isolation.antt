-- ===== src/StreamerServer/Comm/Isolation.antt =====
-- What the answer to a message leaves alone, and what it writes outside of the array.
use live_streamer.Common.{◌+◌, ◌≤◌, ◌≡◌, ◌≢◌, length, some, false, Bool-cases, inl, inr, ap, ◌∙◌}
use live_streamer.Text.{Text, codes, text_eq, text_eq_ne}
use live_streamer.Buffer.{max_data_size}
use live_streamer.Buffer.Frames.{spilled-loaded}
use live_streamer.Json.{Json}
use live_streamer.StreamerServer.State.{State}
use live_streamer.StreamerServer.Json.{stream_id_key, status_key, action_key, address}
use live_streamer.StreamerServer.Json.Address.{HasNoSlash, resolved, resolved-address_injective}
use live_streamer.StreamerServer.Json.Effect.{Usable, current}
use live_streamer.StreamerServer.Comm.{action_text, msg_parse}
use live_streamer.StreamerServer.Comm.Reply.{
  answered, answered-acked, answered-told, accepts, msg_parse_lem,
}

module _ {Obj : Type 0} ⦃j : Json Obj⦄ where
  answered-elsewhere :
      (s : State Obj) (id status action q : Text)
      → text_eq (address id) q ≡ false
      → (answered s id status action).files.at q ≡ s.files.at q
  answered-elsewhere s id status action q h = elim (Bool-cases (accepts status action)) [
    | inl e ↦ rw (answered-acked s id status action e, h)
    | inr e ↦ rw (answered-told s id status action e, h)
  ]

  answered-spills :
      (s : State Obj) (id status action : Text)
      → length s.temp_buf_s.cells ≡ max_data_size
      → (answered s id status action).temp_buf_s.spilled ≡ s.temp_buf_s.spilled + 1
  answered-spills s id status action size = elim (Bool-cases (accepts status action)) [
    | inl e ↦
        rw (answered-acked s id status action e) (spilled-loaded (codes "ACK") s.temp_buf_s size)
    | inr e ↦
        rw (answered-told s id status action e)
          (spilled-loaded (action_text id action) s.temp_buf_s size)
  ]

  module _ (s : State Obj) (str : Text) {o : Obj} (id status action : Text)
      (parsed : j.tokener_parse str ≡ some o) (has_id : j.get_ex o stream_id_key ≡ some (some id))
      (has_status : j.get_ex o status_key ≡ some (some status)) (usable : Usable s.files id)
      (has_action : j.get_ex (current s.files id) action_key ≡ some (some action)) where
    -- A status message of one stream leaves the status file of every other stream as it was,
    -- by whatever path that file is read, if the names of the two have at most 51 bytes and no
    -- slash. (With a slash, "cam" and "./cam" are two streams that share one file.)
    pub msg_parse_elsewhere :
        (other : Text)
        → length id ≤ 51
        → length other ≤ 51
        → HasNoSlash id
        → HasNoSlash other
        → id ≢ other
        → (path : Text) → resolved path ≡ resolved (address other)
        → (msg_parse str s).1.files.at path ≡ s.files.at path
    msg_parse_elsewhere other h k n m ne path same =
        let apart : address id ≢ path =
          λ e. ne (resolved-address_injective id other h k n m (ap resolved e ∙ same)) in
        rw (msg_parse_lem s str id status action parsed has_id has_status usable has_action)
          (answered-elsewhere s id status action path (text_eq_ne (address id) path apart))

    -- Each answer to a status message writes one byte outside of `tempBufS`.
    pub msg_parse_spills :
        length s.temp_buf_s.cells ≡ max_data_size
        → (msg_parse str s).1.temp_buf_s.spilled ≡ s.temp_buf_s.spilled + 1
    msg_parse_spills size =
        rw (msg_parse_lem s str id status action parsed has_id has_status usable has_action)
          (answered-spills s id status action size)
