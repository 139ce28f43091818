-- ===== src/StreamerServer/Player/Requests.antt =====
-- The answer to a player's request.
use live_streamer.Common.{
  ℕ, ◌+◌, ◌-◌, ◌<◌, ◌≡◌, ◌∙◌, ◌∷◌, ◌++◌, true, false, Option, some, length, length-append, ap,
  if◌then◌else◌, arith, Bool-cases, inl, inr,
}
use live_streamer.Text.{Text, IsCString, codes, text_eq}
use live_streamer.Buffer.{max_data_size, memset, sprintf, text}
use live_streamer.Buffer.Reading.{text-sprintf, spilled-sprintf}
use live_streamer.Machine.{ok}
use live_streamer.Json.{Json, get_string_lem}
use live_streamer.Files.{Files, write}
use live_streamer.StreamerServer.State.{State, ws_sent}
use live_streamer.StreamerServer.Json.{stream_id_key, status_key, action_key, address}
use live_streamer.StreamerServer.Json.Effect.{
  current, Usable, opened, set_json_value_lem, get_json_value_from_file_lem,
}
use live_streamer.StreamerServer.Player.{status_text, ws_service_callback, receive}

pub length-status_text :
    (id status : Text) → length (status_text id status) ≡ length id + length status + 27
unfolding status_text codes
length-status_text id status = omega (
  arith,
  length-append id (codes "\",\"status\":\"" ++ (status ++ codes "\"}")),
  length-append status (codes "\"}"),
)

module _ {Obj : Type 0} ⦃j : Json Obj⦄ where
  -- The state once a text was formatted and written to the player.
  abbrev write_out : State Obj → ℕ → Text → Files Obj → State Obj
  write_out s wsi t f =
      let buf = sprintf t (memset max_data_size s.temp_buf_p) in
      record s { files = f; temp_buf_p = buf; log = ws_sent wsi (text buf) ∷ s.log }

  -- The state after a player's request for an action: "status" asks for the status of the
  -- stream and leaves its record alone; any other action is written to the record.
  unfoldable pub requested : State Obj → ℕ → Text → Text → Text → State Obj
  requested s wsi id action status =
      if text_eq action (codes "status")
      then write_out s wsi (status_text id status) (opened s.files id)
      else write_out s wsi (codes "ACK")
          (write s.files (address id) (j.add (current s.files id) action_key action))

  pub files-requested :
      (s : State Obj) (wsi : ℕ) (id action status : Text)
      → text_eq action (codes "status") ≡ false
      → (requested s wsi id action status).files
        ≡ write s.files (address id) (j.add (current s.files id) action_key action)
  unfolding requested
  files-requested s wsi id action status h = rw h

  module _ (s : State Obj) (lws_write : Text → Option ℕ) (wsi : ℕ) (str : Text) {o : Obj}
      (id action status : Text) (parsed : j.tokener_parse str ≡ some o)
      (has_id : j.get_ex o stream_id_key ≡ some (some id))
      (has_action : j.get_ex o action_key ≡ some (some action)) (usable : Usable s.files id)
      (has_status : j.get_ex (current s.files id) status_key ≡ some (some status)) where
    -- A request with a stream and an action gets its answer: the status in the stream's record,
    -- or ACK once the action stands in the record. The callback returns 0.
    pub ws_service_callback_lem :
        ws_service_callback lws_write (some wsi) receive (some str) s
        ≡ (ok 0, requested s wsi id action status)
    unfolding ws_service_callback requested
    ws_service_callback_lem =
        rw
          (
            parsed,
            get_string_lem o stream_id_key (some id) has_id,
            get_string_lem o action_key (some action) has_action,
          )
          (elim (Bool-cases (text_eq action (codes "status"))) [
            | inl c ↦ rw (
              c,
              get_json_value_from_file_lem s.files id status_key {v = some status} usable.can_write
                  has_status,
            )
            | inr c ↦ rw (c, set_json_value_lem s.files id action_key action usable)
          ])

    -- The bytes that the reply to a status request writes outside of the array: what is left of
    -- the text and its NUL behind the first 255 bytes. The text has 27 bytes besides its values.
    pub status_reply_spills :
        length s.temp_buf_p.cells ≡ max_data_size
        → text_eq action (codes "status") ≡ true
        → (ws_service_callback lws_write (some wsi) receive (some str) s).1.temp_buf_p.spilled
          ≡ s.temp_buf_p.spilled + (length id + length status + 28 - max_data_size)
    unfolding requested
    status_reply_spills size c =
        rw (ws_service_callback_lem, c)
          (spilled-sprintf (status_text id status) s.temp_buf_p size
            ∙ ap (λ (n : ℕ). s.temp_buf_p.spilled + (n + 1 - max_data_size))
                (length-status_text id status)
            ∙ omega arith)

    -- A status reply that fits is the text with the stream and its status.
    pub status_reply_text :
        length s.temp_buf_p.cells ≡ max_data_size
        → text_eq action (codes "status") ≡ true
        → IsCString (status_text id status)
        → length (status_text id status) < max_data_size
        → (ws_service_callback lws_write (some wsi) receive (some str) s).1.log
          ≡ ws_sent wsi (status_text id status) ∷ s.log
    unfolding requested
    status_reply_text size c plain fits = rw (
      ws_service_callback_lem,
      c,
      text-sprintf (status_text id status) s.temp_buf_p size plain fits,
    )
