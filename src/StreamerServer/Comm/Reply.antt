-- ===== src/StreamerServer/Comm/Reply.antt =====
-- The answer of the streamer server to a status message.
use live_streamer.Common.{
  ◌-◌, ◌≡◌, ◌∷◌, take, Bool, true, false, ◌&&◌, ◌||◌, some, if◌then◌else◌, ◌∙◌, arith, Bool-cases,
  inl, inr,
}
use live_streamer.Text.{Text, codes, text_eq, text_eq_refl}
use live_streamer.Buffer.{max_data_size}
use live_streamer.Buffer.Frames.{loaded}
use live_streamer.Machine.{ok}
use live_streamer.Json.{Json, get_string_lem}
use live_streamer.Files.{Files, write}
use live_streamer.StreamerServer.State.{State, sent}
use live_streamer.StreamerServer.Json.{stream_id_key, status_key, action_key, off, address}
use live_streamer.StreamerServer.Json.Effect.{
  current, Usable, set_json_value_lem, get_json_value_written, set_json_value_written,
}
use live_streamer.StreamerServer.Comm.{
  done, ready, action_text, action_in_file, sig_act, sig_ack, compare_status, reply_to_status,
  msg_parse, set_strm_id, same,
}

-- Whether a status settles the action: it was done already, the camera is ready and shall be
-- off, or the status is the action.
unfoldable pub accepts : Text → Text → Bool
accepts status action =
    text_eq action done || (text_eq status ready && text_eq action off) || text_eq status action

module _ {Obj : Type 0} where
  -- The state once a text was put into the array and sent.
  abbrev pub say : Text → State Obj → State Obj
  say t s =
      let buf = loaded t s.temp_buf_s in
      record s {
        temp_buf_s = buf;
        log = sent s.clnt_sock (take (max_data_size - 1) buf.cells) ∷ s.log;
      }

module _ {Obj : Type 0} ⦃j : Json Obj⦄ where
  -- After an ACK: the action in the record is "done", and the loop ends.
  abbrev pub acked : State Obj → Text → Files Obj → Obj → State Obj
  acked s id f o = record (say (codes "ACK") s) {
    strm_id = some id;
    ack = true;
    files = write f (address id) (j.add o action_key done);
  }

  -- After the action was sent to the streamer.
  abbrev pub told : State Obj → Text → Files Obj → Text → Obj → State Obj
  told s id f action o = record (say (action_text id action) s) {
    strm_id = some id;
    files = write f (address id) o;
  }

-- In a dialogue with a stream, whose file holds a record.
module _ {Obj : Type 0} ⦃j : Json Obj⦄ (s : State Obj) (id : Text) (f : Files Obj)
    (can_write : f.writable (address id) ≡ true) where
  abbrev in_dialogue : Obj → State Obj
  in_dialogue o = record s { strm_id = some id; files = write f (address id) o }

  sig_ack_lem : (o : Obj) → j.is_object o ≡ true → sig_ack (in_dialogue o) ≡ (ok tt, acked s id f o)
  unfolding sig_ack
  sig_ack_lem o h = rw (set_json_value_written f id action_key o can_write done h)

  module _ (o : Obj) (action : Text) (holds : j.is_object o ≡ true)
      (has : j.get_ex o action_key ≡ some (some action)) where
    action_in_file_lem : action_in_file (in_dialogue o) ≡ (ok (some action), in_dialogue o)
    unfolding action_in_file
    action_in_file_lem = rw (get_json_value_written f id action_key o can_write has)

    sig_act_lem : sig_act (in_dialogue o) ≡ (ok tt, told s id f action o)
    unfolding sig_act action_in_file
    sig_act_lem = rw (get_json_value_written f id action_key o can_write has)

    compare_status_lem :
        (status : Text)
        → compare_status (some status) (in_dialogue o)
          ≡ (ok tt, if text_eq status action then acked s id f o else told s id f action o)
    unfolding compare_status
    compare_status_lem status =
        rw action_in_file_lem (ground (arith, sig_ack_lem o holds, sig_act_lem))

    reply_to_status_lem :
        (status : Text)
        → reply_to_status (some status) (in_dialogue o) ≡ (
          ok tt,
          if (text_eq status ready && text_eq action off) || text_eq status action
              then acked s id f o
              else told s id f action o,
        )
    unfolding reply_to_status
    reply_to_status_lem status =
        ground (arith, action_in_file_lem, compare_status_lem status, sig_ack_lem o holds)

-- The record once a status message was taken into it.
pub updated : {Obj : Type 0} ⦃j : Json Obj⦄ → Files Obj → Text → Text → Obj
updated ⦃j⦄ f id status = j.add (j.add (current f id) stream_id_key id) status_key status

module _ {Obj : Type 0} ⦃j : Json Obj⦄ (f : Files Obj) (id status : Text) (u : Usable f id) where
  pub updated-is_object : j.is_object (updated f id status) ≡ true
  unfolding updated
  updated-is_object = grind (arith, j.add-is_object, u.holds_object)

  pub get_ex-updated :
      (k : Text)
      → j.get_ex (updated f id status) k ≡ (
          if text_eq status_key k
          then some (some status)
          else if text_eq stream_id_key k
          then some (some id)
          else j.get_ex (current f id) k)
  unfolding updated
  get_ex-updated k = rw (
    j.get_ex-add (j.add (current f id) stream_id_key id) status_key status k
        (j.add-is_object (current f id) stream_id_key id u.holds_object),
    j.get_ex-add (current f id) stream_id_key id k u.holds_object,
  )

  pub status-updated : j.get_ex (updated f id status) status_key ≡ some (some status)
  status-updated = rw (get_ex-updated status_key, text_eq_refl status_key)

  pub action-updated :
      j.get_ex (updated f id status) action_key ≡ j.get_ex (current f id) action_key
  unfolding codes text_eq
  action-updated = get_ex-updated action_key

module _ {Obj : Type 0} ⦃j : Json Obj⦄ where
  -- The state after the answer to a status message.
  pub answered : State Obj → Text → Text → Text → State Obj
  answered s id status action =
      let o = updated s.files id status in
      if accepts status action then acked s id s.files o else told s id s.files action o

  -- A message with a stream and a status gets one answer: ACK if the status settles the action
  -- that the record holds, and else that action. The record takes the message in, and after an
  -- ACK its action is "done".
  pub msg_parse_lem :
      (s : State Obj) (str : Text) {o : Obj} (id status action : Text)
      → j.tokener_parse str ≡ some o
      → j.get_ex o stream_id_key ≡ some (some id)
      → j.get_ex o status_key ≡ some (some status)
      → Usable s.files id
      → j.get_ex (current s.files id) action_key ≡ some (some action)
      → msg_parse str s ≡ (ok tt, answered s id status action)
  unfolding msg_parse set_strm_id same answered accepts updated
  msg_parse_lem s str {o} id status action parsed has_id has_status u has_action =
      let f = s.files in
      let r1 = j.add (current f id) stream_id_key id in
      let holds1 = j.add-is_object (current f id) stream_id_key id u.holds_object in
      let r = updated f id status in
      let holds = updated-is_object f id status u in
      rw
        (
          parsed,
          get_string_lem o stream_id_key (some id) has_id,
          get_string_lem o status_key (some status) has_status,
          set_json_value_lem f id stream_id_key id u,
          set_json_value_written f id status_key r1 u.can_write status holds1,
          get_json_value_written f id status_key (j.add r1 status_key status) u.can_write
              {v = some status} (status-updated f id status u),
          action_in_file_lem s id f u.can_write r action holds
              (action-updated f id status u ∙ has_action),
        )
        (elim (Bool-cases (text_eq action done)) [
          | inl c ↦ rw c (sig_ack_lem s id f u.can_write r holds)
          | inr c ↦ rw c (
              reply_to_status_lem s id f u.can_write r action holds
                (action-updated f id status u ∙ has_action) status)
        ])

module _ {Obj : Type 0} ⦃j : Json Obj⦄ (s : State Obj) (id status action : Text) where
  pub answered-acked :
      accepts status action ≡ true
      → answered s id status action ≡ acked s id s.files (updated s.files id status)
  unfolding answered
  answered-acked h = rw h

  pub answered-told :
      accepts status action ≡ false
      → answered s id status action ≡ told s id s.files action (updated s.files id status)
  unfolding answered
  answered-told h = rw h
