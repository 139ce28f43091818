-- ===== src/StreamerServer/Comm/Errors.antt =====
-- Messages without a status, and a connection that the peer has closed.
use live_streamer.Common.{ℕ, ◌≡◌, refl, [], ◌-◌, Option, none, some, ⊤, arith, take-nil, length}
use live_streamer.Text.{Text, c_string}
use live_streamer.Buffer.{max_data_size}
use live_streamer.Buffer.Frames.{max_data_size_lem}
use live_streamer.Buffer.Reading.{text-received}
use live_streamer.Machine.{Outcome, ok, fault, exited, waiting, ◌>>◌, M}
use live_streamer.Json.{Json, get_string}
use live_streamer.Files.{Files}
use live_streamer.StreamerServer.State.{State, on_files}
use live_streamer.Sockets.{bytes}
use live_streamer.StreamerServer.Json.{
  stream_id_key, status_key, new_json_file, json_from_file, set_json_value,
}
use live_streamer.StreamerServer.Comm.{msg_parse, receive, set_strm_id}

-- It returns or it dies of a NULL pointer.
Ends : {A : Type 0} → Outcome A → Type 0
Ends (ok a) = ⊤
Ends fault = ⊤
Ends (exited n) = ⊥
Ends waiting = ⊥

module _ {Obj : Type 0} ⦃j : Json Obj⦄ where
  json_from_file-Ends : (f : Files Obj) (file : Option Text) → Ends (json_from_file file f).0
  unfolding json_from_file new_json_file Ends
  json_from_file-Ends f file = ground arith

  set_json_value_null :
      (f : Files Obj) (k : Text) (file : Option Text) → (set_json_value k none file f).0 ≡ fault
  unfolding set_json_value Ends
  set_json_value_null f k file = ground (arith, json_from_file-Ends f file)

  set_json_value-Ends :
      (f : Files Obj) (k : Text) (v file : Option Text) → Ends (set_json_value k v file f).0
  unfolding set_json_value Ends
  set_json_value-Ends f k v file = ground (arith, json_from_file-Ends f file)

  -- The second call faults, if the first one has returned.
  status_null :
      (s : State Obj) (id : Option Text) (k : M (State Obj) ⊤)
      → ((on_files (set_json_value stream_id_key id id)
            >> (on_files (set_json_value status_key none id) >> k))
          s).0
        ≡ fault
  unfolding Ends
  status_null s id k = ground (
    arith,
    set_json_value-Ends s.files stream_id_key id id,
    set_json_value_null (set_json_value stream_id_key id id s.files).1 status_key id,
  )

  -- A message without a status ends the process, whatever the state.
  pub msg_parse_no_status :
      (s : State Obj) (str : Text)
      → get_string (j.tokener_parse str) status_key ≡ none
      → (msg_parse str s).0 ≡ fault
  unfolding msg_parse set_strm_id
  msg_parse_no_status s str h = go (get_string (j.tokener_parse str) stream_id_key) refl
    where
      go :
          (o : Option Text)
          → get_string (j.tokener_parse str) stream_id_key ≡ o
          → (msg_parse str s).0 ≡ fault
      go none e = rw (e, h) (status_null s s.strm_id _)
      go (some id) e = rw (e, h) (status_null (record s { strm_id = some id }) (some id) _)

  -- So does a connection that the peer has closed: `recv` gives no bytes, and the empty text has
  -- no status.
  pub receive_closed :
      (s : State Obj) → length s.temp_buf_s.cells ≡ max_data_size → (receive (bytes []) s).0 ≡ fault
  unfolding receive c_string get_string
  receive_closed s size =
      rw
        (
          take-nil ℕ (max_data_size - 1),
          text-received [] s.temp_buf_s size (omega (arith, max_data_size_lem)),
        )
        (msg_parse_no_status _ [] (rw j.tokener_parse-nil))
