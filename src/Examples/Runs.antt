-- ===== src/Examples/Runs.antt =====
-- A run of the server on one status file: a camera reports, a player asks for a local stream, the
-- alarm resets the file, and the process is started again.
use live_streamer.Common.{List, ◌≡◌, refl, [], ◌∷◌, true, false, none, some, arith}
use live_streamer.Text.{Text, codes, text_eq, c_string}
use live_streamer.Buffer.{max_data_size}
use live_streamer.Machine.{ok}
use live_streamer.Files.{Files, write}
use live_streamer.Sockets.{bytes}
use live_streamer.StreamerServer.State.{State, on_files}
use live_streamer.StreamerServer.Json.{address, status_key, action_key}
use live_streamer.StreamerServer.Json.Effect.{current}
use live_streamer.StreamerServer.Comm.{receive, msg_parse}
use live_streamer.StreamerServer.Comm.Reply.{answered}
use live_streamer.StreamerServer.Player
use live_streamer.StreamerServer.Player.{ws_service_callback}
use live_streamer.StreamerServer.Player.Requests.{requested}
use live_streamer.StreamerServer.Trigger.{switch_off_all}
use live_streamer.StreamerServer.Threads.{entered}
use live_streamer.StreamerServer.Registry.{IsRecord, IsRegistry, write-IsRegistry}
use live_streamer.StreamerServer.Registry.Handlers.{IsSound}
use live_streamer.StreamerServer.Registry.Runs
use live_streamer.StreamerServer.Registry.Runs.{
  booted, Reaches, here, next, connects, hears, resets, Reaches-IsSound, msg_parse_answers,
  ws_service_callback_answers,
}
use live_streamer.StreamerServer.Comm.{action_text}
use live_streamer.StreamerServer.Comm.Reply.{accepts}
use live_streamer.StreamerServer.Registry.Board.{
  Input, arrival, report, ask, pin, next_board, with_answer, board_after, answers_to, IsName,
  ShowsBoard,
}
use live_streamer.StreamerServer.Registry.Deeds.{
  Deed, connection, message, said, carry_out, Means, arrives, reports, asks, idle, serves,
}
use live_streamer.StreamerServer.Registry.Refines.{carry_out-ShowsBoard}
use live_streamer.StreamerClient.Comm.{status_text}
use live_streamer.Examples.PlainJson.{Members, lookup, parse, plain_json, plain_json-ReadsMessages}
use live_streamer.Examples.States.{cam, cam_record}

abbrev no_files : Files Members
no_files = record { at = λ q. none; writable = λ q. true }

abbrev files : Files Members
files = write no_files (address cam) cam_record

cam_record-IsRecord : IsRecord (address cam) cam_record
unfolding codes text_eq lookup
cam_record-IsRecord = record {
  is_object = refl;
  stream = cam;
  names_stream = refl;
  at_address = refl;
  has_status = (codes "off", refl);
  has_action = (codes "live", refl);
}

files-IsRegistry : IsRegistry files.writable files
files-IsRegistry =
    write-IsRegistry (λ q. true) no_files (address cam) cam_record cam_record-IsRecord
      (record { all_records = λ p o e. absurd cc; same_rights = refl })

abbrev request : Text
request = codes "{\"streamId\":\"cam\",\"action\":\"local\"}"

abbrev connected : State Members
connected = entered 5 (booted files)

abbrev asked : State Members
asked = (ws_service_callback (λ t. some 0) (some 9) Player.receive (some request) connected).1

abbrev reset : State Members
reset =
    (on_files (switch_off_all (record { d_name = codes "cam.json"; is_dir = false } ∷ [])) asked).1

abbrev reported : State Members
reported = (receive (bytes (status_text cam (codes "ready"))) reset).1

run : Reaches (booted files) reported
run =
    next
      (next
        (next (next here (connects 5))
          (Runs.asks (λ t. some 0) (some 9) Player.receive (some request)))
        (resets (record { d_name = codes "cam.json"; is_dir = false } ∷ [])))
      (hears (bytes (status_text cam (codes "ready"))))

Reaches-IsSound_example : IsSound files.writable reported
Reaches-IsSound_example = Reaches-IsSound files reported files-IsRegistry run

msg_parse_answers_example :
    (action : Text) × (plain_json.get_ex (current reported.files cam) action_key
      ≡ some (some action))
    × (msg_parse (status_text cam (codes "live")) reported
        ≡ (ok tt, answered reported cam (codes "live") action))
unfolding codes
msg_parse_answers_example =
    let r = plain_json-ReadsMessages.reads_status cam (codes "live") (omega arith) (omega arith) in
    msg_parse_answers files reported (λ p. refl) files-IsRegistry run
      (status_text cam (codes "live")) r.object cam r.parsed r.has_id (codes "live") r.has_value

ws_service_callback_answers_example :
    (status : Text) × (plain_json.get_ex (current reported.files cam) status_key
      ≡ some (some status))
    × (ws_service_callback (λ t. some 0) (some 9) Player.receive (some request) reported
        ≡ (ok 0, requested reported 9 cam (codes "local") status))
unfolding parse codes text_eq lookup
ws_service_callback_answers_example =
    ws_service_callback_answers files reported (λ p. refl) files-IsRegistry run request
      ((codes "streamId", cam) ∷ (codes "action", codes "local") ∷ []) cam refl refl (λ t. some 0) 9
      (codes "local") refl

cam-IsName : IsName cam
unfolding codes
cam-IsName = record { is_c_string = omega arith; is_short = omega arith }

-- A board kept from an empty directory on: the camera connects, and a player asks for "local".
abbrev met : State Members
met = (carry_out (λ t. some 0) (connection 5) (booted no_files)).1

abbrev told : State Members
told = (carry_out (λ t. some 0) (Deed.request 9 request) met).1

asks_local : Means met (Deed.request 9 request) (ask cam (codes "local"))
unfolding parse codes text_eq lookup
asks_local = asks 9 request cam (codes "local") (record {
  object = (codes "streamId", cam) ∷ (codes "action", codes "local") ∷ [];
  parsed = refl;
  has_id = refl;
  has_value = refl;
  id-IsName = cam-IsName;
  value-IsWord = record { is_c_string = omega arith; is_short = omega arith };
})

reports_ready : Means told (message (status_text cam (codes "ready"))) (report cam (codes "ready"))
unfolding parse codes text_eq lookup status_text c_string max_data_size
reports_ready =
    reports (status_text cam (codes "ready")) cam (codes "ready") (omega arith) (record {
      object = (codes "streamId", cam) ∷ (codes "status", codes "ready") ∷ [];
      parsed = refl;
      has_id = refl;
      has_value = refl;
      id-IsName = cam-IsName;
      value-IsWord = record { is_c_string = omega arith; is_short = omega arith };
    })

abbrev inputs : List Input
inputs = report cam (codes "ready") ∷ ask cam (codes "local") ∷ arrival ∷ []

carry_out-ShowsBoard_example :
    let (o, s') = carry_out (λ t. some 0) (message (status_text cam (codes "ready"))) told in
    (o ≡ ok tt)
    × ShowsBoard s'.files (board_after inputs)
    × (said s'.log ≡ action_text cam (codes "local") ∷ codes "ACK" ∷ [])
unfolding answers_to with_answer board_after next_board pin accepts codes text_eq
carry_out-ShowsBoard_example =
    carry_out-ShowsBoard no_files (λ p. refl) (λ p. refl) (λ t. some 0)
      (message (status_text cam (codes "ready"))) (report cam (codes "ready"))
      (serves (serves idle (arrives 5)) asks_local) reports_ready
