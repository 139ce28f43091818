-- ===== src/Examples/Sharing.antt =====
-- The properties of what the threads of the server share, at concrete inputs.
use live_streamer.Common.{
  ◌+◌, ◌≡◌, ◌≢◌, refl, true, false, some, none, [], if◌then◌else◌, ◌∷◌, length-replicate, arith,
}
use live_streamer.Text.{Text, codes, text_eq}
use live_streamer.Buffer.{max_data_size}
use live_streamer.Machine.{exited, waiting}
use live_streamer.Sockets.{bytes}
use live_streamer.StreamerServer.Json.Address.{HasNoSlash, resolved}
use live_streamer.StreamerServer.Json.{address, action_key}
use live_streamer.StreamerServer.Json.Effect.{Usable, current}
use live_streamer.StreamerServer.Comm.{msg_parse, receive}
use live_streamer.StreamerServer.Comm.Directed.{Directed, receive-Directed}
use live_streamer.StreamerServer.Comm.Isolation.{msg_parse_elsewhere, msg_parse_spills}
use live_streamer.StreamerServer.Threads.{Sends, start, hear, entered, answers_newest}
use live_streamer.StreamerServer.Trigger.{Entry, Main, sigalrm, sigint, main}
use live_streamer.StreamerServer.Trigger.Reset.{Swept, AllRewritable}
use live_streamer.StreamerServer.Trigger.Loop.{until_error, has_sigint, main_stalls}
use live_streamer.StreamerClient.Comm.{status_text}
use live_streamer.Examples.PlainJson.{Members, lookup, plain_json, plain_json-ReadsMessages}
use live_streamer.Examples.States.{cam, cam_record, server}

abbrev report : Text
report = status_text cam (codes "ready")

receive-Directed_example : Directed server (receive (bytes report) server).1
receive-Directed_example = receive-Directed (bytes report) server

answers_newest_example :
    Sends 6 server.log (receive (bytes report) (entered 6 (entered 5 server))).1.log
answers_newest_example =
    answers_newest 5 6 server (receive (bytes report) (entered 6 (entered 5 server))).1
      (hear (bytes report) (start (entered 6 (entered 5 server))))

cam-Usable : Usable server.files cam
cam-Usable = record { can_write = refl; holds_object = refl }

cam_action : lookup (current server.files cam) action_key ≡ some (some (codes "live"))
unfolding current address codes text_eq lookup
cam_action = refl

cam_apart : cam ≢ codes "hall"
unfolding codes
cam_apart e = cc

-- Another path to the same file.
abbrev hall_path : Text
hall_path = codes "./status//hall.json"

cam-HasNoSlash : HasNoSlash cam
unfolding codes
cam-HasNoSlash = (refl, (refl, (refl, tt)))

hall-HasNoSlash : HasNoSlash (codes "hall")
unfolding codes
hall-HasNoSlash = (refl, (refl, (refl, (refl, tt))))

msg_parse_elsewhere_example :
    (msg_parse report server).1.files.at hall_path ≡ server.files.at hall_path
unfolding codes resolved address text_eq
msg_parse_elsewhere_example =
    let r = plain_json-ReadsMessages.reads_status cam (codes "ready") (omega arith) (omega arith) in
    msg_parse_elsewhere server report cam (codes "ready") (codes "live") r.parsed r.has_id
      r.has_value cam-Usable cam_action (codes "hall") (omega arith) (omega arith) cam-HasNoSlash
      hall-HasNoSlash cam_apart hall_path refl

msg_parse_spills_example : (msg_parse report server).1.temp_buf_s.spilled ≡ 0 + 1
unfolding codes
msg_parse_spills_example =
    let r = plain_json-ReadsMessages.reads_status cam (codes "ready") (omega arith) (omega arith) in
    msg_parse_spills server report cam (codes "ready") (codes "live") r.parsed r.has_id r.has_value
      cam-Usable cam_action (length-replicate max_data_size 0)

abbrev main_globals : Main Members
main_globals = record {
  files = server.files;
  trig = false;
  flag = true;
  destroy_flag = false;
  thread_strm = false;
  thread_plyr = false;
  alarm_set = false;
}

abbrev listing : Entry
listing = record { d_name = codes "cam.json"; is_dir = false }

listing_rewritable : AllRewritable server.files (listing ∷ [])
unfolding address codes text_eq
listing_rewritable =
    (λ h. record { object = cam_record; holds = refl; is_object = refl; can_write = refl }, tt)

main_stalls_example :
    let (r, m') =
      main
        (some (listing ∷ []))
        true
        true
        (until_error 2 (listing ∷ []) (sigalrm none ∷ sigint ∷ []))
        main_globals in
    (r ≡ (if has_sigint (sigalrm none ∷ sigint ∷ []) then exited 137 else waiting))
    × (m'.trig ≡ true)
    × Swept server.files m'.files (listing ∷ [])
main_stalls_example =
    main_stalls 2 main_globals (listing ∷ []) true (sigalrm none ∷ sigint ∷ []) refl
      listing_rewritable
