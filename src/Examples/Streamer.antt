-- ===== src/Examples/Streamer.antt =====
-- The properties of the server at concrete inputs.
use live_streamer.Common.{
  ◌+◌, ◌-◌, ◌≡◌, ◌≢◌, refl, length, length-replicate, false, none, some, [], ◌∷◌, arith,
}
use live_streamer.Text.{codes, text_eq, Text}
use live_streamer.Buffer.{max_data_size}
use live_streamer.Machine.{ok, fault}
use live_streamer.Sockets.{bytes}
use live_streamer.StreamerServer.Json.{address, action_key, status_key, set_json_value}
use live_streamer.StreamerServer.Json.Effect.{Usable, current, set_json_value_lem}
use live_streamer.StreamerServer.Json.Address.{HasNoSlash, resolved, resolved-address_ne}
use live_streamer.StreamerServer.Comm.{receive}
use live_streamer.StreamerServer.Comm.Errors.{receive_closed}
use live_streamer.StreamerServer.Player
use live_streamer.StreamerServer.Player.{ws_service_callback, status_text}
use live_streamer.StreamerServer.Player.Requests.{status_reply_spills}
use live_streamer.StreamerServer.Trigger.{Entry, switch_off_all}
use live_streamer.StreamerServer.Trigger.Reset.{Swept, AllRewritable, switch_off_all_lem}
use live_streamer.Files.{write}
use live_streamer.Examples.PlainJson.{Members, lookup, parse, plain_json}
use live_streamer.Examples.States.{cam, cam_record, server}

cam-Usable : Usable server.files cam
cam-Usable = record { can_write = refl; holds_object = refl }

cam_holds : (k : Text) → lookup (current server.files cam) k ≡ lookup cam_record k
unfolding current address codes text_eq
cam_holds k = refl

cam_action : lookup (current server.files cam) action_key ≡ some (some (codes "live"))
unfolding current address codes text_eq lookup
cam_action = refl

cam_status : lookup (current server.files cam) status_key ≡ some (some (codes "off"))
unfolding current address codes text_eq lookup
cam_status = refl

receive_closed_example : (receive (bytes []) server).0 ≡ fault
receive_closed_example = receive_closed server (length-replicate max_data_size 0)

set_json_value_lem_example :
    set_json_value action_key (some (codes "off")) (some cam) server.files ≡ (
      ok tt,
      write server.files
          (address cam)
          (plain_json.add (current server.files cam) action_key (codes "off")),
    )
set_json_value_lem_example = set_json_value_lem server.files cam action_key (codes "off") cam-Usable

missing_member : lookup (current server.files cam) (codes "addr") ≡ none
unfolding current address codes text_eq lookup
missing_member = refl

cam-HasNoSlash : HasNoSlash cam
unfolding codes
cam-HasNoSlash = (refl, (refl, (refl, tt)))

hall-HasNoSlash : HasNoSlash (codes "hall")
unfolding codes
hall-HasNoSlash = (refl, (refl, (refl, (refl, tt))))

cam_not_hall : cam ≢ codes "hall"
unfolding codes
cam_not_hall e = cc

resolved-address_ne_example : resolved (address cam) ≢ resolved (address (codes "hall"))
unfolding codes
resolved-address_ne_example =
    resolved-address_ne cam (codes "hall") (omega arith) (omega arith) cam-HasNoSlash
      hall-HasNoSlash cam_not_hall

abbrev request : Text
request = codes "{\"streamId\":\"cam\",\"action\":\"status\"}"

request_parsed :
    parse request ≡ some ((codes "streamId", cam) ∷ (codes "action", codes "status") ∷ [])
unfolding parse codes
request_parsed = refl

abbrev request_members : Members
request_members = (codes "streamId", cam) ∷ (codes "action", codes "status") ∷ []

request_id : lookup request_members (codes "streamId") ≡ some (some cam)
unfolding lookup codes text_eq
request_id = refl

request_action : lookup request_members (codes "action") ≡ some (some (codes "status"))
unfolding lookup codes text_eq
request_action = refl

status_reply_spills_example :
    (ws_service_callback
      (λ t. some 0)
      (some 9)
      Player.receive
      (some request)
      server).1.temp_buf_p.spilled
    ≡ 0 + (length cam + length (codes "off") + 28 - max_data_size)
unfolding text_eq codes
status_reply_spills_example =
    status_reply_spills server (λ t. some 0) 9 request cam (codes "status") (codes "off")
      request_parsed request_id request_action cam-Usable cam_status
      (length-replicate max_data_size 0) refl

abbrev listing : Entry
listing = record { d_name = codes "cam.json"; is_dir = false }

listing_rewritable : AllRewritable server.files (listing ∷ [])
unfolding address codes text_eq
listing_rewritable =
    (λ h. record { object = cam_record; holds = refl; is_object = refl; can_write = refl }, tt)

switch_off_all_lem_example :
    let (r, f') = switch_off_all (listing ∷ []) server.files in
    (r ≡ ok tt) × Swept server.files f' (listing ∷ [])
switch_off_all_lem_example = switch_off_all_lem server.files (listing ∷ []) listing_rewritable
