-- ===== src/StreamerServer/Player/Reaches.antt =====
-- How a player's request comes to the camera: through the record of the stream.
use live_streamer.Common.{ℕ, ◌≡◌, ◌∙◌, false, Option, some}
use live_streamer.Text.{Text, codes, text_eq, text_eq_refl}
use live_streamer.Machine.{ok}
use live_streamer.Json.{Json}
use live_streamer.StreamerServer.State.{State}
use live_streamer.StreamerServer.Json.{stream_id_key, status_key, action_key}
use live_streamer.StreamerServer.Json.Effect.{current, Usable, Usable-write, current-write}
use live_streamer.StreamerServer.Comm.{msg_parse}
use live_streamer.StreamerServer.Comm.Reply.{answered, msg_parse_lem}
use live_streamer.StreamerServer.Player.{ws_service_callback, receive}
use live_streamer.StreamerServer.Player.Requests.{
  requested, files-requested, ws_service_callback_lem,
}

module _ {Obj : Type 0} ⦃j : Json Obj⦄ (s : State Obj) (lws_write : Text → Option ℕ) (wsi : ℕ)
    (request report : Text) {o r : Obj} (id action before status : Text)
    (request_parsed : j.tokener_parse request ≡ some o)
    (request_id : j.get_ex o stream_id_key ≡ some (some id))
    (request_action : j.get_ex o action_key ≡ some (some action)) (usable : Usable s.files id)
    (has_status : j.get_ex (current s.files id) status_key ≡ some (some before))
    (is_action : text_eq action (codes "status") ≡ false)
    (report_parsed : j.tokener_parse report ≡ some r)
    (report_id : j.get_ex r stream_id_key ≡ some (some id))
    (report_status : j.get_ex r status_key ≡ some (some status)) where
  abbrev asked : State Obj
  asked = requested s wsi id action before

  abbrev asked_record : Obj
  asked_record = j.add (current s.files id) action_key action

  asked-Usable : Usable asked.files id
  asked-Usable = rw (files-requested s wsi id action before is_action) (
      Usable-write s.files id asked_record usable
        (j.add-is_object (current s.files id) action_key action usable.holds_object))

  asked_action : j.get_ex (current asked.files id) action_key ≡ some (some action)
  asked_action =
      rw (files-requested s wsi id action before is_action, current-write s.files id asked_record)
        (j.get_ex-add (current s.files id) action_key action action_key usable.holds_object
          ∙ rw (text_eq_refl action_key))

  -- After a player has asked for an action, the next report of the stream's camera is answered
  -- by that action: with ACK if the reported status settles it, and else with the action itself.
  pub request_reaches_camera :
      msg_parse report (ws_service_callback lws_write (some wsi) receive (some request) s).1
      ≡ (ok tt, answered (requested s wsi id action before) id status action)
  request_reaches_camera =
      rw
        (ws_service_callback_lem s lws_write wsi request id action before request_parsed request_id
          request_action usable has_status)
        (msg_parse_lem asked report id status action report_parsed report_id report_status
          asked-Usable asked_action)
