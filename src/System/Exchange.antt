-- ===== src/System/Exchange.antt =====
-- What one round comes to.
use live_streamer.Common.{ℕ, ◌≤◌, ◌<◌, ◌≡◌, refl, ◌∙◌, length, true, false, some, arith}
use live_streamer.Text.{Text, IsCString, codes, text_eq, text_eq_refl}
use live_streamer.Buffer.{max_data_size}
use live_streamer.Buffer.Frames.{max_data_size_lem, frame, loaded-frame, length-loaded}
use live_streamer.Buffer.Reading.{length-received}
use live_streamer.Machine.{ok}
use live_streamer.Json.{Json}
use live_streamer.Sockets.{bytes}
use live_streamer.StreamerServer.State.{State as Server}
use live_streamer.StreamerServer.Json.{action_key}
use live_streamer.StreamerServer.Json.Effect.{current, Usable, Usable-write, current-write}
use live_streamer.StreamerServer.Comm.{action_text, receive as server_receive}
use live_streamer.StreamerServer.Comm.Reply.{
  accepts, acked, told, updated, answered, answered-acked, answered-told, msg_parse_lem,
  updated-is_object, action-updated,
}
use live_streamer.StreamerClient.State.{State as Camera, Streaming}
use live_streamer.StreamerClient.Comm.{status_text, obey}
use live_streamer.StreamerClient.Comm.Obey.{
  Action, word, Status, status_word, Named, msg_parse_obeys,
}
use live_streamer.System.{System, round, sent_by_server, sent_by_camera}
use live_streamer.System.Messages.{
  IsPlain, IsPlain-IsCString, ReadsMessages, length-status_text, length-action_text,
  status_text-IsCString, action_text-IsCString,
}
use live_streamer.System.Round.{
  server_heard, server_receive_lem, camera_heard, camera_receive_lem, reported, length-reported,
  sig_status_lem, length-frame,
}

module _ {Obj P : Type 0} ⦃j : Json Obj⦄ ⦃g : Streaming P⦄ where
  -- A camera and the server that speak of one stream: the arrays have their size, the connection
  -- works, the server can keep the stream's record, and its record holds an action.
  pub record InTouch (sys : System Obj P) (id : Text) (status : Status) (action : Text)
      : Type 0 where
    pub server_size : length sys.server.temp_buf_s.cells ≡ max_data_size
    pub camera_size : length sys.camera.temp_buff.cells ≡ max_data_size
    pub send_works : sys.camera.send_works ≡ true
    pub named : Named sys.camera id
    pub plain_id : IsPlain id
    pub short_id : length id ≤ 200
    pub usable : Usable sys.server.files id
    pub has_status : sys.camera.status ≡ status_word status
    pub has_action : j.get_ex (current sys.server.files id) action_key ≡ some (some action)

pub ack_plain : IsCString (codes "ACK")
unfolding codes
ack_plain = omega arith

pub action_text_not_ack : (id action : Text) → text_eq (action_text id action) (codes "ACK") ≡ false
unfolding action_text codes text_eq
action_text_not_ack id action = refl

pub ack_fits : length (codes "ACK") < max_data_size
unfolding codes
ack_fits = omega (arith, max_data_size_lem)

IsPlain-status : (st : Status) → IsPlain (status_word st) × (length (status_word st) ≤ 5)
unfolding codes
IsPlain-status Status.ready = omega arith
IsPlain-status Status.live = omega arith
IsPlain-status Status.local = omega arith
IsPlain-status Status.off = omega arith

pub IsPlain-word : (a : Action) → IsPlain (word a) × (length (word a) ≤ 5)
unfolding codes
IsPlain-word Action.live = omega arith
IsPlain-word Action.local = omega arith
IsPlain-word Action.off = omega arith

module _ {Obj P : Type 0} ⦃j : Json Obj⦄ ⦃g : Streaming P⦄ (reads : ReadsMessages j)
    (sys : System Obj P) (id : Text) (st : Status) (action : Text)
    (t : InTouch sys id st action) where
  abbrev pub report : Text
  report = status_text id sys.camera.status

  -- The server once it has the report in its array.
  abbrev pub informed : Server Obj
  informed = server_heard sys.server report

  status_IsPlain : IsPlain sys.camera.status
  status_IsPlain = rw t.has_status (IsPlain-status st).0

  short_status : length sys.camera.status ≤ 5
  short_status = rw t.has_status (IsPlain-status st).1

  report-IsCString : IsCString report
  report-IsCString =
      status_text-IsCString id sys.camera.status (IsPlain-IsCString id t.plain_id)
        (IsPlain-IsCString sys.camera.status status_IsPlain)

  report_fits : length report < max_data_size
  report_fits =
      omega (
        arith,
        max_data_size_lem,
        length-status_text id sys.camera.status,
        t.short_id,
        short_status,
      )

  -- The report arrives and is answered.
  answer_lem :
      server_receive (bytes (frame report)) sys.server
      ≡ (ok tt, answered informed id sys.camera.status action)
  answer_lem =
      let r = reads.reads_status id sys.camera.status t.plain_id status_IsPlain in
      server_receive_lem sys.server report t.server_size report-IsCString report_fits
      ∙ msg_parse_lem informed report id sys.camera.status action r.parsed r.has_id r.has_value
          t.usable t.has_action

  abbrev pub record_after : Obj
  record_after = updated sys.server.files id sys.camera.status

  pub heard_size : length informed.temp_buf_s.cells ≡ max_data_size
  heard_size =
      length-received (frame report) sys.server.temp_buf_s t.server_size (length-frame report)

  pub reported_size : length (reported sys.camera id).temp_buff.cells ≡ max_data_size
  reported_size = length-reported sys.camera id t.camera_size

  -- A settled status: the round ends in ACK.
  pub round-acked :
      (tries : ℕ)
      → accepts sys.camera.status action ≡ true
      → round tries sys ≡ (
        ok true,
        record {
          server = acked informed id sys.server.files record_after;
          camera = camera_heard (reported sys.camera id) (codes "ACK");
        },
      )
  unfolding round sent_by_server sent_by_camera
  round-acked tries settled = rw (
    sig_status_lem sys.camera id t.camera_size t.send_works t.named,
    answer_lem,
    answered-acked informed id sys.camera.status action settled,
    loaded-frame (codes "ACK") informed.temp_buf_s heard_size,
    camera_receive_lem (reported sys.camera id) tries (codes "ACK") reported_size ack_plain
        ack_fits,
    text_eq_refl (codes "ACK"),
  )

  -- The camera that has the server's action in its array.
  abbrev pub instructed : Camera Obj P
  instructed = camera_heard (reported sys.camera id) (action_text id action)

  -- The server that has answered with the action and the camera are in touch as before.
  pub told-InTouch :
      (camera : Camera Obj P) (after : Status)
      → length camera.temp_buff.cells ≡ max_data_size
      → camera.send_works ≡ true
      → Named camera id
      → camera.status ≡ status_word after
      → InTouch
          (record {
            server = told informed id sys.server.files action record_after;
            camera = camera;
          })
          id
          after
          action
  told-InTouch camera after size works named is =
      let f = sys.server.files in
      let holds = updated-is_object f id sys.camera.status t.usable in
      record {
        server_size = length-loaded (action_text id action) informed.temp_buf_s heard_size;
        camera_size = size;
        send_works = works;
        named = named;
        plain_id = t.plain_id;
        short_id = t.short_id;
        usable = Usable-write f id record_after t.usable holds;
        has_status = is;
        has_action =
            rw (current-write f id record_after)
              (action-updated f id sys.camera.status t.usable ∙ t.has_action);
      }

  pub instructed_size : length instructed.temp_buff.cells ≡ max_data_size
  instructed_size =
      length-received (frame (action_text id action)) (reported sys.camera id).temp_buff
        reported_size (length-frame (action_text id action))

  -- Another status: the round ends in what the camera makes of the action.
  pub round-told :
      (tries : ℕ)
      → IsPlain action
      → length action ≤ 15
      → accepts sys.camera.status action ≡ false
      → let (r, camera) = obey tries action instructed in
        r ≡ ok tt
        → round tries sys ≡ (
          ok false,
          record {
            server = told informed id sys.server.files action record_after;
            camera = camera;
          },
        )
  unfolding round sent_by_server sent_by_camera
  round-told tries plain short open_question obeyed =
      let r = reads.reads_action id action t.plain_id plain in
      rw (
        sig_status_lem sys.camera id t.camera_size t.send_works t.named,
        answer_lem,
        answered-told informed id sys.camera.status action open_question,
        loaded-frame (action_text id action) informed.temp_buf_s heard_size,
        camera_receive_lem (reported sys.camera id) tries (action_text id action) reported_size
            (action_text-IsCString id action (IsPlain-IsCString id t.plain_id)
              (IsPlain-IsCString action plain))
            (omega (arith, max_data_size_lem, length-action_text id action, t.short_id, short)),
        action_text_not_ack id action,
        msg_parse_obeys instructed tries (action_text id action) id id action t.named r.parsed
            r.has_id r.has_value,
        text_eq_refl id,
        obeyed,
      )
