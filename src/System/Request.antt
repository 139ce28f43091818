-- ===== src/System/Request.antt =====
-- A player's request, from the websocket to the camera's pipeline and back into the record.
use live_streamer.Common.{ℕ, suc, ◌≡◌, refl, ◌∙◌, false, Option, some, if◌then◌else◌}
use live_streamer.Text.{Text, codes, text_eq, text_eq_refl}
use live_streamer.Machine.{ok, ◌>>◌}
use live_streamer.Json.{Json}
use live_streamer.StreamerServer.Json.{stream_id_key, status_key, action_key}
use live_streamer.StreamerServer.Json.Effect.{current, Usable-write, current-write}
use live_streamer.StreamerServer.Comm.Reply.{accepts}
use live_streamer.StreamerServer.Player
use live_streamer.StreamerServer.Player.{ws_service_callback}
use live_streamer.StreamerServer.Player.Requests.{
  requested, files-requested, ws_service_callback_lem,
}
use live_streamer.StreamerClient.State.{Streaming}
use live_streamer.StreamerClient.Comm.Obey.{Action, word, target, Status, Works}
use live_streamer.System.{System, on_server, session}
use live_streamer.System.Messages.{ReadsMessages}
use live_streamer.System.Exchange.{InTouch}
use live_streamer.System.Session.{Settled, session_ends}

not_a_question : (a : Action) → text_eq (word a) (codes "status") ≡ false
unfolding codes text_eq
not_a_question Action.live = refl
not_a_question Action.local = refl
not_a_question Action.off = refl

module _ {Obj P : Type 0} ⦃j : Json Obj⦄ ⦃g : Streaming P⦄ (reads : ReadsMessages j)
    (sys : System Obj P) (lws_write : Text → Option ℕ) (wsi : ℕ) (request : Text) {o : Obj}
    (id before old : Text) (st : Status) (a : Action) (parsed : j.tokener_parse request ≡ some o)
    (has_id : j.get_ex o stream_id_key ≡ some (some id))
    (has_action : j.get_ex o action_key ≡ some (some (word a))) (touch : InTouch sys id st old)
    (has_status : j.get_ex (current sys.server.files id) status_key ≡ some (some before)) where
  abbrev asked : System Obj P
  asked = record sys { server = requested sys.server wsi id (word a) before }

  asked-InTouch : InTouch asked id st (word a)
  unfolding requested
  asked-InTouch =
      let f = sys.server.files in
      let r = j.add (current f id) action_key (word a) in
      let other = not_a_question a in
      let holds = j.add-is_object (current f id) action_key (word a) touch.usable.holds_object in
      record {
        server_size = rw other touch.server_size;
        camera_size = touch.camera_size;
        send_works = touch.send_works;
        named = touch.named;
        plain_id = touch.plain_id;
        short_id = touch.short_id;
        usable =
            rw (files-requested sys.server wsi id (word a) before other)
              (Usable-write f id r touch.usable holds);
        has_status = touch.has_status;
        has_action =
            rw (files-requested sys.server wsi id (word a) before other, current-write f id r)
              (j.get_ex-add (current f id) action_key (word a) action_key touch.usable.holds_object
                ∙ rw (text_eq_refl action_key));
      }

  -- A camera and a server speak of one stream, with a JSON library that reads their messages and
  -- calls on the pipeline that return and succeed. A player's request asks that stream for one of
  -- the actions live, local and off, and the camera then reports. Whatever action the record held
  -- before, the camera comes to follow the one that was asked for: after at most two rounds the
  -- session ends, the camera has the status of the action (or keeps the one it had, if that
  -- settled it), and the record has that status and no action left.
  pub request_obeyed :
      (tries : ℕ)
      → Works st a sys.camera.pipeline
      → let (r, sys') =
          (on_server (ws_service_callback lws_write (some wsi) Player.receive (some request))
              >> session 2 (suc tries))
            sys in
        (r ≡ ok tt)
        × (sys'.camera.status
            ≡ (if accepts sys.camera.status (word a) then sys.camera.status else target a))
        × Settled sys' id
  request_obeyed tries w =
      rw
        (ws_service_callback_lem sys.server lws_write wsi request id (word a) before parsed has_id
          has_action touch.usable has_status)
        (session_ends reads asked id st a tries asked-InTouch w)
