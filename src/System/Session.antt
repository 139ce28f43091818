-- ===== src/System/Session.antt =====
-- How a session of reports and answers ends.
use live_streamer.Common.{
  ℕ, suc, ◌≡◌, refl, ap, true, false, some, if◌then◌else◌, Bool-cases, inl, inr, arith,
}
use live_streamer.Text.{Text, codes, text_eq, text_eq_refl}
use live_streamer.Machine.{ok}
use live_streamer.Json.{Json}
use live_streamer.StreamerServer.Json.{action_key, status_key}
use live_streamer.StreamerServer.Json.Effect.{current, current-write}
use live_streamer.StreamerServer.Comm.{done}
use live_streamer.StreamerServer.Comm.Reply.{
  accepts, acked, told, updated-is_object, status-updated,
}
use live_streamer.StreamerClient.State.{Streaming}
use live_streamer.StreamerClient.Comm.Obey.{
  Action, word, target, Status, status_word, Works, followed, calls, obey-calls,
}
use live_streamer.System.{System, round, session}
use live_streamer.System.Messages.{ReadsMessages}
use live_streamer.System.Round.{camera_heard, reported}
use live_streamer.System.Exchange.{
  InTouch, IsPlain-word, informed, instructed, record_after, round-acked, round-told, told-InTouch,
  instructed_size,
}

module _ {Obj P : Type 0} ⦃j : Json Obj⦄ where
  -- The server has acknowledged, its record has no action left, and has the camera's status.
  pub record Settled (sys : System Obj P) (id : Text) : Type 0 where
    pub acknowledged : sys.server.ack ≡ true
    pub action_done : j.get_ex (current sys.server.files id) action_key ≡ some (some (codes "done"))
    pub status_known :
        j.get_ex (current sys.server.files id) status_key ≡ some (some sys.camera.status)

target_status : Action → Status
target_status Action.live = Status.live
target_status Action.local = Status.local
target_status Action.off = Status.ready

target_word : (a : Action) → target a ≡ status_word (target_status a)
unfolding target_status
target_word Action.live = refl
target_word Action.local = refl
target_word Action.off = refl

-- The server is content with the status that an action leads to.
accepts-target : (a : Action) → accepts (target a) (word a) ≡ true
unfolding accepts codes text_eq
accepts-target Action.live = refl
accepts-target Action.local = refl
accepts-target Action.off = refl

action_not_status : text_eq action_key status_key ≡ false
unfolding codes text_eq
action_not_status = refl

module _ {Obj P : Type 0} ⦃j : Json Obj⦄ ⦃g : Streaming P⦄ (reads : ReadsMessages j)
    (sys : System Obj P) (id : Text) (st : Status) (a : Action)
    (t : InTouch sys id st (word a)) where
  -- The system after a round that ended in ACK.
  abbrev settled : System Obj P
  settled = record {
    server =
        acked (informed reads sys id st (word a) t) id sys.server.files
          (record_after reads sys id st (word a) t);
    camera = camera_heard (reported sys.camera id) (codes "ACK");
  }

  settled-Settled : Settled settled id
  settled-Settled =
      let f = sys.server.files in
      let r = record_after reads sys id st (word a) t in
      let holds = updated-is_object f id sys.camera.status t.usable in
      record {
        acknowledged = refl;
        action_done = rw (
          current-write f id (j.add r action_key done),
          j.get_ex-add r action_key done action_key holds,
          text_eq_refl action_key,
        );
        status_known =
            rw
              (
                current-write f id (j.add r action_key done),
                j.get_ex-add r action_key done status_key holds,
                action_not_status,
              )
              (status-updated f id sys.camera.status t.usable);
      }

  -- The system after a round that ended in the action.
  abbrev moved : P → System Obj P
  moved p = record {
    server =
        told (informed reads sys id st (word a) t) id sys.server.files (word a)
          (record_after reads sys id st (word a) t);
    camera = followed (instructed reads sys id st (word a) t) a p;
  }

  moved-InTouch : (p : P) → InTouch (moved p) id (target_status a) (word a)
  moved-InTouch p =
      told-InTouch reads sys id st (word a) t (followed (instructed reads sys id st (word a) t) a p)
        (target_status a) (instructed_size reads sys id st (word a) t) t.send_works t.named
        (target_word a)

  -- A round with an open action leaves the camera in the status of the action.
  round_moves :
      (tries : ℕ)
      → Works st a sys.camera.pipeline
      → accepts sys.camera.status (word a) ≡ false
      → round (suc tries) sys ≡ (ok false, moved (calls st a sys.camera.pipeline).1)
  round_moves tries w c =
      let obeys = obey-calls (instructed reads sys id st (word a) t) tries st a t.has_status w in
      rw
        (
          round-told reads sys id st (word a) t (suc tries) (IsPlain-word a).0
              (omega (arith, (IsPlain-word a).1)) c (ap (λ r. r.0) obeys),
          obeys,
        )
        refl

-- A camera and a server that speak of one stream, with a JSON library that reads their messages,
-- calls on the pipeline that return and succeed, and one of the actions live, local and off in the stream's record (the
-- record can hold other texts, which the camera ignores): a report of a status that the action does not settle makes the camera
-- follow the action, and its next report is acknowledged; one that settles it is acknowledged at
-- once. So from any status, that of an interrupted camera included, a session ends after at most
-- two rounds: the camera has the status of the action (or the one that it had, if that settled
-- it), and the server's record has that status and no action left.
pub session_ends :
    {Obj P : Type 0} ⦃j : Json Obj⦄ ⦃g : Streaming P⦄ (reads : ReadsMessages j) (sys : System Obj P)
    (id : Text) (st : Status) (a : Action) (tries : ℕ)
    → InTouch sys id st (word a)
    → Works st a sys.camera.pipeline
    → let (r, sys') = session 2 (suc tries) sys in
      (r ≡ ok tt)
      × (sys'.camera.status
          ≡ (if accepts sys.camera.status (word a) then sys.camera.status else target a))
      × Settled sys' id
unfolding session
session_ends reads sys id st a tries t w = elim (Bool-cases (accepts sys.camera.status (word a))) [
  | inl c ↦
      rw (round-acked reads sys id st (word a) t (suc tries) c, c)
        (refl, refl, settled-Settled reads sys id st a t)
  | inr c ↦
      let p = (calls st a sys.camera.pipeline).1 in
      let t' = moved-InTouch reads sys id st a t p in
      rw
        (
          round_moves reads sys id st a t tries w c,
          round-acked reads (moved reads sys id st a t p) id (target_status a) (word a) t'
              (suc tries) (accepts-target a),
          c,
        )
        (refl, refl, settled-Settled reads (moved reads sys id st a t p) id (target_status a) a t')
]
