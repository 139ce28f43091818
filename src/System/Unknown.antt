-- ===== src/System/Unknown.antt =====
-- What becomes of an action that the camera does not know.
use live_streamer.Common.{ℕ, zero, suc, ◌+◌, ◌≡◌, ◌≤◌, refl, ap, ◌∙◌, false, length, arith}
use live_streamer.Text.{Text, codes, text_eq}
use live_streamer.Machine.{ok, waiting}
use live_streamer.Json.{Json}
use live_streamer.StreamerServer.Comm.Reply.{accepts, told}
use live_streamer.StreamerClient.State.{Streaming}
use live_streamer.StreamerClient.Comm.{obey}
use live_streamer.StreamerClient.Comm.Obey.{Status, status_word}
use live_streamer.System.{System, round, session}
use live_streamer.System.Messages.{IsPlain, ReadsMessages}
use live_streamer.System.Exchange.{
  InTouch, informed, instructed, instructed_size, record_after, round-told, told-InTouch,
}

-- No action of the camera's.
pub record IsUnknown (action : Text) : Type 0 where
  pub no_live : text_eq action (codes "live") ≡ false
  pub no_local : text_eq action (codes "local") ≡ false
  pub no_off : text_eq action (codes "off") ≡ false

module _ {Obj P : Type 0} ⦃j : Json Obj⦄ ⦃g : Streaming P⦄ (reads : ReadsMessages j) (id : Text)
    (st : Status) (action : Text) (plain : IsPlain action) (short : length action ≤ 15)
    (unknown : IsUnknown action) (open_question : accepts (status_word st) action ≡ false)
    (tries : ℕ) where
  -- The system after a round that ended in the action.
  abbrev ignored : (sys : System Obj P) → InTouch sys id st action → System Obj P
  ignored sys t = record {
    server =
        told (informed reads sys id st action t) id sys.server.files action
          (record_after reads sys id st action t);
    camera = instructed reads sys id st action t;
  }

  ignored-InTouch :
      (sys : System Obj P) (t : InTouch sys id st action) → InTouch (ignored sys t) id st action
  ignored-InTouch sys t =
      told-InTouch reads sys id st action t (instructed reads sys id st action t) st
        (instructed_size reads sys id st action t) t.send_works t.named t.has_status

  round-ignored :
      (sys : System Obj P) (t : InTouch sys id st action)
      → round tries sys ≡ (ok false, ignored sys t)
  unfolding obey
  round-ignored sys t =
      let camera = instructed reads sys id st action t in
      let idle : obey tries action camera ≡ (ok tt, camera) =
        rw (unknown.no_live, unknown.no_local, unknown.no_off) refl in
      rw
        (
          round-told reads sys id st action t tries plain short
              (ap (λ s. accepts s action) t.has_status ∙ open_question) (ap (λ r. r.0) idle),
          idle,
        )
        refl

  -- A camera and a server speak of one stream, with a JSON library that reads their messages, and
  -- the record holds an action of at most 15 printable characters that is none of live, local and
  -- off, and that the camera's status does not settle. However many rounds of reports and answers
  -- there are, none ends in ACK: the server sends one message in each, the camera keeps its
  -- status and makes no call on its pipeline, and the two stay in touch with the same action.
  pub session_goes_on :
      (rounds : ℕ) (sys : System Obj P)
      → InTouch sys id st action
      → let (r, sys') = session rounds tries sys in
        (r ≡ waiting)
        × (sys'.camera.pipeline ≡ sys.camera.pipeline)
        × (length sys'.server.log ≡ length sys.server.log + rounds)
        × InTouch sys' id st action
  unfolding session
  session_goes_on zero sys t = (refl, refl, omega arith, t)
  session_goes_on (suc rounds) sys t =
      let rest = session_goes_on rounds (ignored sys t) (ignored-InTouch sys t) in
      rw (round-ignored sys t) (rest.0, rest.1, omega (arith, rest.2), rest.3)
