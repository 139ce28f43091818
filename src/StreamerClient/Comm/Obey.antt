-- ===== src/StreamerClient/Comm/Obey.antt =====
-- How the camera follows the actions that it is told.
use live_streamer.Common.{
  ℕ, suc, Bool, ◌==◌, ◌≡◌, ◌≢◌, refl, true, false, some, if◌then◌else◌, arith, Bool-cases, inl, inr,
}
use live_streamer.Text.{Text, codes, text_eq, text_eq_refl}
use live_streamer.Machine.{M, pure, ok, ◌>>=◌, ◌>>◌}
use live_streamer.Json.{Json, get_string, get_string_lem}
use live_streamer.StreamerClient.State.{State, Streaming, properties_file}
use live_streamer.StreamerClient.Comm.{
  go_live, go_local, go_off, start_from_ready, stop_all, obey, msg_parse,
}

-- The actions that the camera knows.
pub data Action : Type 0 where
  live local off : Action

abbrev pub word : Action → Text
word live = codes "live"
word local = codes "local"
word off = codes "off"

-- The status in which an action leaves the camera.
abbrev pub target : Action → Text
target live = codes "live"
target local = codes "local"
target off = codes "ready"

module _ {Obj P : Type 0} where
  -- The camera that has followed an action: only its status and its pipeline have changed.
  abbrev pub followed : State Obj P → Action → P → State Obj P
  followed s a p = record s { status = target a; pipeline = p }

pub off_not_ready : text_eq (codes "off") (codes "ready") ≡ false
unfolding codes text_eq
off_not_ready = refl

pub local_not_live : text_eq (codes "local") (codes "live") ≡ false
unfolding codes text_eq
local_not_live = refl

pub off_not_live : text_eq (codes "off") (codes "live") ≡ false
unfolding codes text_eq
off_not_live = refl

pub off_not_local : text_eq (codes "off") (codes "local") ≡ false
unfolding codes text_eq
off_not_local = refl

-- The statuses that the camera can report: `off` once it was interrupted, and else the others.
pub data Status : Type 0 where
  ready live local off : Status

abbrev pub status_word : Status → Text
status_word Status.ready = codes "ready"
status_word Status.live = codes "live"
status_word Status.local = codes "local"
status_word Status.off = codes "off"

module _ {P : Type 0} ⦃g : Streaming P⦄ where
  -- The calls that an action makes on the pipeline, and whether it lets the camera take the status:
  -- `setAll` gave 0, or `stopStreaming` gave 1.
  unfoldable pub calls : Status → Action → M P Bool
  calls Status.ready Action.live = do
    built ← g.set_all
    if built then (do g.init_live; g.start_streaming; pure true) else pure false
  calls Status.ready Action.local = do
    built ← g.set_all
    if built then (do g.start_streaming; pure true) else pure false
  calls Status.live Action.local = do g.stop_live; pure true
  calls Status.local Action.live = do g.start_live; pure true
  calls _ Action.off = do r ← g.stop_streaming; pure (r == 1)
  calls _ _ = pure true

  -- The calls of an action return, and succeed.
  abbrev pub Works : Status → Action → P → Type 0
  Works st a p = (calls st a p).0 ≡ ok true

ready_not_local : text_eq (codes "ready") (codes "local") ≡ false
unfolding codes text_eq
ready_not_local = refl

ready_not_live : text_eq (codes "ready") (codes "live") ≡ false
unfolding codes text_eq
ready_not_live = refl

pub live_not_local : text_eq (codes "live") (codes "local") ≡ false
unfolding codes text_eq
live_not_local = refl

pub live_not_ready : text_eq (codes "live") (codes "ready") ≡ false
unfolding codes text_eq
live_not_ready = refl

pub local_not_ready : text_eq (codes "local") (codes "ready") ≡ false
unfolding codes text_eq
local_not_ready = refl

module _ {Obj P : Type 0} ⦃g : Streaming P⦄ where
  -- If the calls that an action makes on the pipeline return and succeed, the camera does just
  -- these, and has the status of the action afterwards; nothing else of it changes. "off" stops the
  -- streams in every status. For the other two, a camera that has the status already makes no call,
  -- one that is ready builds its pipeline first, between "live" and "local" only the live part
  -- changes, and one that has reported "off" makes none.
  pub obey-calls :
      (s : State Obj P) (tries : ℕ) (st : Status) (a : Action)
      → s.status ≡ status_word st
      → Works st a s.pipeline
      → obey (suc tries) (word a) s ≡ (ok tt, followed s a (calls st a s.pipeline).1)
  unfolding obey go_live go_local go_off start_from_ready stop_all calls
  obey-calls s tries Status.ready Action.live e w =
      ground (arith, w, text_eq_refl (codes "live"), ready_not_local, text_eq_refl (codes "ready"))
  obey-calls s tries Status.ready Action.local e w = ground (
    arith,
    w,
    local_not_live,
    text_eq_refl (codes "local"),
    ready_not_live,
    text_eq_refl (codes "ready"),
  )
  obey-calls s tries Status.ready Action.off e w =
      ground (arith, w, off_not_live, off_not_local, text_eq_refl (codes "off"))
  obey-calls s tries Status.live Action.live e w =
      ground (arith, text_eq_refl (codes "live"), live_not_local, live_not_ready)
  obey-calls s tries Status.live Action.local e w =
      ground (arith, local_not_live, text_eq_refl (codes "local"), text_eq_refl (codes "live"))
  obey-calls s tries Status.live Action.off e w =
      ground (arith, w, off_not_live, off_not_local, text_eq_refl (codes "off"))
  obey-calls s tries Status.local Action.live e w =
      ground (arith, text_eq_refl (codes "live"), text_eq_refl (codes "local"))
  obey-calls s tries Status.local Action.local e w =
      ground (arith, local_not_live, text_eq_refl (codes "local"), local_not_ready)
  obey-calls s tries Status.local Action.off e w =
      ground (arith, w, off_not_live, off_not_local, text_eq_refl (codes "off"))
  obey-calls s tries Status.off Action.live e w =
      ground (arith, text_eq_refl (codes "live"), off_not_local, off_not_ready)
  obey-calls s tries Status.off Action.local e w =
      ground (arith, local_not_live, text_eq_refl (codes "local"), off_not_live, off_not_ready)
  obey-calls s tries Status.off Action.off e w =
      ground (arith, w, off_not_live, off_not_local, text_eq_refl (codes "off"))

  -- A ready camera whose pipeline cannot be built stays ready, and does not stream.
  pub obey_build_fails :
      (s : State Obj P) (tries : ℕ) (a : Action)
      → s.status ≡ codes "ready"
      → (g.set_all s.pipeline).0 ≡ ok false
      → a ≢ Action.off
      → obey tries (word a) s ≡ (ok tt, record s { pipeline = (g.set_all s.pipeline).1 })
  unfolding obey go_live go_local
  obey_build_fails s tries live e fails n =
      ground (arith, text_eq_refl (codes "live"), ready_not_local, text_eq_refl (codes "ready"))
  obey_build_fails s tries local e fails n = ground (
    arith,
    local_not_live,
    text_eq_refl (codes "local"),
    ready_not_live,
    text_eq_refl (codes "ready"),
  )
  obey_build_fails s tries off e fails n = absurd (n refl)

  -- A camera that has reported "off" on SIGINT and is told "live" takes that status without a
  -- single call on the pipeline.
  pub obey-live_after_off :
      (s : State Obj P) (tries : ℕ)
      → s.status ≡ codes "off"
      → obey tries (word Action.live) s ≡ (ok tt, record s { status = codes "live" })
  unfolding obey go_live
  obey-live_after_off s tries e =
      ground (arith, text_eq_refl (codes "live"), off_not_local, off_not_ready)

module _ {Obj P : Type 0} ⦃j : Json Obj⦄ where
  -- The name of the stream that the properties file gives.
  abbrev pub Named : State Obj P → Text → Type 0
  Named s id = get_string (s.files.at properties_file) (codes "streamId") ≡ some id

module _ {Obj P : Type 0} ⦃j : Json Obj⦄ ⦃g : Streaming P⦄ where
  -- A message for this stream is obeyed, and one for another stream changes nothing.
  pub msg_parse_obeys :
      (s : State Obj P) (tries : ℕ) (str : Text) {o : Obj} (own id action : Text)
      → Named s own
      → j.tokener_parse str ≡ some o
      → j.get_ex o (codes "streamId") ≡ some (some id)
      → j.get_ex o (codes "action") ≡ some (some action)
      → msg_parse tries str s ≡ (if text_eq own id then obey tries action s else (ok tt, s))
  unfolding msg_parse
  msg_parse_obeys s tries str {o} own id action named parsed has_id has_action =
      rw
        (
          named,
          parsed,
          get_string_lem o (codes "streamId") (some id) has_id,
          get_string_lem o (codes "action") (some action) has_action,
        )
        (elim (Bool-cases (text_eq own id)) [ inl e ↦ rw e | inr e ↦ rw e ])
