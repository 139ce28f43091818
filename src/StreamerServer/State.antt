-- ===== src/StreamerServer/State.antt =====
-- The globals of StreamerServer/src that its threads share, and what the outside world sees.
use live_streamer.Common.{ℕ, List, ◌∷◌, Bool, Option, ⊤}
use live_streamer.Text.{Text}
use live_streamer.Buffer.{Buffer}
use live_streamer.Machine.{M, ok}
use live_streamer.Files.{Files}

pub data Event : Type 0 where
  -- `send` on a socket with the bytes handed over, `lws_write`, `close`.
  sent : ℕ → List ℕ → Event
  ws_sent : ℕ → Text → Event
  closed : ℕ → Event

pub record State (Obj : Type 0) : Type 0 where
  pub files : Files Obj
  pub strm_id : Option Text
  pub clnt_sock : ℕ
  pub numbytes : ℕ
  pub ack : Bool
  pub temp_buf_s : Buffer
  pub temp_buf_p : Buffer
  -- Newest first.
  pub log : List Event

module _ {Obj : Type 0} where
  -- A function on the files, run on the state.
  abbrev pub on_files : {A : Type 0} → M (Files Obj) A → M (State Obj) A
  on_files m s = let (r, f) = m s.files in (r, record s { files = f })

  abbrev pub emit : Event → M (State Obj) ⊤
  emit e s = (ok tt, record s { log = e ∷ s.log })
