-- ===== src/TcpServer/Streamer/Greeting.antt =====
-- What the server does with a streamer: it stores each message, and asks for a live stream.
use live_streamer.Common.{ℕ, ◌<◌, ◌≡◌, refl, ◌∷◌, List, length, some, true}
use live_streamer.Text.{Text, c_string, codes}
use live_streamer.Buffer.{max_data_size}
use live_streamer.Buffer.Reading.{received}
use live_streamer.Buffer.Leftover.{printed, wire}
use live_streamer.Machine.{ok}
use live_streamer.Json.{Json, get_string_lem}
use live_streamer.Sockets.{bytes}
use live_streamer.StreamerServer.Comm.{action_text}
use live_streamer.Endpoint.{State, holds, sent, closed}
use live_streamer.Endpoint.Frames.{receive_sent}
use live_streamer.TcpServer.Streamer.{
  sig_live, send_data, receive_data, msg_parse, receive, greet, part,
}

-- What the server reads of a message.
pub record Reported {Obj : Type 0} (j : Json Obj) (t id : Text) : Type 0 where
  pub object : Obj
  pub parsed : j.tokener_parse t ≡ some object
  pub has_id : j.get_ex object (codes "streamId") ≡ some (some id)

module _ {Obj : Type 0} ⦃j : Json Obj⦄ where
  -- The server after it has received a message.
  abbrev pub stored : State Obj → List ℕ → Text → Obj → State Obj
  stored s bs id o = record s {
    file = holds o;
    numbytes = length bs;
    temp_buff = received bs s.temp_buff;
    strm_id = some id;
  }

  pub receive_lem :
      (s : State Obj) (bs : List ℕ) (t id : Text)
      → length s.temp_buff.cells ≡ max_data_size
      → length bs < max_data_size
      → c_string bs ≡ t
      → s.writable ≡ true
      → (m : Reported j t id) → receive (bytes bs) s ≡ (ok tt, stored s bs id m.object)
  unfolding receive receive_data msg_parse
  receive_lem s bs t id size short reads w m = rw (
    receive_sent s t size bs short reads,
    m.parsed,
    get_string_lem m.object (codes "streamId") (some id) m.has_id,
    w,
  )

  -- The server after SIGLive.
  abbrev pub asked : State Obj → Text → State Obj
  asked s t = record s {
    temp_buff = printed t s.temp_buff;
    log = sent s.sock (wire t s.temp_buff) ∷ s.log;
  }

  sig_live_lem :
      (s : State Obj) (id : Text)
      → s.strm_id ≡ some id
      → sig_live s ≡ (ok tt, asked s (action_text id (codes "live")))
  unfolding sig_live send_data
  sig_live_lem s id h = rw h

  pub greet_lem :
      (s : State Obj) (fd : ℕ) (bs : List ℕ) (t id : Text)
      → length s.temp_buff.cells ≡ max_data_size
      → length bs < max_data_size
      → c_string bs ≡ t
      → s.writable ≡ true
      → (m : Reported j t id)
      → greet fd (bytes bs) s ≡ (
        ok tt,
        asked (stored (record s { sock = some fd }) bs id m.object) (action_text id (codes "live")),
      )
  unfolding greet
  greet_lem s fd bs t id size short reads w m =
      rw (receive_lem (record s { sock = some fd }) bs t id size short reads w m)
        (sig_live_lem (stored (record s { sock = some fd }) bs id m.object) id refl)

  pub part_lem :
      (s : State Obj) (bs : List ℕ) (t id : Text)
      → length s.temp_buff.cells ≡ max_data_size
      → length bs < max_data_size
      → c_string bs ≡ t
      → s.writable ≡ true
      → (m : Reported j t id)
      → part (bytes bs) s
        ≡ (ok tt, record (stored s bs id m.object) { log = closed s.sock ∷ s.log })
  unfolding part
  part_lem s bs t id size short reads w m = rw (receive_lem s bs t id size short reads w m)
