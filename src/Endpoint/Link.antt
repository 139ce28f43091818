-- ===== src/Endpoint/Link.antt =====
-- A client and a server over a connection that loses nothing, where one `recv` gives what one
-- `send` was handed.
use live_streamer.Common.{ℕ, List, [], ◌∷◌, some, replicate}
use live_streamer.Buffer.{max_data_size}
use live_streamer.Machine.{M}
use live_streamer.Endpoint.{State, Event, sent, closed, ran}

pub record Link (Obj : Type 0) : Type 0 where
  pub server : State Obj
  pub client : State Obj

-- The bytes of the newest `send`.
unfoldable pub newest_sent : List Event → List ℕ
newest_sent [] = []
newest_sent (sent sock bs ∷ log) = bs
newest_sent (closed sock ∷ log) = newest_sent log
newest_sent (ran t ∷ log) = newest_sent log

module _ {Obj : Type 0} where
  abbrev pub on_server : {A : Type 0} → M (State Obj) A → M (Link Obj) A
  on_server m o = let (r, s) = m o.server in (r, record o { server = s })

  abbrev pub on_client : {A : Type 0} → M (State Obj) A → M (Link Obj) A
  on_client m o = let (r, s) = m o.client in (r, record o { client = s })

  -- A new process of the client, once it has connected: its globals are zero.
  abbrev pub started : ℕ → State Obj → State Obj
  started fd s = record s {
    sock = some fd;
    numbytes = 0;
    temp_buff = record { cells = replicate max_data_size 0; spilled = 0 };
  }
