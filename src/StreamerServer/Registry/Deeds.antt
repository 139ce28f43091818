-- ===== src/StreamerServer/Registry/Deeds.antt =====
-- What cameras and players send to StreamerServer, by what it means, and what the server does.
use live_streamer.Common.{ℕ, ◌<◌, ◌≡◌, List, [], ◌∷◌, length, true, Option, some, ⊤}
use live_streamer.Text.{Text, c_string}
use live_streamer.Buffer.{max_data_size}
use live_streamer.Machine.{M, ok, pure, ◌>>◌}
use live_streamer.Json.{Json}
use live_streamer.Sockets.{bytes}
use live_streamer.StreamerServer.State.{State, Event, sent, ws_sent, closed, on_files}
use live_streamer.StreamerServer.Json.{stream_id_key, status_key, action_key}
use live_streamer.StreamerServer.Comm.{receive}
use live_streamer.StreamerServer.Player
use live_streamer.StreamerServer.Player.{ws_service_callback, status_text}
use live_streamer.StreamerServer.Trigger.{Entry, switch_off_all}
use live_streamer.StreamerServer.Trigger.Reset.{covers, AllRewritable}
use live_streamer.StreamerServer.Threads.{entered}
use live_streamer.StreamerServer.Registry.Board.{Input, arrival, report, ask, reset, IsName, IsWord}

-- The texts that were sent, as their receivers read them.
unfoldable pub said : List Event → List Text
said [] = []
said (sent sock bs ∷ l) = c_string bs ∷ said l
said (ws_sent wsi t ∷ l) = t ∷ said l
said (closed sock ∷ l) = said l

-- What happens to the server, and what it does about it.
pub data Deed : Type 0 where
  connection : ℕ → Deed
  message : List ℕ → Deed
  request : ℕ → Text → Deed
  sweep : List Entry → Deed

-- The text holds an object with a stream and one more member.
pub record Says {Obj : Type 0} (j : Json Obj) (text k id v : Text) : Type 0 where
  pub object : Obj
  pub parsed : j.tokener_parse text ≡ some object
  pub has_id : j.get_ex object stream_id_key ≡ some (some id)
  pub has_value : j.get_ex object k ≡ some (some v)
  pub id-IsName : IsName id
  pub value-IsWord : IsWord v

module _ {Obj : Type 0} ⦃j : Json Obj⦄ where
  unfoldable pub carry_out : (Text → Option ℕ) → Deed → M (State Obj) ⊤
  carry_out lws_write (connection sock) = λ s. (ok tt, entered sock s)
  carry_out lws_write (message bs) = receive (bytes bs)
  carry_out lws_write (request wsi str) =
      ws_service_callback lws_write (some wsi) Player.receive (some str) >> pure tt
  carry_out lws_write (sweep entries) = on_files (switch_off_all entries)

  -- What a deed means as an input of the board. A sweep is a reset if the directory lists every
  -- status file, and nothing else.
  pub data Means (s : State Obj) : Deed → Input → Type 0 where
    arrives : (sock : ℕ) → Means s (connection sock) arrival
    reports :
        (bs : List ℕ) (id status : Text)
        → length bs < max_data_size
        → Says j (c_string bs) status_key id status
        → Means s (message bs) (report id status)
    asks :
        (wsi : ℕ) (str id action : Text)
        → Says j str action_key id action
        → Means s (request wsi str) (ask id action)
    resets :
        (entries : List Entry)
        → AllRewritable s.files entries
        → ((p : Text) (o : Obj) → s.files.at p ≡ some o → covers entries p ≡ true)
        → Means s (sweep entries) reset

  -- The runs of the server, each with its inputs.
  pub data Serves (lws_write : Text → Option ℕ) (s : State Obj)
      : List Input → State Obj → Type 0 where
    idle : Serves lws_write s [] s
    serves :
        {is : List Input} {s' : State Obj} {d : Deed} {i : Input}
        → Serves lws_write s is s'
        → Means s' d i
        → Serves lws_write s (i ∷ is) (carry_out lws_write d s').1
