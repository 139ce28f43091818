-- ===== src/Endpoint/Frames.antt =====
-- A message from one endpoint to another: what the sender's array holds and what the receiver
-- reads.
use live_streamer.Common.{◌-◌, ℕ, List, take_all, arith, ◌<◌, ◌≡◌, ◌∷◌, length}
use live_streamer.Text.{Text, c_string, IsCString}
use live_streamer.Buffer.{max_data_size, memset}
use live_streamer.Buffer.Frames.{frame, loaded, loaded-frame}
use live_streamer.Buffer.Reading.{text-received, received}
use live_streamer.System.Round.{text-frame, take-frame}
use live_streamer.Machine.{ok, ◌>>◌}
use live_streamer.Sockets.{bytes}
use live_streamer.Endpoint.{State, sent, on_buf, print_text, server_send, receive_data}

module _ {Obj : Type 0} where
  -- The endpoint after a `recv` of a frame.
  abbrev pub heard : State Obj → Text → State Obj
  heard s t = record s { numbytes = length (frame t); temp_buff = received (frame t) s.temp_buff }

  -- The endpoint after an answer of a server.
  abbrev pub answered : State Obj → Text → State Obj
  answered s t = record s { temp_buff = loaded t s.temp_buff; log = sent s.sock (frame t) ∷ s.log }

  module _ (s : State Obj) (t : Text) (size : length s.temp_buff.cells ≡ max_data_size) where
    pub receive_data_lem :
        IsCString t
        → length t < max_data_size
        → receive_data (bytes (frame t)) s ≡ (ok t, heard s t)
    unfolding receive_data
    receive_data_lem plain fits = rw (take-frame t, text-frame t s.temp_buff size plain fits)

    pub answer_lem :
        (do on_buf (memset max_data_size); print_text t; server_send) s ≡ (ok tt, answered s t)
    unfolding print_text server_send
    answer_lem = rw (loaded-frame t s.temp_buff size)

    -- Bytes that read as a text are received as it.
    pub receive_sent :
        (bs : List ℕ)
        → length bs < max_data_size
        → c_string bs ≡ t
        → receive_data (bytes bs) s
          ≡ (ok t, record s { numbytes = length bs; temp_buff = received bs s.temp_buff })
    unfolding receive_data
    receive_sent bs short reads = rw (
      take_all (max_data_size - 1) bs (omega (arith, short)),
      text-received bs s.temp_buff size short,
      reads,
    )
