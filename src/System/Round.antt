-- ===== src/System/Round.antt =====
-- One round of a report and its answer.
use live_streamer.Common.{
  ℕ, ◌-◌, ◌<◌, ◌≡◌, ◌∙◌, ◌∷◌, ◌++◌, take, length, true, false, if◌then◌else◌, arith, Bool-cases,
  inl, inr, ap, length-replicate, replicate, take-take, take_all, length-take,
}
use live_streamer.Text.{Text, IsCString, codes, text_eq}
use live_streamer.Buffer.{Buffer, max_data_size, memset, text}
use live_streamer.Buffer.Frames.{
  max_data_size_lem, frame, loaded, loaded-frame, length-loaded, memset_lem,
}
use live_streamer.Buffer.Reading.{received, text-received, c_string-frame}
use live_streamer.Machine.{ok, pure, ◌>>◌}
use live_streamer.Sockets.{bytes}
use live_streamer.Json.{Json}
use live_streamer.StreamerServer.State.{State as Server}
use live_streamer.StreamerServer.Comm.{receive as server_receive, msg_parse as server_parse}
use live_streamer.StreamerClient.State.{State as Camera, sent, Streaming}
use live_streamer.StreamerClient.Comm.{
  status_text, sig_status, receive as camera_receive, msg_parse as camera_parse,
}
use live_streamer.StreamerClient.Comm.Obey.{Named}

-- A frame arrives whole.
pub take-frame : (t : Text) → take (max_data_size - 1) (frame t) ≡ frame t
unfolding frame
take-frame t =
    take-take (max_data_size - 1) (max_data_size - 1) (t ++ replicate max_data_size 0) (omega arith)

pub length-frame : (t : Text) → length (frame t) < max_data_size
unfolding frame
length-frame t =
    omega
      (arith, max_data_size_lem, length-take (max_data_size - 1) (t ++ replicate max_data_size 0))

-- A text that fits is read as it was sent.
pub text-frame :
    (t : Text) (buf : Buffer)
    → length buf.cells ≡ max_data_size
    → IsCString t
    → length t < max_data_size
    → text (received (frame t) buf) ≡ t
text-frame t buf size plain fits =
    text-received (frame t) buf size (length-frame t)
    ∙ c_string-frame t plain
    ∙ take_all (max_data_size - 1) t (omega arith)

module _ {Obj : Type 0} ⦃j : Json Obj⦄ where
  -- The server with a frame in its array.
  abbrev pub server_heard : Server Obj → Text → Server Obj
  server_heard s t = record s {
    numbytes = length (frame t);
    temp_buf_s = received (frame t) s.temp_buf_s;
  }

  pub server_receive_lem :
      (s : Server Obj) (t : Text)
      → length s.temp_buf_s.cells ≡ max_data_size
      → IsCString t
      → length t < max_data_size
      → server_receive (bytes (frame t)) s ≡ server_parse t (server_heard s t)
  unfolding server_receive
  server_receive_lem s t size plain fits =
      rw (take-frame t, text-frame t s.temp_buf_s size plain fits)

module _ {Obj P : Type 0} ⦃j : Json Obj⦄ ⦃g : Streaming P⦄ where
  -- The camera with a frame in its array.
  abbrev pub camera_heard : Camera Obj P → Text → Camera Obj P
  camera_heard s t = record s {
    numbytes = length (frame t);
    temp_buff = received (frame t) s.temp_buff;
  }

  pub camera_receive_lem :
      (s : Camera Obj P) (tries : ℕ) (t : Text)
      → length s.temp_buff.cells ≡ max_data_size
      → IsCString t
      → length t < max_data_size
      → camera_receive tries (bytes (frame t)) s ≡ (
          if text_eq t (codes "ACK")
          then (ok true, camera_heard s t)
          else (do camera_parse tries t; pure false) (camera_heard s t))
  unfolding camera_receive
  camera_receive_lem s tries t size plain fits =
      rw (take-frame t, text-frame t s.temp_buff size plain fits)
        (elim (Bool-cases (text_eq t (codes "ACK"))) [ inl e ↦ rw e | inr e ↦ rw e ])

  -- The camera after a report.
  abbrev pub reported : Camera Obj P → Text → Camera Obj P
  reported s id = record s {
    temp_buff = memset max_data_size (loaded (status_text id s.status) s.temp_buff);
    log = sent s.srvr_sock (frame (status_text id s.status)) ∷ s.log;
  }

  pub length-reported :
      (s : Camera Obj P) (id : Text)
      → length s.temp_buff.cells ≡ max_data_size
      → length (reported s id).temp_buff.cells ≡ max_data_size
  length-reported s id size =
      let report = status_text id s.status in
      ap (λ (b : Buffer). length b.cells)
        (memset_lem (loaded report s.temp_buff) (length-loaded report s.temp_buff size))
      ∙ length-replicate max_data_size 0

  pub sig_status_lem :
      (s : Camera Obj P) (id : Text)
      → length s.temp_buff.cells ≡ max_data_size
      → s.send_works ≡ true
      → Named s id
      → sig_status s ≡ (ok tt, reported s id)
  unfolding sig_status
  sig_status_lem s id size works named =
      rw (named, works, loaded-frame (status_text id s.status) s.temp_buff size)
