-- ===== src/StreamerServer/Registry/Refines.antt =====
-- StreamerServer keeps the board, whatever it is sent and in whatever order.
use live_streamer.Common.{
  ℕ, ◌<◌, ◌≡◌, refl, sym, ap, ◌∙◌, subst, List, [], ◌∷◌, length, Bool, true, Option, none, some, ⊤,
}
use live_streamer.Text.{Text, c_string}
use live_streamer.Buffer.{max_data_size}
use live_streamer.Buffer.Reading.{length-received}
use live_streamer.Machine.{Outcome, ok, pure, >>=-ok}
use live_streamer.Machine.Keeps.{Any, ◌▸◌, Keeps-pure}
use live_streamer.Json.{Json}
use live_streamer.Files.{Files}
use live_streamer.Sockets.{bytes}
use live_streamer.StreamerServer.State.{State}
use live_streamer.StreamerServer.Json.{status_key, action_key, address}
use live_streamer.StreamerServer.Json.Effect.{Usable}
use live_streamer.StreamerServer.Comm.{thread_main, receive}
use live_streamer.StreamerServer.Comm.Reply.{msg_parse_lem}
use live_streamer.StreamerServer.Player
use live_streamer.StreamerServer.Player.{ws_service_callback, status_text}
use live_streamer.StreamerServer.Player.Requests.{ws_service_callback_lem}
use live_streamer.StreamerServer.Trigger.{switch_off_all}
use live_streamer.StreamerServer.Trigger.Reset.{switch_off_all_lem}
use live_streamer.StreamerServer.Registry.{IsRegistry}
use live_streamer.StreamerServer.Registry.Calls.{switch_off_all-Keeps}
use live_streamer.StreamerServer.Registry.Handlers.{
  IsSound, receive-Keeps, ws_service_callback-Keeps, on_files-Keeps,
}
use live_streamer.StreamerServer.Registry.Runs.{
  booted, booted-IsSound, entered-IsSound, current-Usable,
}
use live_streamer.StreamerServer.Registry.Board.{
  Board, new_board, Input, report, ask, next_board, with_answer, board_after, answers_to,
  ShowsBoard, current-fresh,
}
use live_streamer.StreamerServer.Registry.Deeds.{
  said, Deed, request, carry_out, Says, Means, arrives, reports, asks, resets, Serves, idle, serves,
}
use live_streamer.StreamerServer.Registry.Answers.{
  heard, receive_lem, answered-ShowsBoard, answered-says, requested-ShowsBoard, requested-says,
  swept-ShowsBoard, fresh-Shows,
}

module _ {Obj : Type 0} ⦃j : Json Obj⦄ where
  -- What a deed has to do for its input.
  abbrev Fulfils : (Text → Bool) → State Obj → Board → Input → Outcome ⊤ → State Obj → Type 0
  Fulfils rights s b i o s' =
      (o ≡ ok tt)
      × IsSound rights s'
      × ShowsBoard s'.files (next_board i b)
      × (said s'.log ≡ with_answer i b (said s.log))

  module _ (f : Files Obj) (can : (p : Text) → f.writable p ≡ true) (lws_write : Text → Option ℕ)
      (s : State Obj) (b : Board) (sound : IsSound f.writable s)
      (shows : ShowsBoard s.files b) where
    usable : (id : Text) → Usable s.files id
    usable id = current-Usable f s id can sound

    message-Fulfils :
        (bs : List ℕ) (id status : Text)
        → length bs < max_data_size
        → Says j (c_string bs) status_key id status
        → let (o, s') = receive (bytes bs) s in Fulfils f.writable s b (report id status) o s'
    message-Fulfils bs id status fits says =
        let s1 = heard s bs in
        let n = says.id-IsName in
        let post = shows id n in
        let same =
          receive_lem s bs sound.size_s fits
          ∙ msg_parse_lem s1 (c_string bs) id status (b id).action says.parsed says.has_id
              says.has_value (usable id) post.has_action in
        (
          ap (λ r. r.0) same,
          (receive-Keeps f.writable (bytes bs)).after s sound,
          subst (λ r. ShowsBoard r.1.files (next_board (report id status) b)) (sym same)
              (answered-ShowsBoard s1 b id status (usable id) n says.value-IsWord shows),
          ap (λ r. said r.1.log) same
              ∙ answered-says s1 b id status (length-received bs s.temp_buf_s sound.size_s fits) n
                  post.action-IsWord,
        )

    request-Fulfils :
        (wsi : ℕ) (str id action : Text)
        → Says j str action_key id action
        → let (o, s') = carry_out lws_write (request wsi str) s in
          Fulfils f.writable s b (ask id action) o s'
    unfolding carry_out
    request-Fulfils wsi str id action says =
        let n = says.id-IsName in
        let post = shows id n in
        let same =
          >>=-ok (ws_service_callback lws_write (some wsi) Player.receive (some str)) (λ r. pure tt)
            (ws_service_callback_lem s lws_write wsi str id action (b id).status says.parsed
              says.has_id says.has_value (usable id) post.has_status) in
        (
          ap (λ r. r.0) same,
          (ws_service_callback-Keeps f.writable lws_write (some wsi) Player.receive (some str)
                ▸ λ r q. Keeps-pure {Q = Any} tt tt).after
              s sound,
          subst (λ r. ShowsBoard r.1.files (next_board (ask id action) b)) (sym same)
              (requested-ShowsBoard s b wsi id action (usable id) n says.value-IsWord shows),
          ap (λ r. said r.1.log) same
              ∙ requested-says s b wsi id action sound.size_p n post.status-IsWord,
        )

    carry_out-Fulfils :
        (d : Deed) (i : Input)
        → Means s d i
        → let (o, s') = carry_out lws_write d s in Fulfils f.writable s b i o s'
    unfolding carry_out thread_main next_board with_answer
    carry_out-Fulfils d i (arrives sock) =
        (refl, entered-IsSound f.writable sock s sound, shows, refl)
    carry_out-Fulfils d i (reports bs id status fits says) = message-Fulfils bs id status fits says
    carry_out-Fulfils d i (asks wsi str id action says) = request-Fulfils wsi str id action says
    carry_out-Fulfils d i (resets entries all lists) = (
      (switch_off_all_lem s.files entries all).0,
      (on_files-Keeps f.writable (switch_off_all entries)
            (switch_off_all-Keeps f.writable entries)).after
          s sound,
      swept-ShowsBoard s.files b entries all lists shows,
      refl,
    )

  -- The server started on an empty directory.
  booted-ShowsBoard :
      (f : Files Obj) → ((p : Text) → f.at p ≡ none) → ShowsBoard (booted f).files (board_after [])
  unfolding board_after new_board
  booted-ShowsBoard f empty id n = rw (current-fresh f id (empty (address id))) (fresh-Shows id)

  module _ (f : Files Obj) (empty : (p : Text) → f.at p ≡ none)
      (can : (p : Text) → f.writable p ≡ true) (lws_write : Text → Option ℕ) where
    empty-IsRegistry : IsRegistry f.writable f
    empty-IsRegistry = record { all_records = λ p o e. absurd (cc (empty p)); same_rights = refl }

    Serves-Kept :
        {is : List Input} {s : State Obj}
        → Serves lws_write (booted f) is s
        → IsSound f.writable s × ShowsBoard s.files (board_after is) × (said s.log ≡ answers_to is)
    unfolding said answers_to board_after
    Serves-Kept idle =
        (booted-IsSound f.writable f empty-IsRegistry, booted-ShowsBoard f empty, refl)
    Serves-Kept (serves {is} {s'} {d} {i} run means) =
        let (sound, shows, says) = Serves-Kept run in
        let (o, sound', shows', says') =
          carry_out-Fulfils f can lws_write s' (board_after is) sound shows d i means in
        (sound', shows', says' ∙ ap (with_answer i (board_after is)) says)

    -- A server that is started on a directory without status files, all of which can be written,
    -- is the board: after any connections, reports, players' requests and full resets, in any
    -- order, it returns from the next one, its status files show for every stream what the board
    -- then shows, and it has sent the answers of the board, in their order, and nothing else. Each
    -- report comes in by one recv of less than 255 bytes; reports and requests hold a stream and a
    -- status or an action, without NUL bytes, the name of at most 51 bytes and the other of at most
    -- 100; and a reset has listed every status file and nothing else but directories.
    pub carry_out-ShowsBoard :
        {is : List Input} {s : State Obj} (d : Deed) (i : Input)
        → Serves lws_write (booted f) is s
        → Means s d i
        → let (o, s') = carry_out lws_write d s in
          (o ≡ ok tt)
          × ShowsBoard s'.files (board_after (i ∷ is))
          × (said s'.log ≡ answers_to (i ∷ is))
    carry_out-ShowsBoard {is} {s} d i run means =
        let (sound, shows, says) = Serves-Kept run in
        let fulfilled =
          carry_out-Fulfils f can lws_write s (board_after is) sound shows d i means in
        let (_, shows', says') = Serves-Kept (serves run means) in (fulfilled.0, shows', says')
