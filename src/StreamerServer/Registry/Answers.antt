-- ===== src/StreamerServer/Registry/Answers.antt =====
-- What the answers and the reset of StreamerServer make of the board that its files show.
use live_streamer.Common.{
  ℕ, ◌-◌, ◌<◌, ◌≡◌, refl, ap, ◌∙◌, subst, List, ◌∷◌, length, take, take_all, true, Option, none,
  some, Bool-cases, inl, inr, arith,
}
use live_streamer.Text.{Text, IsCString, IsCString-append, c_string, codes, text_eq}
use live_streamer.Buffer.{Buffer, max_data_size}
use live_streamer.Buffer.Frames.{loaded, loaded-frame, max_data_size_lem}
use live_streamer.Buffer.Reading.{received, text-received, c_string-frame, text-sprintf}
use live_streamer.Json.{Json}
use live_streamer.Files.{Files}
use live_streamer.Sockets.{bytes}
use live_streamer.StreamerServer.State.{State}
use live_streamer.StreamerServer.Json.{stream_id_key, status_key, action_key, off, live, address}
use live_streamer.StreamerServer.Json.Effect.{current, fresh, Usable}
use live_streamer.StreamerServer.Comm.{receive, msg_parse, action_text, done}
use live_streamer.StreamerServer.Comm.Reply.{
  accepts, answered, answered-acked, answered-told, updated, updated-is_object, status-updated,
  action-updated,
}
use live_streamer.StreamerServer.Player.{status_text}
use live_streamer.StreamerServer.Player.Requests.{length-status_text, requested}
use live_streamer.StreamerServer.Trigger.{Entry, switch_off_all}
use live_streamer.StreamerServer.Trigger.Reset.{covers, AllRewritable}
use live_streamer.System.Messages.{length-action_text, action_text-IsCString}
use live_streamer.StreamerServer.Registry.Board.{
  Post, Board, new_board, report, ask, reset, next_board, with_answer, IsName, IsWord, Shows,
  ShowsBoard, write-ShowsBoard, opened-ShowsBoard, current-some, current-fresh,
}
use live_streamer.StreamerServer.Registry.Sweep.{
  Switched, switch_off_all-Switched, switch_off_all_absent,
}
use live_streamer.StreamerServer.Registry.Deeds.{said}

sent_text :
    (t : Text) (buf : Buffer)
    → length buf.cells ≡ max_data_size
    → IsCString t
    → length t < max_data_size
    → c_string (take (max_data_size - 1) (loaded t buf).cells) ≡ t
sent_text t buf size c fits =
    ap c_string (loaded-frame t buf size)
    ∙ c_string-frame t c
    ∙ take_all (max_data_size - 1) t (omega arith)

off-IsWord : IsWord off
unfolding codes
off-IsWord = record { is_c_string = omega arith; is_short = omega arith }

done-IsWord : IsWord done
unfolding codes
done-IsWord = record { is_c_string = omega arith; is_short = omega arith }

live-IsWord : IsWord live
unfolding codes
live-IsWord = record { is_c_string = omega arith; is_short = omega arith }

status_text-IsCString : (id v : Text) → IsCString id → IsCString v → IsCString (status_text id v)
unfolding status_text codes
status_text-IsCString id v hid hv = IsCString-append (codes "{\"streamId\":\"") _ (omega arith) (
    IsCString-append id _ hid (
      IsCString-append (codes "\",\"status\":\"") _ (omega arith)
        (IsCString-append v _ hv (omega arith))))

module _ {Obj : Type 0} ⦃j : Json Obj⦄ where
  -- The state once a message was received, before it is parsed.
  abbrev pub heard : State Obj → List ℕ → State Obj
  heard s bs = record s { numbytes = length bs; temp_buf_s = received bs s.temp_buf_s }

  pub receive_lem :
      (s : State Obj) (bs : List ℕ)
      → length s.temp_buf_s.cells ≡ max_data_size
      → length bs < max_data_size
      → receive (bytes bs) s ≡ msg_parse (c_string bs) (heard s bs)
  unfolding receive
  receive_lem s bs size fits =
      rw (take_all (max_data_size - 1) bs (omega arith), text-received bs s.temp_buf_s size fits)

  updated-Shows :
      (f : Files Obj) (id status : Text) (p : Post)
      → Usable f id
      → IsWord status
      → Shows (current f id) p
      → Shows (updated f id status) (record { status = status; action = p.action })
  updated-Shows f id status p u w h = record {
    has_status = status-updated f id status u;
    has_action = action-updated f id status u ∙ h.has_action;
    status-IsWord = w;
    action-IsWord = h.action-IsWord;
  }

  -- A record whose action was replaced.
  with_action-Shows :
      (o : Obj) (a : Text) (p : Post)
      → j.is_object o ≡ true
      → IsWord a
      → Shows o p
      → Shows (j.add o action_key a) (record { status = p.status; action = a })
  unfolding codes text_eq
  with_action-Shows o a p h w shows = record {
    has_status = j.get_ex-add o action_key a status_key h ∙ shows.has_status;
    has_action = j.get_ex-add o action_key a action_key h;
    status-IsWord = shows.status-IsWord;
    action-IsWord = w;
  }

  pub answered-ShowsBoard :
      (s : State Obj) (b : Board) (id status : Text)
      → Usable s.files id
      → IsName id
      → IsWord status
      → ShowsBoard s.files b
      → ShowsBoard (answered s id status (b id).action).files (next_board (report id status) b)
  unfolding next_board
  answered-ShowsBoard s b id status u n w h =
      let f = s.files in
      let o = updated f id status in
      let shows = updated-Shows f id status (b id) u w (h id n) in
      elim (Bool-cases (accepts status (b id).action)) [
        | inl e ↦
            rw (answered-acked s id status (b id).action e, e)
              (write-ShowsBoard f b id (j.add o action_key done) _ n
                (with_action-Shows o done _ (updated-is_object f id status u) done-IsWord shows) h)
        | inr e ↦
            rw (answered-told s id status (b id).action e, e)
              (write-ShowsBoard f b id o _ n shows h)
      ]

  pub answered-says :
      (s : State Obj) (b : Board) (id status : Text)
      → length s.temp_buf_s.cells ≡ max_data_size
      → IsName id
      → IsWord (b id).action
      → said (answered s id status (b id).action).log
        ≡ with_answer (report id status) b (said s.log)
  unfolding said with_answer codes
  answered-says s b id status size n w =
      let action = (b id).action in
      elim (Bool-cases (accepts status action)) [
        | inl e ↦
            rw (answered-acked s id status action e, e)
              (ap (λ t. t ∷ said s.log)
                (sent_text (codes "ACK") s.temp_buf_s size (omega arith)
                  (omega (arith, max_data_size_lem))))
        | inr e ↦
            rw (answered-told s id status action e, e)
              (ap (λ t. t ∷ said s.log)
                (sent_text (action_text id action) s.temp_buf_s size
                  (action_text-IsCString id action n.is_c_string w.is_c_string)
                  (omega (
                    arith,
                    max_data_size_lem,
                    length-action_text id action,
                    n.is_short,
                    w.is_short,
                  ))))
      ]

  pub requested-ShowsBoard :
      (s : State Obj) (b : Board) (wsi : ℕ) (id action : Text)
      → Usable s.files id
      → IsName id
      → IsWord action
      → ShowsBoard s.files b
      → ShowsBoard (requested s wsi id action (b id).status).files (next_board (ask id action) b)
  unfolding next_board requested
  requested-ShowsBoard s b wsi id action u n w h =
      elim (Bool-cases (text_eq action (codes "status"))) [
        | inl e ↦ rw e (opened-ShowsBoard s.files b id n h)
        | inr e ↦ rw e (
            write-ShowsBoard s.files b id (j.add (current s.files id) action_key action) _ n
              (with_action-Shows (current s.files id) action (b id) u.holds_object w (h id n)) h)
      ]

  pub requested-says :
      (s : State Obj) (b : Board) (wsi : ℕ) (id action : Text)
      → length s.temp_buf_p.cells ≡ max_data_size
      → IsName id
      → IsWord (b id).status
      → said (requested s wsi id action (b id).status).log
        ≡ with_answer (ask id action) b (said s.log)
  unfolding said with_answer requested codes
  requested-says s b wsi id action size n w =
      let status = (b id).status in
      elim (Bool-cases (text_eq action (codes "status"))) [
        | inl e ↦ rw e (
            ap (λ t. t ∷ said s.log)
              (text-sprintf (status_text id status) s.temp_buf_p size
                (status_text-IsCString id status n.is_c_string w.is_c_string)
                (omega (
                  arith,
                  max_data_size_lem,
                  length-status_text id status,
                  n.is_short,
                  w.is_short,
                ))))
        | inr e ↦ rw e (
            ap (λ t. t ∷ said s.log)
              (text-sprintf (codes "ACK") s.temp_buf_p size (omega arith)
                (omega (arith, max_data_size_lem))))
      ]

  Switched-Shows :
      (o : Obj) (x : Option Obj) (p : Post)
      → Switched true o x
      → Shows o p
      → (o' : Obj) × (x ≡ some o') × Shows o' (record { status = off; action = p.action })
  Switched-Shows o x p sw h = (
    sw.object,
    sw.holds,
    record {
      has_status = sw.new_status;
      has_action = sw.same_action ∙ h.has_action;
      status-IsWord = off-IsWord;
      action-IsWord = h.action-IsWord;
    },
  )

  pub fresh-Shows : (id : Text) → Shows (fresh {Obj = Obj} id) (new_board id)
  unfolding fresh new_board codes text_eq
  fresh-Shows id =
      let o1 = j.add j.new_object stream_id_key id in
      let o2 = j.add o1 status_key off in
      let h1 = j.add-is_object j.new_object stream_id_key id j.new_object-is_object in
      let h2 = j.add-is_object o1 status_key off h1 in
      record {
        has_status =
            j.get_ex-add o2 action_key live status_key h2
            ∙ j.get_ex-add o1 status_key off status_key h1;
        has_action = j.get_ex-add o2 action_key live action_key h2;
        status-IsWord = off-IsWord;
        action-IsWord = live-IsWord;
      }

  -- A stream without a file is off as it is.
  fresh-off :
      (id : Text) (p : Post)
      → Shows (fresh {Obj = Obj} id) p
      → Shows (fresh {Obj = Obj} id) (record { status = off; action = p.action })
  unfolding new_board
  fresh-off id p h = record {
    has_status = (fresh-Shows id).has_status;
    has_action = h.has_action;
    status-IsWord = off-IsWord;
    action-IsWord = h.action-IsWord;
  }

  pub swept-ShowsBoard :
      (f : Files Obj) (b : Board) (entries : List Entry)
      → AllRewritable f entries
      → ((p : Text) (o : Obj) → f.at p ≡ some o → covers entries p ≡ true)
      → ShowsBoard f b
      → ShowsBoard (switch_off_all entries f).1 (next_board reset b)
  unfolding next_board
  swept-ShowsBoard f b entries all lists h id n = go (f.at (address id)) refl
    where
      p : Post
      p = b id

      f' : Files Obj
      f' = (switch_off_all entries f).1

      go :
          (x : Option Obj)
          → f.at (address id) ≡ x
          → Shows (current f' id) (record { status = off; action = p.action })
      go none e =
          rw (current-fresh f' id (switch_off_all_absent f entries (address id) all e))
            (fresh-off id p (subst (λ o. Shows o p) (current-fresh f id e) (h id n)))
      go (some o) e =
          let sw =
            subst (λ l. Switched l o (f'.at (address id))) (lists (address id) o e)
              (switch_off_all-Switched f entries (address id) o all e) in
          let (o', at, shows) =
            Switched-Shows o _ p sw (subst (λ x. Shows x p) (current-some f id o e) (h id n)) in
          rw (current-some f' id o' at) shows
