-- ===== src/StreamerServer/Registry/Handlers.antt =====
-- The handlers of StreamerServer, srvrComm.c and PlayerServer.c, keep every status file a record of
-- its stream, and the arrays their size.
use live_streamer.Common.{
  ℕ, ◌≡◌, refl, sym, subst, ap, ◌∙◌, length, Bool, true, Option, none, some, List, [], ◌∷◌, ◌++◌,
  ◌-◌, replicate, take, arith, length-set, inr,
}
use live_streamer.Text.{Text, codes, text_eq}
use live_streamer.Buffer.{Buffer, max_data_size, copy_in, store, memset, snprintf, sprintf, text}
use live_streamer.Buffer.Frames.{length-overwrite}
use live_streamer.Machine.{M, gets, modify}
use live_streamer.Machine.Keeps.{
  Keeps, Any, ◌▸◌, Keeps-pure, Keeps-exit, Keeps-if, Keeps-gets, Keeps-deref, Keeps-modify,
}
use live_streamer.Json.{Json, get_string}
use live_streamer.Files.{Files}
use live_streamer.Sockets.{Recv, failed, bytes}
use live_streamer.StreamerServer.State.{State, Event, on_files, emit, ws_sent}
use live_streamer.StreamerServer.Json.{
  stream_id_key, status_key, action_key, off, set_json_value, get_json_value_from_file,
}
use live_streamer.StreamerServer.Comm
use live_streamer.StreamerServer.Comm.{
  done, ready, action_text, send_data, send_text, receive_data, same, set_strm_id, action_in_file,
  sig_act, sig_ack, compare_status, reply_to_status, msg_parse, receive,
}
use live_streamer.StreamerServer.Player
use live_streamer.StreamerServer.Player.{
  Reason, established, closed, other, status_text, format_reply, websocket_write_back,
  ws_service_callback,
}
use live_streamer.StreamerServer.Registry.{Fits, Fits-action, Fits-status, IsRegistry}
use live_streamer.StreamerServer.Registry.Calls.{
  Kept, set_json_value-Keeps, get_json_value_from_file-Keeps,
}

abbrev pub KeepsSize : (Buffer → Buffer) → Type 0
KeepsSize g = (buf : Buffer) → length (g buf).cells ≡ length buf.cells

copy_in-KeepsSize : (bs : List ℕ) → KeepsSize (copy_in bs)
unfolding copy_in
copy_in-KeepsSize bs buf = length-overwrite buf.cells bs

store-KeepsSize : (i v : ℕ) → KeepsSize (store i v)
unfolding store
store-KeepsSize i v buf = ground (arith, length-set buf.cells i v)

module _ {Obj : Type 0} ⦃j : Json Obj⦄ where
  -- The status files are records, and the two arrays have their size.
  pub record IsSound (rights : Text → Bool) (s : State Obj) : Type 0 where
    pub registry : IsRegistry rights s.files
    pub size_s : length s.temp_buf_s.cells ≡ max_data_size
    pub size_p : length s.temp_buf_p.cells ≡ max_data_size

  abbrev pub SameParts : State Obj → State Obj → Type 0
  SameParts s s' =
      (s'.files ≡ s.files)
      × (s'.temp_buf_s.cells ≡ s.temp_buf_s.cells)
      × (s'.temp_buf_p.cells ≡ s.temp_buf_p.cells)

  pub IsSound-same :
      {rights : Text → Bool} {s s' : State Obj}
      → IsSound rights s
      → SameParts s s'
      → IsSound rights s'
  IsSound-same {rights} h (files, cells_s, cells_p) = record {
    registry = subst (IsRegistry rights) (sym files) h.registry;
    size_s = ap length cells_s ∙ h.size_s;
    size_p = ap length cells_p ∙ h.size_p;
  }

module _ {Obj : Type 0} ⦃j : Json Obj⦄ (rights : Text → Bool) where
  abbrev pub Sound : {A : Type 0} → M (State Obj) A → (A → Type 0) → Type 0
  Sound m Q = Keeps (IsSound rights) m Q

  pub on_files-Keeps :
      {A : Type 0} {Q : A → Type 0} (m : M (Files Obj) A) → Kept rights m Q → Sound (on_files m) Q
  on_files-Keeps m k = record {
    after = λ s h. record {
      registry = k.after s.files h.registry;
      size_s = h.size_s;
      size_p = h.size_p;
    };
    returns = λ s h. k.returns s.files h.registry;
  }

  on_buf_s-Keeps : (g : Buffer → Buffer) → KeepsSize g → Sound (Comm.on_buf g) Any
  on_buf_s-Keeps g size = Keeps-modify _ λ s h. record {
    registry = h.registry;
    size_s = size s.temp_buf_s ∙ h.size_s;
    size_p = h.size_p;
  }

  on_buf_p-Keeps : (g : Buffer → Buffer) → KeepsSize g → Sound (Player.on_buf g) Any
  on_buf_p-Keeps g size = Keeps-modify _ λ s h. record {
    registry = h.registry;
    size_s = h.size_s;
    size_p = size s.temp_buf_p ∙ h.size_p;
  }

  -- A change that leaves the files and the arrays alone.
  beside-Keeps :
      (g : State Obj → State Obj) → ((s : State Obj) → SameParts s (g s)) → Sound (modify g) Any
  beside-Keeps g same = Keeps-modify g λ s h. IsSound-same h (same s)

  emit-Keeps : (e : Event) → Sound (emit e) Any
  emit-Keeps e = beside-Keeps (λ s. record s { log = e ∷ s.log }) (λ s. (refl, refl, refl))

  send_data-Keeps : Sound send_data Any
  unfolding send_data
  send_data-Keeps = record {
    after = λ s h. IsSound-same h (refl, refl, refl);
    returns = λ s h a q. tt;
  }

  send_text-Keeps : (t : Text) → Sound (send_text t) Any
  unfolding send_text snprintf
  send_text-Keeps t =
      on_buf_s-Keeps (snprintf max_data_size t)
        (copy_in-KeepsSize (take (max_data_size - 1) t ++ 0 ∷ []))
      ▸ λ u q. on_buf_s-Keeps (store max_data_size 0) (store-KeepsSize max_data_size 0) ▸ λ u q.
          send_data-Keeps

  memset_s-Keeps : Sound (Comm.on_buf (memset max_data_size)) Any
  unfolding memset
  memset_s-Keeps = on_buf_s-Keeps _ (copy_in-KeepsSize (replicate max_data_size 0))

  set_strm_id-Keeps : (x : Option Text) → Sound (set_strm_id x) Any
  unfolding set_strm_id
  set_strm_id-Keeps none = Keeps-pure tt tt
  set_strm_id-Keeps (some id) =
      beside-Keeps (λ s. record s { strm_id = some id }) (λ s. (refl, refl, refl))

  same-Keeps : (x : Option Text) (t : Text) → Sound (same x t) Any
  unfolding same
  same-Keeps x t = Keeps-deref x ▸ λ s q. Keeps-pure (text_eq s t) tt

  -- A call of getJsonValueFromFile, and one of setJsonValue that `Fits`.
  get_value-Keeps :
      (k : Text) (id : Option Text) → Sound (on_files (get_json_value_from_file k id)) Any
  get_value-Keeps k id =
      on_files-Keeps (get_json_value_from_file k id) (get_json_value_from_file-Keeps rights k id)

  set_value-Keeps :
      (k : Text) (v id : Option Text) → Fits k v id → Sound (on_files (set_json_value k v id)) Any
  set_value-Keeps k v id fits =
      on_files-Keeps (set_json_value k v id) (set_json_value-Keeps rights k v id fits)

  strm_id-Keeps : Sound (gets (λ s. s.strm_id)) Any
  strm_id-Keeps = Keeps-gets (λ s. s.strm_id)

  action_in_file-Keeps : Sound action_in_file Any
  unfolding action_in_file
  action_in_file-Keeps = strm_id-Keeps ▸ λ id q. get_value-Keeps action_key id

  sig_act-Keeps : Sound sig_act Any
  unfolding sig_act
  sig_act-Keeps = memset_s-Keeps ▸ λ u q. action_in_file-Keeps ▸ λ action q. strm_id-Keeps ▸ λ id q.
      Keeps-deref id ▸ λ name q.
      Keeps-deref action ▸ λ act q. send_text-Keeps (action_text name act)

  sig_ack-Keeps : Sound sig_ack Any
  unfolding sig_ack
  sig_ack-Keeps = memset_s-Keeps ▸ λ u q. send_text-Keeps (codes "ACK") ▸ λ u q.
      beside-Keeps (λ s. record s { ack = true }) (λ s. (refl, refl, refl)) ▸ λ u q.
      strm_id-Keeps ▸ λ id q. set_value-Keeps action_key (some done) id (Fits-action (some done) id)

  compare_status-Keeps : (status : Option Text) → Sound (compare_status status) Any
  unfolding compare_status
  compare_status-Keeps status = action_in_file-Keeps ▸ λ action q. Keeps-deref status ▸ λ st q.
      Keeps-deref action ▸ λ act q. Keeps-if (text_eq st act) sig_ack-Keeps sig_act-Keeps

  reply_to_status-Keeps : (status : Option Text) → Sound (reply_to_status status) Any
  unfolding reply_to_status
  reply_to_status-Keeps status = same-Keeps status ready ▸ λ is_ready q.
      Keeps-if is_ready
        (action_in_file-Keeps ▸ λ action q. same-Keeps action off ▸ λ is_off q.
          Keeps-if is_off sig_ack-Keeps (compare_status-Keeps status))
        (compare_status-Keeps status)

  msg_parse-Keeps : (str : Text) → Sound (msg_parse str) Any
  unfolding msg_parse
  msg_parse-Keeps str =
      let status = get_string (j.tokener_parse str) status_key in
      set_strm_id-Keeps (get_string (j.tokener_parse str) stream_id_key) ▸ λ u q.
      strm_id-Keeps ▸ λ id q. set_value-Keeps stream_id_key id id (inr (refl, refl)) ▸ λ u q.
      set_value-Keeps status_key status id (Fits-status status id) ▸ λ u q.
      get_value-Keeps status_key id ▸ λ x q. action_in_file-Keeps ▸ λ action q.
      same-Keeps action done ▸ λ is_done q.
      Keeps-if is_done sig_ack-Keeps (reply_to_status-Keeps status)

  receive_data-Keeps : (r : Recv) → Sound (receive_data r) Any
  unfolding receive_data
  receive_data-Keeps failed = memset_s-Keeps ▸ λ u q. Keeps-exit 1
  receive_data-Keeps (bytes bs) =
      let copied = take (max_data_size - 1) bs in
      memset_s-Keeps ▸ λ u q. on_buf_s-Keeps (copy_in copied) (copy_in-KeepsSize copied) ▸ λ u q.
      beside-Keeps (λ s. record s { numbytes = length copied }) (λ s. (refl, refl, refl)) ▸ λ u q.
      on_buf_s-Keeps (store (length copied) 0) (store-KeepsSize (length copied) 0) ▸ λ u q.
      Keeps-gets (λ s. text s.temp_buf_s)

  pub receive-Keeps : (r : Recv) → Sound (receive r) Any
  unfolding receive
  receive-Keeps r = receive_data-Keeps r ▸ λ str q. msg_parse-Keeps str

  format_reply-Keeps : (str : Text) → Sound (format_reply str) Any
  unfolding format_reply memset sprintf
  format_reply-Keeps str =
      let id = get_string (j.tokener_parse str) stream_id_key in
      let action = get_string (j.tokener_parse str) action_key in
      on_buf_p-Keeps (memset max_data_size) (copy_in-KeepsSize (replicate max_data_size 0)) ▸ λ u q.
      Keeps-deref action ▸ λ asked q.
      Keeps-if (text_eq asked (codes "status"))
        (get_value-Keeps status_key id ▸ λ status q. Keeps-deref id ▸ λ name q.
          Keeps-deref status ▸ λ st q.
          on_buf_p-Keeps (sprintf (status_text name st))
            (copy_in-KeepsSize (status_text name st ++ 0 ∷ [])))
        (set_value-Keeps action_key action id (Fits-action action id) ▸ λ u q.
          on_buf_p-Keeps (sprintf (codes "ACK")) (copy_in-KeepsSize (codes "ACK" ++ 0 ∷ [])))

  websocket_write_back-Keeps :
      (lws_write : Text → Option ℕ) (wsi : Option ℕ) (str : Option Text)
      → Sound (websocket_write_back lws_write wsi str) Any
  unfolding websocket_write_back
  websocket_write_back-Keeps lws_write none str = Keeps-pure none tt
  websocket_write_back-Keeps lws_write (some wsi) none = Keeps-pure none tt
  websocket_write_back-Keeps lws_write (some wsi) (some str) = format_reply-Keeps str ▸ λ u q.
      Keeps-gets (λ s. text s.temp_buf_p) ▸ λ reply q.
      emit-Keeps (ws_sent wsi reply) ▸ λ u q. Keeps-pure (lws_write reply) tt

  pub ws_service_callback-Keeps :
      (lws_write : Text → Option ℕ) (wsi : Option ℕ) (reason : Reason) (str : Option Text)
      → Sound (ws_service_callback lws_write wsi reason str) Any
  unfolding ws_service_callback
  ws_service_callback-Keeps lws_write wsi established str = Keeps-pure 0 tt
  ws_service_callback-Keeps lws_write wsi Reason.receive str =
      websocket_write_back-Keeps lws_write wsi str ▸ λ r q. Keeps-pure 0 tt
  ws_service_callback-Keeps lws_write wsi closed str = Keeps-pure 0 tt
  ws_service_callback-Keeps lws_write wsi other str = Keeps-pure 0 tt
