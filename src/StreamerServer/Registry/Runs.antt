-- ===== src/StreamerServer/Registry/Runs.antt =====
-- The runs of StreamerServer: connections, messages, players' requests and resets in any order, the
-- end of the process and its restart on the same status files.
use live_streamer.Common.{
  ℕ, ◌≡◌, refl, ap, ◌∙◌, List, [], true, Bool, false, Option, none, some, replicate,
  length-replicate,
}
use live_streamer.Text.{Text}
use live_streamer.Buffer.{Buffer, max_data_size}
use live_streamer.Machine.{ok}
use live_streamer.Json.{Json}
use live_streamer.Files.{Files}
use live_streamer.Sockets.{Recv}
use live_streamer.StreamerServer.State.{State, on_files, emit, closed}
use live_streamer.StreamerServer.Json.{stream_id_key, status_key, action_key, address}
use live_streamer.StreamerServer.Json.Effect.{current, Usable}
use live_streamer.StreamerServer.Comm.{receive, msg_parse, thread_main}
use live_streamer.StreamerServer.Comm.Reply.{answered, msg_parse_lem}
use live_streamer.StreamerServer.Player
use live_streamer.StreamerServer.Player.{Reason, ws_service_callback}
use live_streamer.StreamerServer.Player.Requests.{requested, ws_service_callback_lem}
use live_streamer.StreamerServer.Trigger.{Entry, switch_off_all}
use live_streamer.StreamerServer.Threads.{entered}
use live_streamer.StreamerServer.Registry.{IsRecord, IsRegistry}
use live_streamer.StreamerServer.Registry.Calls.{fresh-IsRecord, switch_off_all-Keeps}
use live_streamer.StreamerServer.Registry.Handlers.{
  IsSound, receive-Keeps, ws_service_callback-Keeps, on_files-Keeps, IsSound-same,
}

abbrev zeroed : Buffer
zeroed = record { cells = replicate max_data_size 0; spilled = 0 }

module _ {Obj : Type 0} ⦃j : Json Obj⦄ where
  -- The globals of a process that starts on the status files.
  abbrev pub booted : Files Obj → State Obj
  booted f = record {
    files = f;
    strm_id = none;
    clnt_sock = 0;
    numbytes = 0;
    ack = false;
    temp_buf_s = zeroed;
    temp_buf_p = zeroed;
    log = [];
  }

  -- What the server does between two waits: a new connection gets its thread, a thread takes a
  -- message or closes its socket, a player's event comes in, and the alarm resets the files. A
  -- handler that ends the process leaves the state as it was then; the next step may be a restart.
  pub data Step (s : State Obj) : State Obj → Type 0 where
    connects : (sock : ℕ) → Step s (entered sock s)
    hears : (r : Recv) → Step s (receive r s).1
    leaves : Step s (emit (closed s.clnt_sock) s).1
    asks :
        (lws_write : Text → Option ℕ) (wsi : Option ℕ) (reason : Reason) (str : Option Text)
        → Step s (ws_service_callback lws_write wsi reason str s).1
    resets : (entries : List Entry) → Step s (on_files (switch_off_all entries) s).1
    restarts : Step s (booted s.files)

  pub data Reaches (s : State Obj) : State Obj → Type 0 where
    here : Reaches s s
    next : {s' s'' : State Obj} → Reaches s s' → Step s' s'' → Reaches s s''

  pub booted-IsSound :
      (rights : Text → Bool) (f : Files Obj) → IsRegistry rights f → IsSound rights (booted f)
  booted-IsSound rights f h = record {
    registry = h;
    size_s = length-replicate max_data_size 0;
    size_p = length-replicate max_data_size 0;
  }

  pub entered-IsSound :
      (rights : Text → Bool) (sock : ℕ) (s : State Obj)
      → IsSound rights s
      → IsSound rights (entered sock s)
  unfolding thread_main
  entered-IsSound rights sock s h = IsSound-same h (refl, refl, refl)

  Step-IsSound :
      (rights : Text → Bool) {s s' : State Obj} → Step s s' → IsSound rights s → IsSound rights s'
  Step-IsSound rights {s} (connects sock) h = entered-IsSound rights sock s h
  Step-IsSound rights {s} (hears r) h = (receive-Keeps rights r).after s h
  Step-IsSound rights leaves h = IsSound-same h (refl, refl, refl)
  Step-IsSound rights {s} (asks lws_write wsi reason str) h =
      (ws_service_callback-Keeps rights lws_write wsi reason str).after s h
  Step-IsSound rights {s} (resets entries) h =
      (on_files-Keeps rights (switch_off_all entries) (switch_off_all-Keeps rights entries)).after s
        h
  Step-IsSound rights {s} restarts h = booted-IsSound rights s.files h.registry

  -- Whatever happens to a server that was started on a directory of records, each of its status
  -- files still holds an object with a status, an action and the name of a stream whose file it
  -- is, the rights to the files are the same, and both arrays have their 255 bytes. A step may end
  -- the process in the middle of a handler, and it may be started again.
  pub Reaches-IsSound :
      (f : Files Obj) (s : State Obj)
      → IsRegistry f.writable f
      → Reaches (booted f) s
      → IsSound f.writable s
  Reaches-IsSound f s h here = booted-IsSound f.writable f h
  Reaches-IsSound f s h (next {s'} r step) = Step-IsSound f.writable step (Reaches-IsSound f s' h r)

  -- The record of a stream, whether or not it has a file.
  current-IsRecord :
      (rights : Text → Bool) (f : Files Obj) (id : Text)
      → IsRegistry rights f
      → IsRecord (address id) (current f id)
  unfolding current
  current-IsRecord rights f id h = go (f.at (address id)) refl
    where
      go : (x : Option Obj) → f.at (address id) ≡ x → IsRecord (address id) (current f id)
      go none e = rw (e, current) (fresh-IsRecord rights id)
      go (some o) e = rw (e, current) (h.all_records (address id) o e)

  pub current-Usable :
      (f : Files Obj) (s : State Obj) (id : Text)
      → ((p : Text) → f.writable p ≡ true)
      → IsSound f.writable s
      → Usable s.files id
  current-Usable f s id can h = record {
    can_write = ap (λ (w : Text → Bool). w (address id)) h.registry.same_rights ∙ can (address id);
    holds_object = (current-IsRecord f.writable s.files id h.registry).is_object;
  }

  module _ (f : Files Obj) (s : State Obj) (writable : (p : Text) → f.writable p ≡ true)
      (registry : IsRegistry f.writable f) (run : Reaches (booted f) s) (str : Text) (o : Obj)
      (id : Text) (parsed : j.tokener_parse str ≡ some o)
      (has_id : j.get_ex o stream_id_key ≡ some (some id)) where
    named-IsRecord : IsRecord (address id) (current s.files id)
    named-IsRecord =
        current-IsRecord f.writable s.files id (Reaches-IsSound f s registry run).registry

    named-Usable : Usable s.files id
    named-Usable = current-Usable f s id writable (Reaches-IsSound f s registry run)

    -- In every state that the server reaches, from a directory of records that can be written, a
    -- message with a stream and a status is answered: the handler returns, with the answer for the
    -- action that the record of the stream holds.
    pub msg_parse_answers :
        (status : Text)
        → j.get_ex o status_key ≡ some (some status)
        → (action : Text) × (j.get_ex (current s.files id) action_key ≡ some (some action))
          × (msg_parse str s ≡ (ok tt, answered s id status action))
    msg_parse_answers status has_status =
        let (action, has_action) = named-IsRecord.has_action in
        (
          action,
          has_action,
          msg_parse_lem s str id status action parsed has_id has_status named-Usable has_action,
        )

    -- In every such state a player's request with a stream and an action is answered too.
    pub ws_service_callback_answers :
        (lws_write : Text → Option ℕ) (wsi : ℕ) (action : Text)
        → j.get_ex o action_key ≡ some (some action)
        → (status : Text) × (j.get_ex (current s.files id) status_key ≡ some (some status))
          × (ws_service_callback lws_write (some wsi) Player.receive (some str) s
              ≡ (ok 0, requested s wsi id action status))
    ws_service_callback_answers lws_write wsi action has_action =
        let (status, has_status) = named-IsRecord.has_status in
        (
          status,
          has_status,
          ws_service_callback_lem s lws_write wsi str id action status parsed has_id has_action
              named-Usable has_status,
        )
