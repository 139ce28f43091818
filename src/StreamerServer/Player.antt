-- ===== src/StreamerServer/Player.antt =====
-- StreamerServer/src/PlayerServer.c: the players' requests over websockets.
pub mod Requests
pub mod Reaches
pub mod Service
use live_streamer.Common.{
  ℕ, ◌++◌, List, [], ◌∷◌, Bool, true, false, Option, none, some, ⊤, if◌then◌else◌,
}
use live_streamer.Text.{Text, codes, text_eq}
use live_streamer.Buffer.{Buffer, max_data_size, memset, sprintf, text}
use live_streamer.Machine.{M, pure, deref, gets, modify, ◌>>=◌, ◌>>◌}
use live_streamer.Json.{Json, get_string}
use live_streamer.StreamerServer.State.{State, ws_sent, on_files, emit}
use live_streamer.StreamerServer.Json.{
  stream_id_key, status_key, action_key, set_json_value, get_json_value_from_file,
}

-- `{"streamId":"…","status":"…"}`
unfoldable pub status_text : Text → Text → Text
status_text id status =
    codes "{\"streamId\":\"" ++ (id ++ (codes "\",\"status\":\"" ++ (status ++ codes "\"}")))

module _ {Obj : Type 0} where
  abbrev pub on_buf : (Buffer → Buffer) → M (State Obj) ⊤
  on_buf g = modify (λ s. record s { temp_buf_p = g s.temp_buf_p })

module _ {Obj : Type 0} ⦃j : Json Obj⦄ where
  -- The reply to a request, formatted into `tempBufP`: the status that the record holds, or
  -- "ACK" once the requested action was written to it.
  unfoldable pub format_reply : Text → M (State Obj) ⊤
  format_reply str = do
    on_buf (memset max_data_size)
    let jobj = j.tokener_parse str
    let strm_id = get_string jobj stream_id_key
    let action = get_string jobj action_key
    asked ← deref action
    if text_eq asked (codes "status")
        then (do
          status ← on_files (get_json_value_from_file status_key strm_id)
          id ← deref strm_id
          status ← deref status
          on_buf (sprintf (status_text id status)))
        else (do
          on_files (set_json_value action_key action strm_id)
          on_buf (sprintf (codes "ACK")))

  -- -1 for a NULL argument; otherwise the text in `tempBufP` is handed to `lws_write`, whose
  -- result for that text is `lws_write`'s argument here.
  unfoldable pub websocket_write_back :
      (Text → Option ℕ) → Option ℕ → Option Text → M (State Obj) (Option ℕ)
  unfolding format_reply
  websocket_write_back lws_write none str = pure none
  websocket_write_back lws_write (some wsi) none = pure none
  websocket_write_back lws_write (some wsi) (some str) = do
    format_reply str
    reply ← gets (λ s. text s.temp_buf_p)
    emit (ws_sent wsi reply)
    pure (lws_write reply)

-- The callback reasons that `ws_service_callback` tells apart.
pub data Reason : Type 0 where
  established receive closed other : Reason

module _ {Obj : Type 0} ⦃j : Json Obj⦄ where
  -- It returns 0 whatever the write gave.
  unfoldable pub ws_service_callback :
      (Text → Option ℕ) → Option ℕ → Reason → Option Text → M (State Obj) ℕ
  unfolding websocket_write_back
  ws_service_callback lws_write wsi established str = pure 0
  ws_service_callback lws_write wsi receive str = do websocket_write_back lws_write wsi str; pure 0
  ws_service_callback lws_write wsi closed str = pure 0
  ws_service_callback lws_write wsi other str = pure 0
