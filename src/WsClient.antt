-- ===== src/WsClient.antt =====
-- ws/client/src/client.c: a demo that plays the player's part over libwebsockets.
pub mod Ends
use live_streamer.Common.{ℕ, List, [], ◌∷◌, Bool, true, false, Option, none, some, ⊤, if◌then◌else◌}
use live_streamer.Text.{Text, codes}
use live_streamer.Machine.{M, pure, wait, gets, modify, ◌>>=◌, ◌>>◌}

pub record Flags : Type 0 where
  pub connection_flag : Bool
  pub destroy_flag : Bool
  pub writeable_flag : Bool
  -- The texts that were handed to `lws_write`, newest first.
  pub log : List Text

-- The callback reasons that are told apart.
pub data Reason : Type 0 where
  established connection_error closed receive writeable other : Reason

abbrev pub set_connection : Bool → M Flags ⊤
set_connection b = modify (λ s. record s { connection_flag = b })

abbrev pub set_destroy : M Flags ⊤
set_destroy = modify (λ s. record s { destroy_flag = true })

unfoldable pub live_request : Text
live_request = codes "{\"streamId\":\"myStream\",\"action\":\"live\"}"

unfoldable pub status_request : Text
status_request = codes "{\"streamId\":\"myStream\",\"action\":\"status\"}"

-- -1 for a NULL argument, and otherwise what `lws_write` gives, the last argument here.
unfoldable pub websocket_write_back : Option ℕ → Option Text → Option ℕ → M Flags (Option ℕ)
websocket_write_back none str n = pure none
websocket_write_back (some wsi) none n = pure none
websocket_write_back (some wsi) (some str) n = do
  modify (λ s. record s { log = str ∷ s.log })
  pure n

unfoldable pub ws_service_callback : Option ℕ → Option ℕ → Reason → M Flags ℕ
unfolding websocket_write_back
ws_service_callback wsi n Reason.established = do set_connection true; pure 0
ws_service_callback wsi n Reason.connection_error = do set_destroy; set_connection false; pure 0
ws_service_callback wsi n Reason.closed = do set_destroy; set_connection false; pure 0
ws_service_callback wsi n Reason.receive = do
  answered ← gets (λ s. s.writeable_flag)
  if answered then (do set_destroy; pure 0) else pure 0
ws_service_callback wsi n Reason.writeable = do
  websocket_write_back wsi (some live_request) n
  modify (λ s. record s { writeable_flag = true })
  pure 0
ws_service_callback wsi n Reason.other = pure 0

unfoldable pub int_handler : M Flags ⊤
int_handler = set_destroy

-- What goes on while `main` is in its loop: a callback of its service, a look of the other thread at
-- `connection_flag`, and SIGINT.
pub data Turn : Type 0 where
  callback : Reason → Turn
  look sigint : Turn

-- A turn of the thread that greets the server once the connection stands: whether it has greeted.
unfoldable pub pthread_routine : Option ℕ → Option ℕ → Bool → M Flags Bool
unfolding websocket_write_back
pthread_routine wsi n true = pure true
pthread_routine wsi n false = do
  connected ← gets (λ s. s.connection_flag)
  if connected then (do websocket_write_back wsi (some status_request) n; pure true) else pure false

-- `while (!destroy_flag) lws_service(context, 50);`, with what goes on beside it.
unfoldable pub service_loop : Option ℕ → Option ℕ → Bool → List Turn → M Flags ⊤
unfolding int_handler pthread_routine
service_loop wsi n greeted [] = do
  destroyed ← gets (λ s. s.destroy_flag)
  if destroyed then pure tt else wait
service_loop wsi n greeted (callback r ∷ turns) = do
  destroyed ← gets (λ s. s.destroy_flag)
  if destroyed then pure tt else (do ws_service_callback wsi n r; service_loop wsi n greeted turns)
service_loop wsi n greeted (look ∷ turns) = do
  greeted ← pthread_routine wsi n greeted
  service_loop wsi n greeted turns
service_loop wsi n greeted (sigint ∷ turns) = do int_handler; service_loop wsi n greeted turns

-- `main`, by whether there is a context, and what `lws_client_connect` gives: -1 is `none`.
unfoldable pub main : Bool → Option ℕ → Option ℕ → List Turn → M Flags (Option ℕ)
unfolding service_loop
main false wsi n turns = pure none
main true none n turns = pure none
main true (some wsi) n turns = do service_loop (some wsi) n false turns; pure (some 0)
