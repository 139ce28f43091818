-- ===== src/EchoServer.antt =====
-- ws/server/src/PlayerServer.c: a websocket server that writes each message back. What stands in
-- memory at `in`, the message and what follows it, is a list of bytes.
pub mod Echoes
use live_streamer.Common.{
  ℕ, List, [], ◌∷◌, Bool, true, false, Option, none, some, ⊤, if◌then◌else◌, length, take, ltb,
}
use live_streamer.Common.Int.{ℤ, pos, negsuc}
use live_streamer.Text.{Text, c_string}
use live_streamer.Machine.{M, pure, crash, wait, gets, modify, ◌>>=◌, ◌>>◌}

pub record State : Type 0 where
  pub destroy_flag : Bool
  -- The texts that were handed to `lws_write`, newest first.
  pub log : List Text

-- The callback reasons that are told apart.
pub data Reason : Type 0 where
  established receive closed other : Reason

unfoldable pub int_handler : M State ⊤
int_handler = modify (λ s. record s { destroy_flag = true })

-- `len`: the third argument, or `strlen(str)` if it is less than 1
unfoldable pub length_to_send : List ℕ → ℤ → ℕ
length_to_send str (negsuc n) = length (c_string str)
length_to_send str (pos n) = if ltb n 1 then length (c_string str) else n

-- -1 for a NULL argument, and otherwise what `lws_write` gives, the last argument here.
unfoldable pub websocket_write_back : Option ℕ → Option (List ℕ) → ℤ → ℤ → M State ℤ
unfolding length_to_send
websocket_write_back none str size n = pure (negsuc 0)
websocket_write_back (some wsi) none size n = pure (negsuc 0)
websocket_write_back (some wsi) (some str) size n = do
  modify (λ s. record s { log = take (length_to_send str size) str ∷ s.log })
  pure n

-- `printf` of a NULL `in` is a fault, like every other use of a NULL text.
unfoldable pub ws_service_callback : Option ℕ → ℤ → Reason → Option (List ℕ) → M State ℕ
ws_service_callback wsi n Reason.established str = pure 0
ws_service_callback wsi n Reason.receive none = crash
ws_service_callback wsi n Reason.receive (some str) = do
  websocket_write_back wsi (some str) (negsuc 0) n
  pure 0
ws_service_callback wsi n Reason.closed str = pure 0
ws_service_callback wsi n Reason.other str = pure 0

-- What happens to the process while it waits in `lws_service`.
pub data Event : Type 0 where
  sigint : Event
  callback : Reason → Option (List ℕ) → Event

-- `while (!destroy_flag) lws_service(context, 50);`
unfoldable pub service_loop : Option ℕ → ℤ → List Event → M State ⊤
service_loop wsi n [] = do
  destroyed ← gets (λ s. s.destroy_flag)
  if destroyed then pure tt else wait
service_loop wsi n (Event.sigint ∷ es) = do
  destroyed ← gets (λ s. s.destroy_flag)
  if destroyed then pure tt else (do int_handler; service_loop wsi n es)
service_loop wsi n (Event.callback r str ∷ es) = do
  destroyed ← gets (λ s. s.destroy_flag)
  if destroyed then pure tt else (do ws_service_callback wsi n r str; service_loop wsi n es)

-- The exit status, where `created` says whether `lws_create_context` gives a context.
unfoldable pub main : Bool → Option ℕ → ℤ → List Event → M State ℤ
main false wsi n es = pure (negsuc 0)
main true wsi n es = do service_loop wsi n es; pure (pos 0)
