-- ===== src/Ota.antt =====
-- OTAServer and OTAClient together: one run of the client, whose request reaches the server and
-- whose answer reaches the client, one `recv` for one `send`.
pub mod Texts
pub mod Update
use live_streamer.Common.{ℕ, List, [], ◌∷◌, Option, none, some, ⊤, replicate}
use live_streamer.Buffer.{max_data_size}
use live_streamer.Machine.{M, gets, modify, ◌>>=◌, ◌>>◌}
use live_streamer.Json.{Json}
use live_streamer.Sockets.{bytes}
use live_streamer.Endpoint.Link.{Link, on_server, on_client, newest_sent, started}
use live_streamer.OtaServer.{handle_tcp_client}
use live_streamer.OtaClient.{sig_check_update, receive}

module _ {Obj : Type 0} ⦃j : Json Obj⦄ where
  unfoldable pub check : ℕ → ℕ → M (Link Obj) ⊤
  unfolding newest_sent
  check client_fd server_fd = do
    on_client (modify (started client_fd))
    on_client sig_check_update
    request ← gets (λ o. newest_sent o.client.log)
    on_server (handle_tcp_client server_fd (bytes request))
    answer ← gets (λ o. newest_sent o.server.log)
    on_client (receive (bytes answer))
