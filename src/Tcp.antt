-- ===== src/Tcp.antt =====
-- TCPClient and the streamer server of TCPServer together: the one exchange of a connection.
pub mod Exchange
use live_streamer.Common.{ℕ, ⊤}
use live_streamer.Machine.{M, gets, modify, ◌>>=◌, ◌>>◌}
use live_streamer.Json.{Json}
use live_streamer.Sockets.{bytes}
use live_streamer.Endpoint.{close_socket}
use live_streamer.Endpoint.Link.{Link, on_server, on_client, newest_sent, started}
use live_streamer.TcpServer.Streamer.{greet, part}
use live_streamer.TcpClient.{sig_ready, receive}

module _ {Obj : Type 0} ⦃j : Json Obj⦄ where
  -- The client reports that it is ready, the server asks for a live stream, and the client
  -- answers with its new status.
  unfoldable pub exchange : ℕ → ℕ → M (Link Obj) ⊤
  unfolding newest_sent close_socket
  exchange client_fd server_fd = do
    on_client (modify (started client_fd))
    on_client sig_ready
    report ← gets (λ l. newest_sent l.client.log)
    on_server (greet server_fd (bytes report))
    action ← gets (λ l. newest_sent l.server.log)
    on_client (receive (bytes action))
    answer ← gets (λ l. newest_sent l.client.log)
    on_server (part (bytes answer))
    on_client close_socket
