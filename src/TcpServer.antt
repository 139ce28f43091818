-- ===== src/TcpServer.antt =====
-- TCPServer/src: the forerunner of StreamerServer. Its three servers, for streamers, players and
-- updates, are copies of one another that differ in the port; Streamer is the one with the bodies.
pub mod Streamer
pub mod Player
pub mod Ota
use live_streamer.Common.{List, [], ◌∷◌}

-- The start functions of the three servers.
pub data Server : Type 0 where
  ota streamer player : Server

-- main.c: the functions of the three threads. Two of the names are swapped.
unfoldable pub thread_ota : Server
thread_ota = Server.ota

unfoldable pub thread_streamer : Server
thread_streamer = Server.player

unfoldable pub thread_player : Server
thread_player = Server.streamer

-- The threads that `main` creates, in order.
unfoldable pub main : List Server
unfolding thread_ota thread_streamer thread_player
main = thread_ota ∷ thread_streamer ∷ thread_player ∷ []
