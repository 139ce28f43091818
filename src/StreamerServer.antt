-- ===== src/StreamerServer.antt =====
-- StreamerServer/src: the server between the cameras (streamers) and the players.
pub mod State
pub mod Json
pub mod Comm
pub mod Player
pub mod Threads
pub mod Trigger
pub mod Registry
