-- ===== src/StreamerClient.antt =====
-- StreamerClient/src: the program on the camera.
pub mod State
pub mod Comm
pub mod Client
