-- ===== src/Sockets.antt =====
-- The socket calls that the programs share: what `recv` gives, and how a client connects.
pub mod Listen
pub mod Accepting
use live_streamer.Text.{Text}
use live_streamer.Common.{ℕ, List, Option, none, some, Bool, false, if◌then◌else◌}

-- What a `recv` call gives: an error (-1), or the bytes that it copied.
pub data Recv : Type 0 where
  failed : Recv
  bytes : List ℕ → Recv

-- What `gethostbyname`, `socket` and `connect` give in one attempt to connect; `none` is -1.
pub record Attempt : Type 0 where
  pub host_known : Text → Bool
  pub socket : Option ℕ
  pub connects : Bool

-- The calls of `socket` and `connect`.
unfoldable pub open_socket : Option ℕ → Bool → Option ℕ × Bool
open_socket none connects = (none, false)
open_socket (some fd) connects = (some fd, connects)

-- `connect2Client`: the value of `srvrSock` afterwards, and whether it returned 0. The host is
-- looked up first, so that an unknown one leaves the old socket.
unfoldable pub connect_to_client : Attempt → Text → Option ℕ → Option ℕ × Bool
unfolding open_socket
connect_to_client a srvr_ip srvr_sock =
    if a.host_known srvr_ip then open_socket a.socket a.connects else (srvr_sock, false)
