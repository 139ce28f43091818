-- ===== src/Sockets/Listen.antt =====
-- The loop of a server that accepts connections and starts a thread for each: the start function
-- that StreamerServer, OTAServer and the servers of TCPServer have each a copy of.
use live_streamer.Common.{ℕ, List, [], ◌∷◌, Bool, Option, none, some, ⊤, if◌then◌else◌}
use live_streamer.Machine.{M, pure, exit, wait, modify, ◌>>◌}

-- What the calls before the loop give: `none` and `false` stand for -1.
pub record Setup : Type 0 where
  pub socket : Option ℕ
  pub setsockopt : Bool
  pub bind : Bool
  pub listen : Bool

-- What the calls in one turn of the loop give.
pub record Arrival : Type 0 where
  pub accept : Option ℕ
  pub malloc : Bool
  pub pthread_create : Bool

-- The state is the list of the sockets that threads were started with, newest first.
abbrev pub Threads : Type 0
Threads = List ℕ

abbrev pub start_thread : ℕ → M Threads ⊤
start_thread fd = modify (λ t. fd ∷ t)

-- One turn: an `accept` that fails is passed over.
unfoldable pub serve_arrival : Arrival → M Threads ⊤
serve_arrival a = elim a.accept [
  | none ↦ pure tt
  | some fd ↦ if a.malloc then (if a.pthread_create then start_thread fd else exit 1) else exit 1
]

-- `while (TRUE)`, over what the calls give in each turn.
unfoldable pub accept_loop : List Arrival → M Threads ⊤
accept_loop [] = wait
accept_loop (a ∷ rest) = do serve_arrival a; accept_loop rest

unfoldable pub start_server : Setup → List Arrival → M Threads ⊤
unfolding accept_loop
start_server u arrivals = elim u.socket [
  | none ↦ exit 1
  | some sockfd ↦
      if u.setsockopt
      then (if u.bind then (if u.listen then accept_loop arrivals else exit 1) else exit 1)
      else exit 1
]
