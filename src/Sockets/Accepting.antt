-- ===== src/Sockets/Accepting.antt =====
-- Which connections get a thread.
use live_streamer.Common.{
  ℕ, ◌≡◌, ◌≢◌, refl, List, [], ◌∷◌, ◌++◌, true, false, ◌&&◌, Option, none, some, ⊤, arith, ◌∙◌,
}
use live_streamer.Machine.{waiting, exited, ok}
use live_streamer.Sockets.Listen.{Setup, Arrival, Threads, serve_arrival, accept_loop, start_server}

-- The connection of a turn, if there is one, in front of others.
abbrev pub joined : Option ℕ → Threads → Threads
joined none t = t
joined (some fd) t = fd ∷ t

-- The connections among the arrivals, newest first, in front of others.
unfoldable pub onto : List Arrival → Threads → Threads
onto [] t = t
onto (a ∷ rest) t = onto rest (joined a.accept t)

-- A thread can be made for the connection of a turn.
abbrev pub Serves : Arrival → Type 0
Serves a = a.accept ≢ none → (a.malloc && a.pthread_create) ≡ true

abbrev pub AllServe : List Arrival → Type 0
AllServe [] = ⊤
AllServe (a ∷ rest) = Serves a × AllServe rest

-- All the calls before the loop succeed.
abbrev pub IsSetUp : Setup → Type 0
IsSetUp u = (u.socket ≢ none) × (u.setsockopt ≡ true) × (u.bind ≡ true) × (u.listen ≡ true)

serve_arrival_lem :
    (a : Arrival) (t : Threads) → Serves a → serve_arrival a t ≡ (ok tt, joined a.accept t)
unfolding serve_arrival
serve_arrival_lem a t h = ground arith

serve_arrival_fails :
    (a : Arrival) (t : Threads)
    → a.accept ≢ none
    → (a.malloc && a.pthread_create) ≡ false
    → serve_arrival a t ≡ (exited 1, t)
unfolding serve_arrival
serve_arrival_fails a t h e = ground arith

pub accept_loop_lem :
    (arrivals : List Arrival) (t : Threads)
    → AllServe arrivals
    → accept_loop arrivals t ≡ (waiting, onto arrivals t)
unfolding accept_loop onto
accept_loop_lem [] t h = refl
accept_loop_lem (a ∷ rest) t h =
    rw (serve_arrival_lem a t h.0) (accept_loop_lem rest (joined a.accept t) h.1)

accept_loop_fails :
    (before : List Arrival) (a : Arrival) (after : List Arrival) (t : Threads)
    → AllServe before
    → a.accept ≢ none
    → (a.malloc && a.pthread_create) ≡ false
    → accept_loop (before ++ a ∷ after) t ≡ (exited 1, onto before t)
unfolding accept_loop onto
accept_loop_fails [] a after t h e f = rw (serve_arrival_fails a t e f)
accept_loop_fails (b ∷ before) a after t h e f =
    rw (serve_arrival_lem b t h.0) (accept_loop_fails before a after (joined b.accept t) h.1 e f)

start_server_loops :
    (u : Setup) (arrivals : List Arrival) (t : Threads)
    → IsSetUp u
    → start_server u arrivals t ≡ accept_loop arrivals t
unfolding start_server
start_server_loops u arrivals t h = ground arith

-- If every call before the loop succeeds and a thread can be made for each connection, every
-- connection that `accept` gives gets a thread, and the server goes on waiting.
pub start_server_serves :
    (u : Setup) (arrivals : List Arrival) (t : Threads)
    → IsSetUp u
    → AllServe arrivals
    → start_server u arrivals t ≡ (waiting, onto arrivals t)
start_server_serves u arrivals t h k =
    start_server_loops u arrivals t h ∙ accept_loop_lem arrivals t k

-- The first connection that no thread can be made for ends the whole process with the status 1,
-- and the threads that run are those of the connections before it.
pub start_server_ends :
    (u : Setup) (before : List Arrival) (a : Arrival) (after : List Arrival) (t : Threads)
    → IsSetUp u
    → AllServe before
    → a.accept ≢ none
    → (a.malloc && a.pthread_create) ≡ false
    → start_server u (before ++ a ∷ after) t ≡ (exited 1, onto before t)
start_server_ends u before a after t h k e f =
    start_server_loops u (before ++ a ∷ after) t h ∙ accept_loop_fails before a after t k e f
