-- ===== src/StreamerServer/Threads.antt =====
-- StreamerServer/src/srvrComm.c: the threads of several connections on the same globals.
use live_streamer.Common.{ℕ, ◌≡◌, refl, ap, ◌∙◌, ◌⊎◌, false, inl, inr, subst, sym, List, [], ◌∷◌}
use live_streamer.Json.{Json}
use live_streamer.Sockets.{Recv}
use live_streamer.StreamerServer.State.{State, Event, sent}
use live_streamer.StreamerServer.Comm.{thread_main, receive, client_comm}
use live_streamer.StreamerServer.Comm.Directed.{receive-Directed}

-- A log that grew by messages to one socket only.
pub data Sends (fd : ℕ) (l : List Event) : List Event → Type 0 where
  nothing : Sends fd l l
  more : {l' : List Event} {bs : List ℕ} → Sends fd l l' → Sends fd l (sent fd bs ∷ l')

Sends-next :
    {fd fd' : ℕ} {l l' l'' : List Event} {bs : List ℕ}
    → Sends fd l l'
    → fd' ≡ fd
    → (l'' ≡ l') ⊎ (l'' ≡ sent fd' bs ∷ l')
    → Sends fd l l''
Sends-next {l = l} h e (inl k) = subst (Sends _ l) (sym k) h
Sends-next {l = l} {l' = l'} {bs = bs} h e (inr k) =
    subst (Sends _ l) (sym (k ∙ ap (λ x. sent x bs ∷ l') e)) (more h)

module _ {Obj : Type 0} ⦃j : Json Obj⦄ where
  -- A new thread, up to its first `recv`.
  abbrev pub entered : ℕ → State Obj → State Obj
  entered fd s = (thread_main fd [] s).1

  -- The calls of `receive` that the running threads make, in the order in which they end.
  pub data Hears : State Obj → State Obj → Type 0 where
    start : (s : State Obj) → Hears s s
    hear : (r : Recv) {s s' : State Obj} → Hears s s' → Hears s (receive r s').1

  hears_lem :
      {s s' : State Obj}
      → Hears s s'
      → (s'.clnt_sock ≡ s.clnt_sock) × Sends s.clnt_sock s.log s'.log
  hears_lem (start s) = (refl, nothing)
  hears_lem (hear r {s} {s'} h) =
      let (e, k) = hears_lem h in
      let (e', k') = receive-Directed r s' in (e' ∙ e, Sends-next k e k')

  entered_twice :
      (first second : ℕ) (s : State Obj)
      → entered second (entered first s) ≡ record s { clnt_sock = second; ack = false }
  unfolding thread_main client_comm
  entered_twice first second s = refl

  -- Once a second connection has its thread, every answer goes to that connection, whichever of
  -- the two threads makes it and whatever the messages are.
  pub answers_newest :
      (first second : ℕ) (s s' : State Obj)
      → Hears (entered second (entered first s)) s'
      → Sends second s.log s'.log
  answers_newest first second s s' h =
      subst (λ x. Sends x.clnt_sock x.log s'.log) (entered_twice first second s) (hears_lem h).1
