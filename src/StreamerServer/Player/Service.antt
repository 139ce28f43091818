-- ===== src/StreamerServer/Player/Service.antt =====
-- PlayerServer.c: startPlyrSrvr, and its service loop. The set-up of the context's fields is left
-- out; what `lws_create_context` gives is an argument.
use live_streamer.Common.{
  ℕ, ◌≡◌, ◌≢◌, refl, List, [], ◌∷◌, Bool, true, false, Option, none, some, ⊤, if◌then◌else◌,
}
use live_streamer.Text.{Text}
use live_streamer.Machine.{M, Outcome, ok, fault, exited, waiting, pure, wait, next, ◌>>◌}
use live_streamer.Json.{Json}
use live_streamer.StreamerServer.State.{State}
use live_streamer.StreamerServer.Player.{Reason, ws_service_callback}

-- A call that `lws_service` makes of the callback.
pub record Service : Type 0 where
  pub wsi : Option ℕ
  pub reason : Reason
  pub text : Option Text

-- The copy of the flag that belongs to PlayerServer.c: it is static in Server.h, and nothing in
-- this file writes it.
unfoldable pub destroy_flag : Bool
destroy_flag = false

module _ {Obj : Type 0} ⦃j : Json Obj⦄ where
  -- `while (!destroy_flag) lws_service(context, 50);`
  unfoldable pub service_loop : (Text → Option ℕ) → List Service → M (State Obj) ⊤
  service_loop lws_write [] = if destroy_flag then pure tt else wait
  service_loop lws_write (e ∷ rest) =
      if destroy_flag
      then pure tt
      else (do ws_service_callback lws_write e.wsi e.reason e.text; service_loop lws_write rest)

  -- -1 (`none`) if there is no context, and 0 after the loop.
  unfoldable pub start_plyr_srvr :
      (Text → Option ℕ) → Bool → List Service → M (State Obj) (Option ℕ)
  start_plyr_srvr lws_write false services = pure none
  start_plyr_srvr lws_write true services = do service_loop lws_write services; pure (some 0)

  next_not_ok :
      {A B : Type 0} (f : A → M (State Obj) B) (r : Outcome A) (s : State Obj) (b : B)
      → ((a : A) → (f a s).0 ≢ ok b)
      → (next f r s).0 ≢ ok b
  next_not_ok f (ok a) s b h e = h a e
  next_not_ok f fault s b h e = cc
  next_not_ok f (exited n) s b h e = cc
  next_not_ok f waiting s b h e = cc

  service_loop_runs :
      (lws_write : Text → Option ℕ) (services : List Service) (s : State Obj)
      → (service_loop lws_write services s).0 ≢ ok tt
  unfolding service_loop destroy_flag
  service_loop_runs lws_write [] s e = cc
  service_loop_runs lws_write (c ∷ rest) s e =
      let m = ws_service_callback lws_write c.wsi c.reason c.text in
      next_not_ok (λ n. service_loop lws_write rest) (m s).0 (m s).1 tt
        (λ n. service_loop_runs lws_write rest (m s).1) e

  next_zero :
      (r : Outcome ⊤) (s : State Obj)
      → (next {B = Option ℕ} (λ u. pure (some 0)) r s).0 ≡ ok (some 0)
      → r ≡ ok tt
  next_zero (ok u) s e = refl
  next_zero fault s e = absurd cc
  next_zero (exited n) s e = absurd cc
  next_zero waiting s e = absurd cc

  -- The player server never returns from its loop, whatever the requests are and whatever
  -- main.c does with its own copy of the flag.
  pub start_plyr_srvr_runs :
      (lws_write : Text → Option ℕ) (created : Bool) (services : List Service) (s : State Obj)
      → (start_plyr_srvr lws_write created services s).0 ≢ ok (some 0)
  unfolding start_plyr_srvr
  start_plyr_srvr_runs lws_write false services s e = cc
  start_plyr_srvr_runs lws_write true services s e =
      let m = service_loop lws_write services in
      service_loop_runs lws_write services s (next_zero (m s).0 (m s).1 e)
