-- ===== src/WsClient/Ends.antt =====
-- When the client ends, and with what.
use live_streamer.Common.{
  ℕ, ◌≡◌, refl, ap, ◌∙◌, List, [], ◌∷◌, Bool, true, false, ◌&&◌, ◌||◌, Option, none, some,
  if◌then◌else◌, Bool-cases, inl, inr,
}
use live_streamer.Machine.{ok, waiting}
use live_streamer.WsClient.{
  Flags, Reason, Turn, callback, look, sigint, ws_service_callback, websocket_write_back,
  pthread_routine, int_handler, service_loop, main,
}

abbrev pub is_some : Option ℕ → Bool
is_some none = false
is_some (some n) = true

-- Whether a callback ends the loop, by whether the client has written its request.
unfoldable pub ends_by : Bool → Reason → Bool
ends_by written Reason.connection_error = true
ends_by written Reason.closed = true
ends_by written Reason.receive = written
ends_by written Reason.established = false
ends_by written Reason.writeable = false
ends_by written Reason.other = false

unfoldable pub writes : Reason → Bool
writes Reason.writeable = true
writes _ = false

unfoldable pub ends_in : Bool → List Turn → Bool
ends_in written [] = false
ends_in written (callback r ∷ turns) =
    let rest = ends_in (writes r || written) turns in if ends_by written r then true else rest
ends_in written (look ∷ turns) = ends_in written turns
ends_in written (sigint ∷ turns) = true

-- The flags that a turn of the thread leaves alone.
abbrev SameFlags : Flags → Flags → Type 0
SameFlags s s' = (s'.destroy_flag ≡ s.destroy_flag) × (s'.writeable_flag ≡ s.writeable_flag)

pthread_routine_lem :
    (wsi n : Option ℕ) (greeted : Bool) (s : Flags)
    → let (o, s') = pthread_routine wsi n greeted s in (g : Bool) × (o ≡ ok g) × SameFlags s s'
unfolding pthread_routine websocket_write_back
pthread_routine_lem wsi n true s = (true, refl, (refl, refl))
pthread_routine_lem none n false s = elim (Bool-cases s.connection_flag) [
  | inl c ↦ simp c (true, refl, (refl, refl))
  | inr c ↦ simp c (false, refl, (refl, refl))
]
pthread_routine_lem (some wsi) n false s = elim (Bool-cases s.connection_flag) [
  | inl c ↦ simp c (true, refl, (refl, refl))
  | inr c ↦ simp c (false, refl, (refl, refl))
]

ws_service_callback_lem :
    (wsi n : Option ℕ) (r : Reason) (s : Flags)
    → s.destroy_flag ≡ false
    → let (o, s') = ws_service_callback wsi n r s in
      (o ≡ ok 0)
      × (s'.destroy_flag ≡ ends_by s.writeable_flag r)
      × (s'.writeable_flag ≡ (writes r || s.writeable_flag))
unfolding ws_service_callback websocket_write_back ends_by writes
ws_service_callback_lem wsi n Reason.established s d = (refl, d, refl)
ws_service_callback_lem wsi n Reason.connection_error s d = (refl, refl, refl)
ws_service_callback_lem wsi n Reason.closed s d = (refl, refl, refl)
ws_service_callback_lem wsi n Reason.receive s d = elim (Bool-cases s.writeable_flag) [
  | inl w ↦ simp w (refl, refl, refl)
  | inr w ↦ simp w (refl, d, refl)
]
ws_service_callback_lem none n Reason.writeable s d = (refl, d, refl)
ws_service_callback_lem (some wsi) n Reason.writeable s d = (refl, d, refl)
ws_service_callback_lem wsi n Reason.other s d = (refl, d, refl)

service_loop_destroyed :
    (wsi n : Option ℕ) (greeted : Bool) (turns : List Turn) (s : Flags)
    → s.destroy_flag ≡ true
    → (service_loop wsi n greeted turns s).0 ≡ ok tt
unfolding service_loop int_handler
service_loop_destroyed wsi n greeted [] s d = simp d
service_loop_destroyed wsi n greeted (callback r ∷ turns) s d = simp d
service_loop_destroyed wsi n greeted (look ∷ turns) s d =
    let (g, o, (kept, _)) = pthread_routine_lem wsi n greeted s in
    rw o (service_loop_destroyed wsi n g turns (pthread_routine wsi n greeted s).1 (kept ∙ d))
service_loop_destroyed wsi n greeted (sigint ∷ turns) s d =
    service_loop_destroyed wsi n greeted turns (int_handler s).1 refl

service_loop_lem :
    (wsi n : Option ℕ) (greeted : Bool) (turns : List Turn) (s : Flags)
    → s.destroy_flag ≡ false
    → (service_loop wsi n greeted turns s).0
      ≡ (if ends_in s.writeable_flag turns then ok tt else waiting)
unfolding service_loop ends_in int_handler
service_loop_lem wsi n greeted [] s d = simp d
service_loop_lem wsi n greeted (callback r ∷ turns) s d =
    let (o, ended, written) = ws_service_callback_lem wsi n r s d in
    let s' = (ws_service_callback wsi n r s).1 in
    elim (Bool-cases (ends_by s.writeable_flag r)) [
      | inl e ↦ simp (d, o, e) (service_loop_destroyed wsi n greeted turns s' (ended ∙ e))
      | inr e ↦
          simp (d, o, e)
            (service_loop_lem wsi n greeted turns s' (ended ∙ e)
              ∙ ap (λ w. if ends_in w turns then ok tt else waiting) written)
    ]
service_loop_lem wsi n greeted (look ∷ turns) s d =
    let (g, o, (kept, written)) = pthread_routine_lem wsi n greeted s in
    rw o (
      service_loop_lem wsi n g turns (pthread_routine wsi n greeted s).1 (kept ∙ d)
      ∙ ap (λ w. if ends_in w turns then ok tt else waiting) written)
service_loop_lem wsi n greeted (sigint ∷ turns) s d =
    service_loop_destroyed wsi n greeted turns (int_handler s).1 refl

-- `main` gives -1 at once without a context or a connection. Otherwise, from a start with no flag
-- set, it gives 0 exactly if SIGINT comes in, the connection breaks, or a message comes in after
-- the first moment at which the client could write; and else it goes on waiting, whenever and
-- however often the other thread takes its turn.
pub main-ends_in :
    (created : Bool) (wsi n : Option ℕ) (turns : List Turn) (s : Flags)
    → s.destroy_flag ≡ false
    → s.writeable_flag ≡ false
    → (main created wsi n turns s).0 ≡ (
        if created && is_some wsi
        then (if ends_in false turns then ok (some 0) else waiting)
        else ok none)
unfolding main
main-ends_in false wsi n turns s d w = refl
main-ends_in true none n turns s d w = refl
main-ends_in true (some wsi) n turns s d w =
    let loop = service_loop_lem (some wsi) n false turns s d in
    elim (Bool-cases (ends_in false turns)) [ inl e ↦ rw (loop, w, e) | inr e ↦ rw (loop, w, e) ]
