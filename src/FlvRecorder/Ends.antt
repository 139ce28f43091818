-- ===== src/FlvRecorder/Ends.antt =====
-- Backup/Streamer/src/flv.c: how a run of the recorder ends.
use live_streamer.Common.{
  ℕ, ◌+◌, ◌≡◌, ◌≢◌, refl, ap, ◌∙◌, List, [], ◌∷◌, Bool, true, false, ◌&&◌, Option, some, ⊤,
  if◌then◌else◌, arith, Bool-cases, inl, inr,
}
use live_streamer.Text.{Text, codes}
use live_streamer.Machine.{Outcome, ok, exited, waiting, M, pure, ◌>>◌}
use live_streamer.Json.{Json, get_string}
use live_streamer.Streaming.{Pointer, nowhere, alive, freed, used, dropped}
use live_streamer.Streaming.Control.{eos, error, info, other}
use live_streamer.FlvRecorder.{
  Gst, Recorder, initialize, set_prop, has_all, pipeline, tee, q_local, q_live,
}
use live_streamer.FlvRecorder.Run.{
  Happening, message, sigint, set_tee, link_all, stop, main_loop, play, main,
}

-- How the main loop ends, by whether the next SIGINT is the first.
unfoldable pub loop_end : Bool → List Happening → Outcome ⊤
loop_end first [] = waiting
loop_end first (message eos ∷ rest) = ok tt
loop_end first (message error ∷ rest) = ok tt
loop_end first (message info ∷ rest) = ok tt
loop_end first (message other ∷ rest) = loop_end first rest
loop_end first (sigint ∷ rest) = if first then ok tt else exited 0

-- How `main` ends, by how its loop ends.
pub main_end : Outcome ⊤ → Outcome ℕ
main_end (ok u) = ok 0
main_end Outcome.fault = Outcome.fault
main_end (exited n) = exited n
main_end waiting = waiting

-- The uses of the pipeline after it was freed in a whole run.
pub late_uses : Gst → ℕ
late_uses g =
    if g.has_template then (if g.pads_link q_local && g.pads_link q_live then 0 else 3) else 5

-- Where the pipeline stands when the main loop starts.
pub linked : Gst → Pointer
linked g = if g.has_template && (g.pads_link q_local && g.pads_link q_live) then alive else freed

-- The uses of a freed pipeline in `stop`, and in `setTee` and `linkAll`.
stop_uses : Pointer → ℕ
stop_uses nowhere = 0
stop_uses alive = 0
stop_uses freed = 2

link_uses : Gst → ℕ
link_uses g = if g.has_template then 0 else 2

late_uses_lem :
    (g : Gst) (n : ℕ) → used (linked g) (n + link_uses g) + stop_uses (linked g) ≡ n + late_uses g
unfolding linked link_uses stop_uses late_uses used
late_uses_lem g n = ground arith

dropped-linked : (g : Gst) → dropped (linked g) ≡ freed
unfolding linked dropped
dropped-linked g = ground arith

module _ {Obj : Type 0} ⦃j : Json Obj⦄ where
  abbrev pub read_property : Recorder Obj → Text → Option Text
  read_property r key = get_string r.properties key

  abbrev SameRun : Recorder Obj → Recorder Obj → Type 0
  SameRun r r' =
      (r'.properties ≡ r.properties) × (r'.first_int ≡ r.first_int) × (r'.freed_uses ≡ r.freed_uses)

  initialize_lem :
      (g : Gst) (r : Recorder Obj)
      → g.makes pipeline ≡ true
      → let (o, r') = initialize g r in
        (o ≡ ok (has_all g)) × SameRun r r' × (r'.pipeline_at ≡ alive)
  unfolding initialize
  initialize_lem g r made = rw made (refl, (refl, refl, refl), refl)

  set_prop_lem :
      (g : Gst) (r : Recorder Obj) (location ip app id : Text)
      → r.pipeline_at ≡ alive
      → read_property r (codes "location") ≡ some location
      → read_property r (codes "serverIp") ≡ some ip
      → read_property r (codes "serverApp") ≡ some app
      → read_property r (codes "streamId") ≡ some id
      → let (o, r') = set_prop g r in (o ≡ ok tt) × SameRun r r' × (r'.pipeline_at ≡ alive)
  unfolding set_prop used
  set_prop_lem g r location ip app id at has_location has_ip has_app has_id =
      rw (has_location, has_ip, has_app, has_id, at) (refl, (refl, refl, refl), refl)

  set_tee_lem :
      (g : Gst) (r : Recorder Obj)
      → r.pipeline_at ≡ alive
      → g.makes tee ≡ true
      → let (o, r') = set_tee g r in
        (o ≡ ok g.has_template)
        × (r'.first_int ≡ r.first_int)
        × (r'.freed_uses ≡ r.freed_uses)
        × (r'.pipeline_at ≡ (if g.has_template then alive else freed))
  unfolding set_tee used dropped
  set_tee_lem g r at made = elim (Bool-cases g.has_template) [
    | inl t ↦ rw (made, t, at) (refl, refl, refl, refl)
    | inr t ↦ rw (made, t, at) (refl, refl, refl, refl)
  ]

  link_all_lem :
      (g : Gst) (r : Recorder Obj)
      → r.pipeline_at ≡ (if g.has_template then alive else freed)
      → let (o, r') = link_all g g.has_template r in
        (b : Bool) × (o ≡ ok b)
        × (r'.first_int ≡ r.first_int)
        × (r'.freed_uses ≡ r.freed_uses + link_uses g)
        × (r'.pipeline_at ≡ linked g)
  unfolding link_all used dropped linked link_uses
  link_all_lem g r at = elim (Bool-cases g.has_template) [
    | inl t ↦ elim (Bool-cases (g.pads_link q_local)) [
      | inl l ↦ elim (Bool-cases (g.pads_link q_live)) [
        | inl v ↦ rw (at, t, l, v) (true, refl, refl, omega arith, refl)
        | inr v ↦ rw (at, t, l, v) (false, refl, refl, omega arith, refl)
      ]
      | inr l ↦ rw (at, t, l) (false, refl, refl, omega arith, refl)
    ]
    | inr t ↦ rw (at, t) (false, refl, refl, omega arith, refl)
  ]

  stop_lem :
      (r : Recorder Obj)
      → let r' = (stop r).1 in
        (r'.freed_uses ≡ r.freed_uses + stop_uses r.pipeline_at)
        × (r'.pipeline_at ≡ dropped r.pipeline_at)
  unfolding stop used dropped stop_uses
  stop_lem r = ground arith

  -- The main loop and what follows it in `main`.
  abbrev last_part : List Happening → M (Recorder Obj) ℕ
  last_part hs = do main_loop hs; stop; pure 0

  -- In it `stop` runs once, in `main` or in the handler.
  loop_lem :
      (hs : List Happening) (r : Recorder Obj)
      → loop_end r.first_int hs ≢ waiting
      → let (o, r') = last_part hs r in
        (o ≡ main_end (loop_end r.first_int hs))
        × (r'.freed_uses ≡ r.freed_uses + stop_uses r.pipeline_at)
        × (r'.pipeline_at ≡ dropped r.pipeline_at)
  unfolding main_loop loop_end main_end stop
  loop_lem [] r ends = absurd (ends refl)
  loop_lem (message eos ∷ rest) r ends = (refl, (stop_lem r).0, (stop_lem r).1)
  loop_lem (message error ∷ rest) r ends = (refl, (stop_lem r).0, (stop_lem r).1)
  loop_lem (message info ∷ rest) r ends = (refl, (stop_lem r).0, (stop_lem r).1)
  loop_lem (message other ∷ rest) r ends = loop_lem rest r ends
  loop_lem (sigint ∷ rest) r ends = elim (Bool-cases r.first_int) [
    | inl first ↦ rw first (refl, (stop_lem r).0, (stop_lem r).1)
    | inr again ↦ rw again (refl, (stop_lem r).0, (stop_lem r).1)
  ]

  abbrev played_part : List Happening → M (Recorder Obj) ℕ
  played_part hs = do play hs; stop; pure 0

  play_lem :
      (hs : List Happening) (r : Recorder Obj)
      → loop_end r.first_int hs ≢ waiting
      → let (o, r') = played_part hs r in
        (o ≡ main_end (loop_end r.first_int hs))
        × (r'.freed_uses ≡ used r.pipeline_at r.freed_uses + stop_uses r.pipeline_at)
        × (r'.pipeline_at ≡ dropped r.pipeline_at)
  unfolding play
  play_lem hs r ends = loop_lem hs _ ends

  -- A run of the recorder whose pipeline and tee can be made, whose properties can be read, and
  -- whose main loop is ended by something. It never gives the -1 for a failure: whatever
  -- `initialize`, `setTee` and `linkAll` gave, it plays and ends as its main loop does, with 0, or
  -- by a second SIGINT. If there is no pad template, it uses the pipeline five times after it was
  -- freed; if a pad does not link, three times; and else never. In the end the pipeline is freed.
  pub main_lem :
      (g : Gst) (hs : List Happening) (r : Recorder Obj) (location ip app id : Text)
      → g.makes pipeline ≡ true
      → g.makes tee ≡ true
      → read_property r (codes "location") ≡ some location
      → read_property r (codes "serverIp") ≡ some ip
      → read_property r (codes "serverApp") ≡ some app
      → read_property r (codes "streamId") ≡ some id
      → loop_end r.first_int hs ≢ waiting
      → let (o, r') = main g hs r in
        (o ≡ main_end (loop_end r.first_int hs))
        × (r'.freed_uses ≡ r.freed_uses + late_uses g)
        × (r'.pipeline_at ≡ freed)
  unfolding main
  main_lem g hs r location ip app id made made_tee has_location has_ip has_app has_id ends =
      let (o1, (p1, f1, u1), at1) = initialize_lem g r made in
      let r1 = (initialize g r).1 in
      let (o2, (p2, f2, u2), at2) =
        set_prop_lem g r1 location ip app id at1 (rw p1 has_location) (rw p1 has_ip) (rw p1 has_app)
          (rw p1 has_id) in
      let r2 = (set_prop g r1).1 in
      let (o3, f3, u3, at3) = set_tee_lem g r2 at2 made_tee in
      let r3 = (set_tee g r2).1 in
      let (b, o4, f4, u4, at4) = link_all_lem g r3 at3 in
      let r4 = (link_all g g.has_template r3).1 in
      let same : r4.first_int ≡ r.first_int = f4 ∙ f3 ∙ f2 ∙ f1 in
      let count : r4.freed_uses ≡ r.freed_uses + link_uses g = omega (arith, u1, u2, u3, u4) in
      let (o5, u5, at5) = play_lem hs r4 (rw same ends) in
      rw (o1, o2, o3, o4)
        (
          o5 ∙ ap (λ first. main_end (loop_end first hs)) same,
          u5 ∙ rw (at4, count) (late_uses_lem g r.freed_uses),
          at5 ∙ rw at4 (dropped-linked g),
        )
