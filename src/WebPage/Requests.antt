-- ===== src/WebPage/Requests.antt =====
-- When the sketch answers a request, and when it never returns to its sensor.
use live_streamer.Common.{
  ltb, ◌∙◌, ℕ, ◌++◌, List, [], ◌∷◌, Bool, true, false, ◌&&◌, ◌||◌, some, ⊤, ◌≡◌, refl, ◌==◌,
  if◌then◌else◌, arith, Bool-cases, inl, inr,
}
use live_streamer.Text.{Text, codes}
use live_streamer.Machine.{Outcome, ok, waiting}
use live_streamer.WebPage.{
  calibration_page, Place, in_loop, in_calculate, in_calibration, on_answer, Shown, hash_map,
  newline, carriage_return, response, Poll, gone, silent, char, Serving, next_blank, request_loop,
  serve_page,
}

-- The bytes that come in before the client is gone, and whether it goes.
unfoldable pub heard : List Poll → Text
heard [] = []
heard (gone ∷ polls) = []
heard (silent ∷ polls) = heard polls
heard (char c ∷ polls) = c ∷ heard polls

unfoldable pub leaves : List Poll → Bool
leaves [] = false
leaves (gone ∷ polls) = true
leaves (silent ∷ polls) = leaves polls
leaves (char c ∷ polls) = leaves polls

-- A text without its carriage returns, and whether two newlines follow each other in it.
unfoldable pub strip : Text → Text
strip [] = []
strip (c ∷ t) = if c == carriage_return then strip t else c ∷ strip t

unfoldable pub has_blank_line : Text → Bool
has_blank_line [] = false
has_blank_line (a ∷ []) = false
has_blank_line (a ∷ b ∷ t) = (a == newline && b == newline) || has_blank_line (b ∷ t)

-- An HTTP request ends with a blank line, which may be its first.
unfoldable pub ends_request : Text → Bool
ends_request t = has_blank_line (newline ∷ strip t)

ends_from : Bool → Text → Bool
ends_from true t = ends_request t
ends_from false t = has_blank_line (strip t)

has_blank_line_skip :
    (c : ℕ) (t : Text) → (c == newline) ≡ false → has_blank_line (c ∷ t) ≡ has_blank_line t
unfolding has_blank_line
has_blank_line_skip c [] h = refl
has_blank_line_skip c (b ∷ t) h = rw h refl

blank_skip :
    (c : ℕ) (t : Text)
    → (c == newline) ≡ false
    → has_blank_line (newline ∷ c ∷ t) ≡ has_blank_line t
unfolding has_blank_line
blank_skip c t h = rw h (has_blank_line_skip c t h)

ends_from-newline :
    (blank : Bool) (t : Text) → ends_from blank (newline ∷ t) ≡ (blank || ends_from true t)
unfolding ends_from ends_request strip has_blank_line
ends_from-newline true t = refl
ends_from-newline false t = refl

next_blank_other :
    (c : ℕ) (blank : Bool)
    → (c == newline) ≡ false
    → next_blank c blank ≡ (if c == carriage_return then blank else false)
unfolding next_blank
next_blank_other c blank n = rw n

ends_from-other :
    (c : ℕ) (blank : Bool) (t : Text)
    → (c == newline) ≡ false
    → ends_from blank (c ∷ t) ≡ ends_from (next_blank c blank) t
unfolding ends_from ends_request strip next_blank
ends_from-other c true t n = elim (Bool-cases (c == carriage_return)) [
  | inl r ↦ rw (n, r)
  | inr r ↦ rw (n, r) (blank_skip c (strip t) n)
]
ends_from-other c false t n = elim (Bool-cases (c == carriage_return)) [
  | inl r ↦ rw (n, r)
  | inr r ↦ rw (n, r) (has_blank_line_skip c (strip t) n)
]

-- What a turn of the loop comes to, by whether the request has ended and the client is gone.
abbrev pub Served : List (Text × Text) → Bool → Bool → Serving → Outcome ⊤ → Serving → Type 0
Served entries ends left s o s' =
    (o ≡ (if ends || left then ok tt else waiting))
    × (s'.replies ≡ (if ends then response entries ∷ s.replies else s.replies))
    × (s'.stopped ≡ s.stopped)

on_answer_lem :
    (place : Place) (s : Serving)
    → ((on_answer place s).replies ≡ s.replies) × ((on_answer place s).stopped ≡ s.stopped)
unfolding on_answer
on_answer_lem in_loop s = (refl, refl)
on_answer_lem in_calculate s = ground arith
on_answer_lem in_calibration s = (refl, refl)

request_loop_lem :
    (place : Place) (entries : List (Text × Text)) (polls : List Poll) (s : Serving)
    → let (o, s') = request_loop place entries polls s in
      Served entries (ends_from s.current_line_is_blank (heard polls)) (leaves polls) s o s'
unfolding request_loop heard leaves ends_from ends_request strip has_blank_line
request_loop_lem place entries [] s = elim (Bool-cases s.current_line_is_blank) [
  | inl b ↦ rw b (refl, refl, refl)
  | inr b ↦ rw b (refl, refl, refl)
]
request_loop_lem place entries (gone ∷ polls) s = elim (Bool-cases s.current_line_is_blank) [
  | inl b ↦ rw b (refl, refl, refl)
  | inr b ↦ rw b (refl, refl, refl)
]
request_loop_lem place entries (silent ∷ polls) s = request_loop_lem place entries polls s
request_loop_lem place entries (char c ∷ polls) s = elim (Bool-cases (c == newline)) [
  | inl n ↦
      let e : c ≡ newline = ground arith in
      let s' = record s { received = s.received ++ newline ∷ []; current_line_is_blank = true } in
      elim (Bool-cases s.current_line_is_blank) [
        | inl b ↦
            let replied = record s' { replies = response entries ∷ s.replies } in
            let (replies, stopped) = on_answer_lem place replied in
            rw (e, ends_from-newline s.current_line_is_blank (heard polls), b)
              (refl, replies, stopped)
        | inr b ↦
            rw (e, ends_from-newline s.current_line_is_blank (heard polls), b)
              (request_loop_lem place entries polls s')
      ]
  | inr n ↦
      let s' = record s {
        received = s.received ++ c ∷ [];
        current_line_is_blank = if c == carriage_return then s.current_line_is_blank else false;
      } in
      rw
        (
          n,
          ends_from-other c s.current_line_is_blank (heard polls) n,
          next_blank_other c s.current_line_is_blank n,
        )
        (request_loop_lem place entries polls s')
]

-- At each of the three places, a client of the page gets the page, once, exactly if a blank line comes in before it is gone, be
-- its lines ended by a newline or a carriage return and a newline. The sketch then stops the
-- client, as it does if the client goes without a request. For a client that stays and sends no
-- blank line, the sketch never comes back: neither the client is stopped nor the sensor read.
pub serve_page_lem :
    (place : Place) (v : Shown) (polls : List Poll) (s : Serving)
    → let (o, s') = serve_page place v (some polls) s in
      let ends = ends_request (heard polls) in
      let returns = ends || leaves polls in
      (o ≡ (if returns then ok tt else waiting))
      × (s'.replies ≡ (if ends then response (hash_map place v) ∷ s.replies else s.replies))
      × (s'.stopped ≡ (if returns then true else s.stopped))
unfolding serve_page ends_from
serve_page_lem place v polls s =
    let begun = record s { current_line_is_blank = true } in
    let (o, replied, stopped) = request_loop_lem place (hash_map place v) polls begun in
    elim (Bool-cases (ends_request (heard polls) || leaves polls)) [
      | inl r ↦ rw (o, r) (refl, replied, refl)
      | inr r ↦ rw (o, r) (refl, replied, stopped)
    ]

-- From the thirty-first round of a calibration on, a request gets a page with the alarm for a
-- broken system.
calibration_page_lem :
    (count5 : ℕ) (v : Shown) (polls : List Poll) (s : Serving)
    → ltb 30 count5 ≡ true
    → ends_request (heard polls) ≡ true
    → let (o, s') = calibration_page count5 v (some polls) s in
      let alarmed = record v { system_mal = codes "1"; system_perfect = codes "0" } in
      (o ≡ ok tt) × (s'.replies ≡ response (hash_map in_calibration alarmed) ∷ s.replies)
unfolding calibration_page
calibration_page_lem count5 v polls s late asked =
    let alarmed = record v { system_mal = codes "1"; system_perfect = codes "0" } in
    let (o, replies, _) =
      serve_page_lem in_calibration alarmed polls
        (record s { system_mal = true; system_perfect = false }) in
    rw late (o ∙ rw asked, replies ∙ rw asked)
