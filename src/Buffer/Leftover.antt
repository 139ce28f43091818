-- ===== src/Buffer/Leftover.antt =====
-- A text put into an array that was not cleared: old bytes stay behind its NUL, and are sent too.
use live_streamer.Common.{
  ℕ, zero, suc, ◌-◌, ◌≤◌, ◌<◌, ◌≡◌, refl, ap, ◌∙◌, List, [], ◌∷◌, ◌++◌, arith, length, take,
  length-take, length-set, take_all, replicate,
}
use live_streamer.Text.{Text, IsCString, c_string}
use live_streamer.Buffer.{Buffer, max_data_size, overwrite, store, snprintf, memset, copy_in}
use live_streamer.Buffer.Frames.{max_data_size_lem, length-overwrite}

-- The array with the text, and the bytes of it that `send` hands over.
abbrev pub printed : Text → Buffer → Buffer
printed t buf = store max_data_size 0 (snprintf max_data_size t buf)

abbrev pub wire : Text → Buffer → List ℕ
wire t buf = take (max_data_size - 1) (printed t buf).cells

c_string-leftover :
    (n : ℕ) (t : Text) (cs : List ℕ)
    → IsCString t
    → length t ≤ n
    → length t < length cs
    → c_string (take n (overwrite cs (t ++ 0 ∷ []))) ≡ t
unfolding c_string overwrite
c_string-leftover n t [] h f k = absurd (omega arith)
c_string-leftover zero [] (c ∷ cs) h f k = refl
c_string-leftover (suc n) [] (c ∷ cs) h f k = refl
c_string-leftover zero (x ∷ t) (c ∷ cs) h f k = absurd (omega arith)
c_string-leftover (suc n) (x ∷ t) (c ∷ cs) h f k = ground (arith, c_string-leftover n t cs h.1)

length-store : (n c : ℕ) (b : Buffer) → length (store n c b).cells ≡ length b.cells
unfolding store
length-store n c b = ground (arith, length-set b.cells n c)

pub length-printed : (t : Text) (buf : Buffer) → length (printed t buf).cells ≡ length buf.cells
unfolding snprintf copy_in
length-printed t buf =
    length-store max_data_size 0 (snprintf max_data_size t buf)
    ∙ length-overwrite buf.cells (take (max_data_size - 1) t ++ 0 ∷ [])

pub length-memset : (n : ℕ) (buf : Buffer) → length (memset n buf).cells ≡ length buf.cells
unfolding memset copy_in
length-memset n buf = length-overwrite buf.cells (replicate n 0)

pub length-wire : (t : Text) (buf : Buffer) → length (wire t buf) < max_data_size
length-wire t buf =
    omega (arith, max_data_size_lem, length-take (max_data_size - 1) (printed t buf).cells)

store_outside :
    (b : Buffer) → length b.cells ≡ max_data_size → (store max_data_size 0 b).cells ≡ b.cells
unfolding store
store_outside b h = ground arith

-- What the peer reads is the text all the same.
pub c_string-wire :
    (t : Text) (buf : Buffer)
    → length buf.cells ≡ max_data_size
    → IsCString t
    → length t < max_data_size
    → c_string (wire t buf) ≡ t
unfolding snprintf copy_in
c_string-wire t buf size plain fits =
    ap (λ cs. c_string (take (max_data_size - 1) cs))
      (store_outside (snprintf max_data_size t buf)
          (length-overwrite buf.cells (take (max_data_size - 1) t ++ 0 ∷ []) ∙ size)
        ∙ ap (λ x. overwrite buf.cells (x ++ 0 ∷ []))
            (take_all (max_data_size - 1) t (omega arith)))
    ∙ c_string-leftover (max_data_size - 1) t buf.cells plain (omega arith) (omega (arith, size))
