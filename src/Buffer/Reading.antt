-- ===== src/Buffer/Reading.antt =====
-- What a peer reads from bytes that were sent: `recv` into a cleared array, and a NUL behind them.
use live_streamer.Common.{
  ℕ, zero, suc, ◌+◌, ◌-◌, ◌≤◌, ◌<◌, ◌≡◌, refl, ap, ◌∙◌, List, [], ◌∷◌, ◌++◌, arith, length, take,
  replicate, set, lt→ltb, if◌then◌else◌, length-replicate, length-set, ◌==◌, length-append,
}
use live_streamer.Text.{Text, IsCString, c_string}
use live_streamer.Buffer.{Buffer, max_data_size, overwrite, copy_in, store, memset, sprintf, text}
use live_streamer.Buffer.Frames.{length-overwrite, frame, copy_in_fits, memset_lem}

-- The array after a `recv` of these bytes.
abbrev pub received : List ℕ → Buffer → Buffer
received bs buf = store (length bs) 0 (copy_in bs (memset max_data_size buf))

c_string-set :
    (m : ℕ) (bs : List ℕ)
    → length bs < m
    → c_string (set (overwrite (replicate m 0) bs) (length bs) 0) ≡ c_string bs
unfolding c_string overwrite
c_string-set zero bs h = absurd (omega arith)
c_string-set (suc m) [] h = refl
c_string-set (suc m) (b ∷ bs) h =
    ap (λ s. if b == 0 then [] else b ∷ s) (c_string-set m bs (omega arith))

module _ (bs : List ℕ) (buf : Buffer) (size : length buf.cells ≡ max_data_size) where
  received_lem :
      length bs < max_data_size
      → received bs buf
        ≡ record buf { cells = set (overwrite (replicate max_data_size 0) bs) (length bs) 0 }
  unfolding store
  received_lem h = rw (
    memset_lem buf size,
    copy_in_fits bs (record buf { cells = replicate max_data_size 0 })
        (omega (arith, length-replicate max_data_size (let z : ℕ = 0 in z))),
    lt→ltb (length bs) (length (overwrite (replicate max_data_size 0) bs)) (
        omega (
          arith,
          length-overwrite (replicate max_data_size 0) bs,
          length-replicate max_data_size (let z : ℕ = 0 in z),
        )),
  )

  pub text-received : length bs < max_data_size → text (received bs buf) ≡ c_string bs
  unfolding text
  text-received h = rw (received_lem h) (c_string-set max_data_size bs h)

  pub length-received : length bs < max_data_size → length (received bs buf).cells ≡ max_data_size
  length-received h = rw (received_lem h) (
      length-set (overwrite (replicate max_data_size 0) bs) (length bs) 0
      ∙ length-overwrite (replicate max_data_size 0) bs
      ∙ length-replicate max_data_size 0)

  -- Nothing is written outside of the array.
  pub spilled-received : length bs < max_data_size → (received bs buf).spilled ≡ buf.spilled
  spilled-received h = rw (received_lem h)

c_string-padded :
    (n m : ℕ) (t : Text) → IsCString t → c_string (take n (t ++ replicate m 0)) ≡ take n t
unfolding c_string
c_string-padded zero m t h = refl
c_string-padded (suc n) zero [] h = refl
c_string-padded (suc n) (suc m) [] h = refl
c_string-padded (suc n) m (c ∷ t) h = ground (arith, c_string-padded n m t h.1)

-- The frame of a text reads back as the text, cut to 254 bytes.
pub c_string-frame : (t : Text) → IsCString t → c_string (frame t) ≡ take (max_data_size - 1) t
unfolding frame
c_string-frame t h = c_string-padded (max_data_size - 1) max_data_size t h

c_string-overwrite :
    (n : ℕ) (t : Text)
    → IsCString t
    → length t ≤ n
    → c_string (overwrite (replicate n 0) (t ++ 0 ∷ [])) ≡ t
unfolding c_string overwrite
c_string-overwrite zero [] c h = refl
c_string-overwrite (suc n) [] c h = refl
c_string-overwrite zero (x ∷ t) c h = absurd (omega arith)
c_string-overwrite (suc n) (x ∷ t) c h = ground (arith, c_string-overwrite n t c.1)

module _ (t : Text) (buf : Buffer) (size : length buf.cells ≡ max_data_size) where
  -- An unbounded `sprintf` into a cleared array: a text that fits is what the array then holds.
  pub text-sprintf :
      IsCString t → length t < max_data_size → text (sprintf t (memset max_data_size buf)) ≡ t
  unfolding text sprintf copy_in
  text-sprintf c h = rw (memset_lem buf size) (c_string-overwrite max_data_size t c (omega arith))

  -- The bytes of a text, with its NUL, that do not fit are written outside of the array.
  pub spilled-sprintf :
      (sprintf t (memset max_data_size buf)).spilled ≡ buf.spilled + (length t + 1 - max_data_size)
  unfolding sprintf copy_in
  spilled-sprintf =
      rw (memset_lem buf size) (
        omega
          (arith, length-append t (0 ∷ []), length-replicate max_data_size (let z : ℕ = 0 in z)))
