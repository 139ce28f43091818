-- ===== src/Buffer/Frames.antt =====
-- What a cleared array holds after a formatted text was put into it, and what a peer reads from
-- the bytes that are sent.
use live_streamer.Common.{
  ℕ, zero, suc, ◌+◌, ◌-◌, ◌≤◌, ◌≡◌, refl, ap, sym, ◌∙◌, List, [], ◌∷◌, ◌++◌, arith, length, take,
  replicate, length-append, length-take, length-replicate, take-take,
}
use live_streamer.Text.{Text}
use live_streamer.Buffer.{Buffer, max_data_size, overwrite, copy_in, store, memset, snprintf}

pub max_data_size_lem : max_data_size ≡ 255
unfolding max_data_size
max_data_size_lem = refl

pub length-overwrite : (cs bs : List ℕ) → length (overwrite cs bs) ≡ length cs
unfolding overwrite
length-overwrite [] bs = refl
length-overwrite (c ∷ cs) [] = refl
length-overwrite (c ∷ cs) (b ∷ bs) = ap suc (length-overwrite cs bs)

pub overwrite_all : (cs bs : List ℕ) → length bs ≡ length cs → overwrite cs bs ≡ bs
unfolding overwrite
overwrite_all [] [] h = refl
overwrite_all [] (b ∷ bs) h = absurd (omega arith)
overwrite_all (c ∷ cs) [] h = absurd (omega arith)
overwrite_all (c ∷ cs) (b ∷ bs) h = ap (λ xs. b ∷ xs) (overwrite_all cs bs (omega arith))

take-replicate : (n m c : ℕ) → n ≤ m → replicate n c ≡ take n (replicate m c)
take-replicate zero m c h = refl
take-replicate (suc n) zero c h = absurd (omega arith)
take-replicate (suc n) (suc m) c h = ap (λ xs. c ∷ xs) (take-replicate n m c (omega arith))

-- In a cleared array the text is followed by NULs.
pub overwrite-replicate :
    (n m : ℕ) (bs : List ℕ) → n ≤ m → overwrite (replicate n 0) bs ≡ take n (bs ++ replicate m 0)
unfolding overwrite
overwrite-replicate zero m bs h = refl
overwrite-replicate (suc n) m [] h = take-replicate (suc n) m 0 h
overwrite-replicate (suc n) m (b ∷ bs) h =
    ap (λ xs. b ∷ xs) (overwrite-replicate n m bs (omega arith))

-- The array once it was cleared, given a text, and stored to behind its end.
abbrev pub loaded : Text → Buffer → Buffer
loaded t buf = store max_data_size 0 (snprintf max_data_size t (memset max_data_size buf))

-- A text as `send` hands it over: cut to 254 bytes, and followed by NULs.
unfoldable pub frame : Text → List ℕ
frame t = take (max_data_size - 1) (t ++ replicate max_data_size 0)

-- A text cut to its first n bytes and terminated.
take-take-append : (n : ℕ) (t r : List ℕ) → take n ((take n t ++ 0 ∷ []) ++ r) ≡ take n (t ++ 0 ∷ r)
take-take-append zero t r = refl
take-take-append (suc n) [] r = refl
take-take-append (suc n) (c ∷ t) r = ap (λ xs. c ∷ xs) (take-take-append n t r)

take-padding :
    (n m : ℕ) (t : List ℕ) → n ≤ m → take n (t ++ replicate (suc m) 0) ≡ take n (t ++ replicate m 0)
take-padding zero m t h = refl
take-padding (suc n) m [] h =
    sym (take-replicate (suc n) (suc m) 0 (omega arith)) ∙ take-replicate (suc n) m 0 h
take-padding (suc n) m (c ∷ t) h = ap (λ xs. c ∷ xs) (take-padding n m t (omega arith))

-- The array that `snprintf` leaves of a cleared one.
abbrev padded : Text → List ℕ
padded t = take max_data_size ((take (max_data_size - 1) t ++ 0 ∷ []) ++ replicate max_data_size 0)

length-padded : (t : Text) → length (padded t) ≡ max_data_size
length-padded t = omega (
  arith,
  max_data_size_lem,
  length-take max_data_size ((take (max_data_size - 1) t ++ 0 ∷ []) ++ replicate max_data_size 0),
  length-append (take (max_data_size - 1) t ++ 0 ∷ []) (replicate max_data_size 0),
  length-replicate max_data_size (let z : ℕ = 0 in z),
)

pub copy_in_fits :
    (bs : List ℕ) (buf : Buffer)
    → length bs ≤ length buf.cells
    → copy_in bs buf ≡ record buf { cells = overwrite buf.cells bs }
unfolding copy_in
copy_in_fits bs buf h i = record { cells = overwrite buf.cells bs; spilled = nothing_spilled i }
  where
    nothing_spilled : buf.spilled + (length bs - length buf.cells) ≡ buf.spilled
    nothing_spilled = omega arith

pub memset_lem :
    (buf : Buffer)
    → length buf.cells ≡ max_data_size
    → memset max_data_size buf ≡ record buf { cells = replicate max_data_size 0 }
unfolding memset
memset_lem buf size =
    copy_in_fits (replicate max_data_size 0) buf
      (omega (arith, length-replicate max_data_size (let z : ℕ = 0 in z)))
    ∙ ap (λ cs. record buf { cells = cs })
        (overwrite_all buf.cells (replicate max_data_size 0)
          (omega (arith, length-replicate max_data_size (let z : ℕ = 0 in z))))

snprintf_lem :
    (t : Text) (k : ℕ)
    → snprintf max_data_size t (record { cells = replicate max_data_size 0; spilled = k })
      ≡ record { cells = padded t; spilled = k }
unfolding snprintf
snprintf_lem t k =
    copy_in_fits (take (max_data_size - 1) t ++ 0 ∷ [])
      (record { cells = replicate max_data_size 0; spilled = k })
      (omega (
        arith,
        max_data_size_lem,
        length-append (take (max_data_size - 1) t) (0 ∷ []),
        length-take (max_data_size - 1) t,
        length-replicate max_data_size (let z : ℕ = 0 in z),
      ))
    ∙ ap (λ cs. record { cells = cs; spilled = k })
        (overwrite-replicate max_data_size max_data_size (take (max_data_size - 1) t ++ 0 ∷ [])
          (omega arith))

store_outside :
    (cs : List ℕ) (k : ℕ)
    → length cs ≡ max_data_size
    → store max_data_size 0 (record { cells = cs; spilled = k })
      ≡ record { cells = cs; spilled = k + 1 }
unfolding store
store_outside cs k h = ground arith

module _ (t : Text) (buf : Buffer) (size : length buf.cells ≡ max_data_size) where
  loaded_lem : loaded t buf ≡ record { cells = padded t; spilled = buf.spilled + 1 }
  loaded_lem =
      rw (memset_lem buf size, snprintf_lem t buf.spilled)
        (store_outside (padded t) buf.spilled (length-padded t))

  pub length-loaded : length (loaded t buf).cells ≡ max_data_size
  length-loaded = rw loaded_lem (length-padded t)

  -- Exactly one byte is written outside of the array.
  pub spilled-loaded : (loaded t buf).spilled ≡ buf.spilled + 1
  spilled-loaded = rw loaded_lem

  pub loaded-frame : take (max_data_size - 1) (loaded t buf).cells ≡ frame t
  unfolding frame
  loaded-frame = rw loaded_lem (
      take-take (max_data_size - 1) max_data_size
        ((take (max_data_size - 1) t ++ 0 ∷ []) ++ replicate max_data_size 0) (omega arith)
      ∙ take-take-append (max_data_size - 1) t (replicate max_data_size 0)
      ∙ take-padding (max_data_size - 1) max_data_size t (omega arith))
