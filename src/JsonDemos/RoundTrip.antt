-- ===== src/JsonDemos/RoundTrip.antt =====
-- What is typed in is what test.json holds.
use live_streamer.Common.{
  ℕ, ◌+◌, ◌-◌, ◌≤◌, ◌≡◌, refl, ◌∙◌, true, false, List, [], ◌∷◌, Option, none, some, ⊤, arith,
  length, if◌then◌else◌,
}
use live_streamer.Text.{Text, codes, text_eq, text_eq_refl}
use live_streamer.Json.{Json}
use live_streamer.Machine.{ok, ◌>>◌}
use live_streamer.JsonDemos.Entry.{
  Typed, key_size, value_size, stop_word, scan_into, json_to_file, json_from_file, input_loop,
  input2_json_file,
}

-- The words that are typed for some pairs, and to end.
unfoldable pub words_of : List (Text × Text) → List Text
words_of [] = stop_word ∷ []
words_of ((k, v) ∷ kvs) = k ∷ v ∷ words_of kvs

-- What a key was last given.
unfoldable pub latest : Text → List (Text × Text) → Option (Option Text) → Option (Option Text)
latest k [] before = before
latest k ((i, v) ∷ kvs) before = latest k kvs (if text_eq i k then some (some v) else before)

-- The words fit their arrays, and no key ends the input.
abbrev pub Fit : List (Text × Text) → Type 0
Fit [] = ⊤
Fit ((k, v) ∷ kvs) =
    (text_eq k stop_word ≡ false)
    × (length k + 1 ≤ key_size)
    × (length v + 1 ≤ value_size)
    × Fit kvs

fits : (n a b : ℕ) → a ≤ b → n + (a - b) ≡ n
fits n a b h = omega arith

stop_fits : length stop_word + 1 ≤ key_size
unfolding codes
stop_fits = omega arith

module _ {Obj : Type 0} ⦃j : Json Obj⦄ where
  unfoldable pub entered : List (Text × Text) → Obj → Obj
  entered [] o = o
  entered ((k, v) ∷ kvs) o = entered kvs (j.add o k v)

  input_loop_lem :
      (kvs : List (Text × Text)) (s : Typed Obj)
      → Fit kvs
      → input_loop (words_of kvs) s ≡ (
        ok tt,
        record s {
          jobj = entered kvs s.jobj;
          file = if s.writable then some (entered kvs s.jobj) else s.file;
        },
      )
  unfolding input_loop scan_into json_to_file words_of entered
  input_loop_lem [] s h =
      rw (text_eq_refl stop_word, fits s.spilled (length stop_word + 1) key_size stop_fits) refl
  input_loop_lem ((k, v) ∷ kvs) s h =
      rw
        (
          h.0,
          fits s.spilled (length k + 1) key_size h.1,
          fits s.spilled (length v + 1) value_size h.2,
        )
        (input_loop_lem kvs (record s { jobj = j.add s.jobj k v }) h.3)

  get_ex-entered :
      (k : Text) (kvs : List (Text × Text)) (o : Obj)
      → j.is_object o ≡ true
      → j.get_ex (entered kvs o) k ≡ latest k kvs (j.get_ex o k)
  unfolding entered latest
  get_ex-entered k [] o h = refl
  get_ex-entered k ((i, v) ∷ kvs) o h =
      get_ex-entered k kvs (j.add o i v) (j.add-is_object o i v h)
      ∙ rw (j.get_ex-add o i v k h) refl

  -- Whatever pairs are typed, if the words fit their arrays and no key ends the input,
  -- `input2JsonFile` returns without a byte written outside of an array, with an object that has
  -- for each name the value that was typed for it last, and no member for a name that was not
  -- typed. `JsonFromFile` then reads that object if test.json could be written, and else, without
  -- a sign of the failure, what the file held before.
  pub json_from_file-input2_json_file :
      (kvs : List (Text × Text)) (s : Typed Obj)
      → Fit kvs
      → (o : Obj) × ((input2_json_file (words_of kvs) >> json_from_file) s ≡ (
          let file = if s.writable then some o else s.file in
          (ok file, record { jobj = o; file = file; writable = s.writable; spilled = s.spilled })))
        × ((k : Text) → j.get_ex o k ≡ latest k kvs none)
  unfolding input2_json_file json_from_file
  json_from_file-input2_json_file kvs s h = (
    entered kvs j.new_object,
    rw (input_loop_lem kvs (record s { jobj = j.new_object }) h) refl,
    λ k. get_ex-entered k kvs j.new_object j.new_object-is_object ∙ rw (j.get_ex-new_object k) refl,
  )
