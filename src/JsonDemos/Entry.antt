-- ===== src/JsonDemos/Entry.antt =====
-- JSON/json.c: pairs of words that are typed in and kept in test.json, and the printing of an object's
-- members.
use live_streamer.Common.{ℕ, Bool, ◌+◌, ◌-◌, List, [], ◌∷◌, Option, some, ⊤, length, if◌then◌else◌}
use live_streamer.Text.{Text, codes, text_eq}
use live_streamer.Json.{Json}
use live_streamer.Machine.{M, pure, wait, modify, gets, ◌>>◌}
use live_streamer.JsonDemos.{
  Value, Members, null, boolean, double, int, string, array, object, end, member, Output, say,
  get_int, decimal, raw, truth, put,
}

-- `JsonParse`: the members of one object, where `to_string` is `json_object_get_string` of an array
-- or an object.
module _ (to_string : Value → Text) where
  unfoldable pub print_typed : Value → M Output ⊤
  print_typed null = pure tt
  print_typed (boolean b) = do
    put (say "type: json_type_boolean, ")
    put (say "value: ")
    put (say (truth b))
    put (say "\n")
  print_typed (int n) = do
    put (say "type: json_type_int, ")
    put (say "value: ")
    put (decimal (get_int n))
    put (say "\n")
  print_typed (double d) = do
    put (say "type: json_type_double, ")
    put (say "value: ")
    put (raw d)
    put (say "\n")
  print_typed (string s) = do
    put (say "type: json_type_string, ")
    put (say "value: ")
    put (raw s)
    put (say "\n")
  print_typed (array xs) = do
    put (say "type: json_type_array, ")
    put (say "value: ")
    put (raw (to_string (array xs)))
    put (say "\n")
  print_typed (object ms) = do
    put (say "type: json_type_object, ")
    put (say "value: ")
    put (raw (to_string (object ms)))
    put (say "\n")

  unfoldable pub print_members : Members → M Output ⊤
  print_members end = pure tt
  print_members (member key val ms) = do
    put (raw key)
    put (say " : ")
    print_typed val
    print_members ms

pub record Typed (Obj : Type 0) : Type 0 where
  pub jobj : Obj
  -- What test.json holds.
  pub file : Option Obj
  -- Whether `json_object_to_file` can write it.
  pub writable : Bool
  -- How many bytes `scanf` has written behind the ends of `key` and `value`.
  pub spilled : ℕ

abbrev pub key_size : ℕ
key_size = 20

abbrev pub value_size : ℕ
value_size = 255

abbrev pub stop_word : Text
stop_word = codes "-1"

module _ {Obj : Type 0} ⦃j : Json Obj⦄ where
  -- `scanf("%s", &a)` of a word into an array: the word and its NUL.
  unfoldable pub scan_into : ℕ → Text → M (Typed Obj) ⊤
  scan_into size word = modify (λ s. record s { spilled = s.spilled + (length word + 1 - size) })

  -- A failure to write is ignored, and leaves the file as it was.
  unfoldable pub json_to_file : M (Typed Obj) ⊤
  json_to_file = modify (λ s. record s { file = if s.writable then some s.jobj else s.file })

  unfoldable pub json_from_file : M (Typed Obj) (Option Obj)
  json_from_file = gets (λ s. s.file)

  -- The loop over the words that are typed. It does not see the end of the input: `scanf` then fails
  -- for ever.
  unfoldable pub input_loop : List Text → M (Typed Obj) ⊤
  unfolding scan_into json_to_file
  input_loop [] = wait
  input_loop (key ∷ []) = do
    scan_into key_size key
    if text_eq key stop_word then json_to_file else wait
  input_loop (key ∷ value ∷ words) = do
    scan_into key_size key
    if text_eq key stop_word then json_to_file else (do
      scan_into value_size value
      modify (λ s. record s { jobj = j.add s.jobj key value })
      input_loop words)

  unfoldable pub input2_json_file : List Text → M (Typed Obj) ⊤
  input2_json_file words = do modify (λ s. record s { jobj = j.new_object }); input_loop words
