-- ===== src/JsonDemos.antt =====
-- JSON/json_type.c: a walk through a JSON value that prints what it meets. A `json_object *` is a
-- value here; NULL is `null`, which is also how json-c keeps a JSON null.
pub mod Walk
pub mod Depth
pub mod Trace
pub mod Entry
pub mod RoundTrip
pub mod Objects
use live_streamer.Common.{
  ℕ, suc, Bool, true, false, leb, List, [], ◌∷◌, String, Option, none, some, ⊤, if◌then◌else◌,
}
use live_streamer.Common.Int.{ℤ, pos, negsuc}
use live_streamer.Text.{Text, text_eq}
use live_streamer.Machine.{M, modify, pure, ◌>>=◌, ◌>>◌}

mutual
  pub data Value : Type 0 where
    null : Value
    boolean : Bool → Value
    -- What `%lf` prints of it.
    double : Text → Value
    int : ℤ → Value
    string : Text → Value
    array : Items → Value
    object : Members → Value

  pub data Items : Type 0 where
    nil : Items
    item : Value → Items → Items

  pub data Members : Type 0 where
    end : Members
    member : Text → Value → Members → Members

-- A piece of the output: text of the program, a number by `%d`, or a string of the value.
pub data Piece : Type 0 where
  say : String → Piece
  decimal : ℤ → Piece
  raw : Text → Piece

-- The output, newest piece first.
abbrev pub Output : Type 0
Output = List Piece

abbrev pub put : Piece → M Output ⊤
put p = modify (λ out. p ∷ out)

abbrev pub truth : Bool → String
truth true = "true"
truth false = "false"

-- `json_object_get_int`: the number that a C `int` can hold and that is nearest.
unfoldable pub get_int : ℤ → ℤ
get_int (pos n) = pos (if leb n 2147483647 then n else 2147483647)
get_int (negsuc n) = negsuc (if leb n 2147483647 then n else 2147483647)

unfoldable pub print_json_value : Value → M Output ⊤
print_json_value (boolean b) = do
  put (say "json_type_boolean\n")
  put (say "value: ")
  put (say (truth b))
  put (say "\n")
print_json_value (double d) = do
  put (say "json_type_double\n")
  put (say "          value: ")
  put (raw d)
  put (say "\n")
print_json_value (int n) = do
  put (say "json_type_int\n")
  put (say "          value: ")
  put (decimal (get_int n))
  put (say "\n")
print_json_value (string s) = do
  put (say "json_type_string\n")
  put (say "          value: ")
  put (raw s)
  put (say "\n")
print_json_value null = pure tt
print_json_value (array xs) = pure tt
print_json_value (object ms) = pure tt

unfoldable pub find : Members → Text → Value
find end k = null
find (member j v ms) k = if text_eq j k then v else find ms k

-- `json_object_object_get`: NULL for a value that is no object, and for a missing member.
unfoldable pub object_get : Value → Text → Value
unfolding find
object_get (object ms) k = find ms k
object_get _ k = null

unfoldable pub count_items : Items → ℕ
count_items nil = 0
count_items (item v xs) = suc (count_items xs)
