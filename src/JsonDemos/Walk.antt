-- ===== src/JsonDemos/Walk.antt =====
-- JSON/json_type.c, `json_parse` and `json_parse_array`. Each call of `json_parse` costs a unit of
-- fuel, as does each of `json_parse_array`; `wait` says that the fuel is used up.
use live_streamer.Common.{ℕ, zero, suc, ◌+◌, Bool, true, false, Option, none, some, ⊤}
use live_streamer.Common.Int.{pos}
use live_streamer.Text.{Text}
use live_streamer.Machine.{M, pure, crash, exit, wait, ◌>>◌}
use live_streamer.JsonDemos.{
  Value, Items, Members, null, array, object, nil, item, end, member, Output, say, decimal, put,
  print_json_value, object_get, count_items,
}

-- `parse_object` and `parse_array` are the calls that are made from here.
module _ (parse_object : Value → M Output ⊤) (parse_array : Value → Option Text → M Output ⊤) where
  -- The loop of `json_parse` over the members of the object that it was called with. `jobj` is the
  -- variable of that name: the loop does not read it, but its body sets it to a nested object.
  unfoldable pub members_loop : Value → Members → M Output ⊤
  members_loop jobj end = pure tt
  members_loop jobj (member key null ms) = do put (say "type: "); members_loop jobj ms
  members_loop jobj (member key (array xs) ms) = do
    put (say "type: ")
    put (say "type: json_type_array, ")
    parse_array jobj (some key)
    members_loop jobj ms
  members_loop jobj (member key (object os) ms) = do
    put (say "type: ")
    put (say "json_type_object\n")
    parse_object (object_get jobj key)
    members_loop (object_get jobj key) ms
  members_loop jobj (member key val ms) = do
    put (say "type: ")
    print_json_value val
    members_loop jobj ms

  -- The loop of `json_parse_array`, from the element with the index `i`.
  unfoldable pub items_loop : ℕ → Items → M Output ⊤
  items_loop i nil = pure tt
  items_loop i (item (array xs) rest) = do parse_array (array xs) none; items_loop (i + 1) rest
  items_loop i (item (object ms) rest) = do parse_object (object ms); items_loop (i + 1) rest
  items_loop i (item val rest) = do
    put (say "value[")
    put (decimal (pos i))
    put (say "]: ")
    print_json_value val
    items_loop (i + 1) rest

  -- `json_parse_array` once it has its array. `asserts` says what `json_object_array_length` does
  -- with a value that is no array: some versions of json-c stop the process (by `abort`, which a
  -- shell shows as 134), others give 0.
  unfoldable pub walk_array : Bool → Value → M Output ⊤
  walk_array asserts (array xs) = do
    put (say "Array Length: ")
    put (decimal (pos (count_items xs)))
    put (say "\n")
    items_loop 0 xs
  walk_array true _ = exit 134
  walk_array false _ = do put (say "Array Length: "); put (decimal (pos 0)); put (say "\n")

unfoldable pub array_of : Value → Option Text → Value
array_of jobj none = jobj
array_of jobj (some key) = object_get jobj key

module _ (asserts : Bool) where
  unfoldable mutual
    pub json_parse : ℕ → Value → M Output ⊤
    json_parse zero jobj = wait
    json_parse (suc fuel) (object ms) =
        members_loop (json_parse fuel) (json_parse_array fuel) (object ms) ms
    json_parse (suc fuel) _ = crash

    pub json_parse_array : ℕ → Value → Option Text → M Output ⊤
    json_parse_array zero jobj key = wait
    json_parse_array (suc fuel) jobj key =
        walk_array (json_parse fuel) (json_parse_array fuel) asserts (array_of jobj key)
