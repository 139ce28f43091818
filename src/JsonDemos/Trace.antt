-- ===== src/JsonDemos/Trace.antt =====
-- What the walk of json_type.c prints of a value whose objects it does not confuse, and where it
-- ends the process.
use live_streamer.Common.{
  ℕ, zero, suc, ◌+◌, ◌≤◌, ◌<◌, ◌≡◌, refl, ◌∷◌, Bool, Option, none, some, ⊤, arith,
}
use live_streamer.Common.Int.{pos}
use live_streamer.Text.{Text, text_eq_refl}
use live_streamer.Machine.{M, ok, fault}
use live_streamer.JsonDemos.{
  Value, Items, Members, null, boolean, double, int, string, array, object, nil, item, end, member,
  Output, say, decimal, print_json_value, find, object_get, count_items,
}
use live_streamer.JsonDemos.Depth.{depth, depth_items, depth_members}
use live_streamer.JsonDemos.Walk.{
  members_loop, items_loop, walk_array, array_of, json_parse, json_parse_array,
}

abbrev printed : M Output ⊤ → Output → Output
printed m out = (m out).1

abbrev array_header : Items → Output → Output
array_header xs out = say "\n" ∷ decimal (pos (count_items xs)) ∷ say "Array Length: " ∷ out

-- The output of a walk that reads each member where it stands.
unfoldable mutual
  pub trace_members : Members → Output → Output
  trace_members end out = out
  trace_members (member key null ms) out = trace_members ms (say "type: " ∷ out)
  trace_members (member key (array xs) ms) out =
      trace_members ms
        (trace_items 0 xs (array_header xs (say "type: json_type_array, " ∷ say "type: " ∷ out)))
  trace_members (member key (object os) ms) out =
      trace_members ms (trace_members os (say "json_type_object\n" ∷ say "type: " ∷ out))
  trace_members (member key val ms) out =
      trace_members ms (printed (print_json_value val) (say "type: " ∷ out))

  pub trace_items : ℕ → Items → Output → Output
  trace_items i nil out = out
  trace_items i (item (array xs) rest) out =
      trace_items (i + 1) rest (trace_items 0 xs (array_header xs out))
  trace_items i (item (object ms) rest) out = trace_items (i + 1) rest (trace_members ms out)
  trace_items i (item val rest) out =
      trace_items (i + 1) rest
        (printed (print_json_value val) (say "]: " ∷ decimal (pos i) ∷ say "value[" ∷ out))

-- No arrays and objects.
abbrev pub IsFlat : Members → Type 0
IsFlat end = ⊤
IsFlat (member key (array xs) ms) = ⊥
IsFlat (member key (object os) ms) = ⊥
IsFlat (member key val ms) = IsFlat ms

-- In each object, nothing nested follows a nested object, and the nested members are found under
-- their names.
unfoldable mutual
  pub IsTidy : Members → Members → Type 0
  IsTidy whole end = ⊤
  IsTidy whole (member key (array xs) ms) =
      (find whole key ≡ array xs) × AreTidy xs × IsTidy whole ms
  IsTidy whole (member key (object os) ms) = (find whole key ≡ object os) × IsTidy os os × IsFlat ms
  IsTidy whole (member key val ms) = IsTidy whole ms

  pub AreTidy : Items → Type 0
  AreTidy nil = ⊤
  AreTidy (item (array xs) rest) = AreTidy xs × AreTidy rest
  AreTidy (item (object ms) rest) = IsTidy ms ms × AreTidy rest
  AreTidy (item val rest) = AreTidy rest

-- A value other than arrays, objects and NULL is printed without an end to the process.
print_json_value-ok :
    (v : Value) (out : Output) → print_json_value v out ≡ (ok tt, printed (print_json_value v) out)
unfolding print_json_value
print_json_value-ok null out = refl
print_json_value-ok _ out = refl

module _ (po : Value → M Output ⊤) (pa : Value → Option Text → M Output ⊤) (d : ℕ)
    (po-trace : (ms : Members)
      → depth_members ms < d
      → IsTidy ms ms
      → (out : Output) → po (object ms) out ≡ (ok tt, trace_members ms out))
    (pa-trace : (v : Value) (k : Option Text) (xs : Items)
      → array_of v k ≡ array xs
      → depth_items xs < d
      → AreTidy xs
      → (out : Output) → pa v k out ≡ (ok tt, trace_items 0 xs (array_header xs out))) where
  -- Whatever `jobj` is by then.
  flat_loop-trace :
      (jobj : Value) (ms : Members)
      → IsFlat ms
      → (out : Output) → members_loop po pa jobj ms out ≡ (ok tt, trace_members ms out)
  unfolding members_loop trace_members
  flat_loop-trace jobj end h out = refl
  flat_loop-trace jobj (member key null ms) h out = flat_loop-trace jobj ms h _
  flat_loop-trace jobj (member key (array xs) ms) h out = absurd h
  flat_loop-trace jobj (member key (object os) ms) h out = absurd h
  flat_loop-trace jobj (member key (boolean b) ms) h out =
      rw (print_json_value-ok (boolean b)) (flat_loop-trace jobj ms h _)
  flat_loop-trace jobj (member key (double b) ms) h out =
      rw (print_json_value-ok (double b)) (flat_loop-trace jobj ms h _)
  flat_loop-trace jobj (member key (int b) ms) h out =
      rw (print_json_value-ok (int b)) (flat_loop-trace jobj ms h _)
  flat_loop-trace jobj (member key (string b) ms) h out =
      rw (print_json_value-ok (string b)) (flat_loop-trace jobj ms h _)

  members_loop-trace :
      (whole ms : Members)
      → depth_members ms ≤ d
      → IsTidy whole ms
      → (out : Output) → members_loop po pa (object whole) ms out ≡ (ok tt, trace_members ms out)
  unfolding members_loop trace_members IsTidy depth object_get
  members_loop-trace whole end b h out = refl
  members_loop-trace whole (member key null ms) b h out =
      members_loop-trace whole ms (omega arith) h _
  members_loop-trace whole (member key (array xs) ms) b h out =
      rw (pa-trace (object whole) (some key) xs (unfold array_of in h.0) (omega arith) h.1)
        (members_loop-trace whole ms (omega arith) h.2 _)
  members_loop-trace whole (member key (object os) ms) b h out =
      rw (h.0, po-trace os (omega arith) h.1) (flat_loop-trace (object os) ms h.2 _)
  members_loop-trace whole (member key (boolean v) ms) b h out =
      rw (print_json_value-ok (boolean v)) (members_loop-trace whole ms (omega arith) h _)
  members_loop-trace whole (member key (double v) ms) b h out =
      rw (print_json_value-ok (double v)) (members_loop-trace whole ms (omega arith) h _)
  members_loop-trace whole (member key (int v) ms) b h out =
      rw (print_json_value-ok (int v)) (members_loop-trace whole ms (omega arith) h _)
  members_loop-trace whole (member key (string v) ms) b h out =
      rw (print_json_value-ok (string v)) (members_loop-trace whole ms (omega arith) h _)

  items_loop-trace :
      (i : ℕ) (xs : Items)
      → depth_items xs ≤ d
      → AreTidy xs
      → (out : Output) → items_loop po pa i xs out ≡ (ok tt, trace_items i xs out)
  unfolding items_loop trace_members IsTidy depth array_of
  items_loop-trace i nil b h out = refl
  items_loop-trace i (item null rest) b h out =
      rw (print_json_value-ok null) (items_loop-trace (i + 1) rest (omega arith) h _)
  items_loop-trace i (item (array xs) rest) b h out =
      rw (pa-trace (array xs) none xs refl (omega arith) h.0)
        (items_loop-trace (i + 1) rest (omega arith) h.1 _)
  items_loop-trace i (item (object ms) rest) b h out =
      rw (po-trace ms (omega arith) h.0) (items_loop-trace (i + 1) rest (omega arith) h.1 _)
  items_loop-trace i (item (boolean v) rest) b h out =
      rw (print_json_value-ok (boolean v)) (items_loop-trace (i + 1) rest (omega arith) h _)
  items_loop-trace i (item (double v) rest) b h out =
      rw (print_json_value-ok (double v)) (items_loop-trace (i + 1) rest (omega arith) h _)
  items_loop-trace i (item (int v) rest) b h out =
      rw (print_json_value-ok (int v)) (items_loop-trace (i + 1) rest (omega arith) h _)
  items_loop-trace i (item (string v) rest) b h out =
      rw (print_json_value-ok (string v)) (items_loop-trace (i + 1) rest (omega arith) h _)

  walk_array-trace :
      (asserts : Bool) (xs : Items)
      → depth_items xs ≤ d
      → AreTidy xs
      → (out : Output)
      → walk_array po pa asserts (array xs) out ≡ (ok tt, trace_items 0 xs (array_header xs out))
  unfolding walk_array
  walk_array-trace asserts xs b h out = items_loop-trace 0 xs b h (array_header xs out)

mutual
  unfolding json_parse

  json_parse_trace :
      (asserts : Bool) (fuel : ℕ) (ms : Members)
      → depth_members ms < fuel
      → IsTidy ms ms
      → (out : Output) → json_parse asserts fuel (object ms) out ≡ (ok tt, trace_members ms out)
  json_parse_trace asserts zero ms b h out = absurd (omega arith)
  json_parse_trace asserts (suc d) ms b h out =
      members_loop-trace (json_parse asserts d) (json_parse_array asserts d) d
        (json_parse_trace asserts d) (json_parse_array_trace asserts d) ms ms (omega arith) h out

  json_parse_array_trace :
      (asserts : Bool) (fuel : ℕ) (v : Value) (k : Option Text) (xs : Items)
      → array_of v k ≡ array xs
      → depth_items xs < fuel
      → AreTidy xs
      → (out : Output)
      → json_parse_array asserts fuel v k out ≡ (ok tt, trace_items 0 xs (array_header xs out))
  json_parse_array_trace asserts zero v k xs e b h out = absurd (omega arith)
  json_parse_array_trace asserts (suc d) v k xs e b h out = rw e (
      walk_array-trace (json_parse asserts d) (json_parse_array asserts d) d
        (json_parse_trace asserts d) (json_parse_array_trace asserts d) asserts xs (omega arith) h
        out)

-- On an object in which, at every depth, the nested members are found under their names and
-- nothing nested follows a nested object, the walk returns, and prints each member where it stands.
pub json_parse-trace_members :
    (asserts : Bool) (ms : Members) (out : Output)
    → IsTidy ms ms
    → json_parse asserts (suc (depth (object ms))) (object ms) out ≡ (ok tt, trace_members ms out)
unfolding depth
json_parse-trace_members asserts ms out h =
    json_parse_trace asserts (suc (depth (object ms))) ms (omega arith) h out

-- A nested object that follows a nested object ends the process, unless the first has a member of
-- its name: `json_parse` looks it up in the first, and follows the NULL that it gets.
pub json_parse_second_object :
    (asserts : Bool) (fuel : ℕ) (k k' : Text) (os ps ms : Members) (out : Output)
    → IsTidy os os
    → depth_members os < suc fuel
    → find os k' ≡ null
    → (json_parse asserts
        (suc (suc fuel))
        (object (member k (object os) (member k' (object ps) ms)))
        out).0
      ≡ fault
unfolding json_parse members_loop object_get find
json_parse_second_object asserts fuel k k' os ps ms out h b e =
    rw
      (
        text_eq_refl k,
        json_parse_trace asserts (suc fuel) os b h (say "json_type_object\n" ∷ say "type: " ∷ out),
        e,
      )
      refl
