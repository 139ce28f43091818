-- ===== src/JsonDemos/Depth.antt =====
-- The walk ends: the depth of a value is enough fuel.
use Prim.Native.Nat.{max}
use live_streamer.Common.{
  ℕ, zero, suc, ◌+◌, ◌≤◌, ◌<◌, ◌≢◌, refl, Bool, true, false, Option, none, some, ⊤, arith,
}
use live_streamer.Text.{Text}
use live_streamer.Machine.{M, Outcome, ok, fault, exited, waiting, next, ◌>>◌}
use live_streamer.JsonDemos.{
  Value, Items, Members, null, boolean, double, int, string, array, object, nil, item, end, member,
  Output, print_json_value, find, object_get,
}
use live_streamer.JsonDemos.Walk.{
  members_loop, items_loop, walk_array, array_of, json_parse, json_parse_array,
}

unfoldable mutual
  pub depth : Value → ℕ
  depth null = 0
  depth (boolean b) = 0
  depth (double d) = 0
  depth (int n) = 0
  depth (string s) = 0
  depth (array xs) = suc (depth_items xs)
  depth (object ms) = suc (depth_members ms)

  pub depth_items : Items → ℕ
  depth_items nil = 0
  depth_items (item v xs) = max (depth v) (depth_items xs)

  pub depth_members : Members → ℕ
  depth_members end = 0
  depth_members (member k v ms) = max (depth v) (depth_members ms)

-- It does not stop for want of fuel.
abbrev pub Halts : M Output ⊤ → Type 0
Halts m = (out : Output) → (m out).0 ≢ waiting

depth-find : (ms : Members) (k : Text) → depth (find ms k) ≤ depth_members ms
unfolding find depth
depth-find end k = omega arith
depth-find (member j v ms) k = ground (arith, depth-find ms k)

pub depth-object_get : (v : Value) (k : Text) (d : ℕ) → depth v ≤ suc d → depth (object_get v k) ≤ d
unfolding object_get depth
depth-object_get (object ms) k d h = omega (arith, depth-find ms k)
depth-object_get _ k d h = omega arith

print_json_value-Halts : (v : Value) → Halts (print_json_value v)
unfolding print_json_value
print_json_value-Halts null out = cc
print_json_value-Halts _ out = cc

next-Halts :
    (f : ⊤ → M Output ⊤) (r : Outcome ⊤) (out : Output)
    → r ≢ waiting
    → Halts (f tt)
    → (next f r out).0 ≢ waiting
next-Halts f (ok tt) out h k = k out
next-Halts f fault out h k = cc
next-Halts f (exited n) out h k = cc
next-Halts f waiting out h k = absurd (h refl)

>>-Halts : (m k : M Output ⊤) → Halts m → Halts k → Halts (m >> k)
>>-Halts m k hm hk out = next-Halts (λ _. k) (m out).0 (m out).1 (hm out) hk

module _ (po : Value → M Output ⊤) (pa : Value → Option Text → M Output ⊤) (d : ℕ)
    (po-Halts : (v : Value) → depth v ≤ d → Halts (po v))
    (pa-Halts : (v : Value) (k : Option Text) → depth (array_of v k) ≤ d → Halts (pa v k)) where
  members_loop-Halts :
      (jobj : Value) (ms : Members) → depth jobj ≤ suc d → Halts (members_loop po pa jobj ms)
  unfolding members_loop array_of
  members_loop-Halts jobj end h out = cc
  members_loop-Halts jobj (member key null ms) h out = members_loop-Halts jobj ms h _
  members_loop-Halts jobj (member key (array xs) ms) h out =
      >>-Halts (pa jobj (some key)) (members_loop po pa jobj ms)
        (pa-Halts jobj (some key) (depth-object_get jobj key d h)) (members_loop-Halts jobj ms h) _
  members_loop-Halts jobj (member key (object os) ms) h out =
      let smaller = depth-object_get jobj key d h in
      >>-Halts (po (object_get jobj key)) (members_loop po pa (object_get jobj key) ms)
        (po-Halts (object_get jobj key) smaller)
        (members_loop-Halts (object_get jobj key) ms (omega (arith, smaller))) _
  members_loop-Halts jobj (member key (boolean b) ms) h out =
      >>-Halts (print_json_value (boolean b)) _ (print_json_value-Halts (boolean b))
        (members_loop-Halts jobj ms h) _
  members_loop-Halts jobj (member key (double b) ms) h out =
      >>-Halts (print_json_value (double b)) _ (print_json_value-Halts (double b))
        (members_loop-Halts jobj ms h) _
  members_loop-Halts jobj (member key (int b) ms) h out =
      >>-Halts (print_json_value (int b)) _ (print_json_value-Halts (int b))
        (members_loop-Halts jobj ms h) _
  members_loop-Halts jobj (member key (string b) ms) h out =
      >>-Halts (print_json_value (string b)) _ (print_json_value-Halts (string b))
        (members_loop-Halts jobj ms h) _

  items_loop-Halts : (i : ℕ) (xs : Items) → depth_items xs ≤ d → Halts (items_loop po pa i xs)
  unfolding items_loop array_of depth
  items_loop-Halts i nil h out = cc
  items_loop-Halts i (item null xs) h out =
      >>-Halts (print_json_value null) (items_loop po pa (i + 1) xs) (print_json_value-Halts null)
        (items_loop-Halts (i + 1) xs (omega arith)) _
  items_loop-Halts i (item (array ys) xs) h out =
      >>-Halts (pa (array ys) none) (items_loop po pa (i + 1) xs)
        (pa-Halts (array ys) none (omega arith)) (items_loop-Halts (i + 1) xs (omega arith)) out
  items_loop-Halts i (item (object ms) xs) h out =
      >>-Halts (po (object ms)) (items_loop po pa (i + 1) xs) (po-Halts (object ms) (omega arith))
        (items_loop-Halts (i + 1) xs (omega arith)) out
  items_loop-Halts i (item (boolean b) xs) h out =
      >>-Halts (print_json_value (boolean b)) (items_loop po pa (i + 1) xs)
        (print_json_value-Halts (boolean b)) (items_loop-Halts (i + 1) xs (omega arith)) _
  items_loop-Halts i (item (double b) xs) h out =
      >>-Halts (print_json_value (double b)) (items_loop po pa (i + 1) xs)
        (print_json_value-Halts (double b)) (items_loop-Halts (i + 1) xs (omega arith)) _
  items_loop-Halts i (item (int b) xs) h out =
      >>-Halts (print_json_value (int b)) (items_loop po pa (i + 1) xs)
        (print_json_value-Halts (int b)) (items_loop-Halts (i + 1) xs (omega arith)) _
  items_loop-Halts i (item (string b) xs) h out =
      >>-Halts (print_json_value (string b)) (items_loop po pa (i + 1) xs)
        (print_json_value-Halts (string b)) (items_loop-Halts (i + 1) xs (omega arith)) _

  walk_array-Halts :
      (asserts : Bool) (v : Value) → depth v ≤ suc d → Halts (walk_array po pa asserts v)
  unfolding walk_array depth
  walk_array-Halts asserts (array xs) h out = items_loop-Halts 0 xs (omega arith) _
  walk_array-Halts true null h out = cc
  walk_array-Halts false null h out = cc
  walk_array-Halts true _ h out = cc
  walk_array-Halts false _ h out = cc

walk_array_flat-Halts :
    (po : Value → M Output ⊤) (pa : Value → Option Text → M Output ⊤) (asserts : Bool) (v : Value)
    → depth v ≤ 0
    → Halts (walk_array po pa asserts v)
unfolding walk_array depth
walk_array_flat-Halts po pa asserts (array xs) h out = absurd (omega arith)
walk_array_flat-Halts po pa true null h out = cc
walk_array_flat-Halts po pa false null h out = cc
walk_array_flat-Halts po pa true _ h out = cc
walk_array_flat-Halts po pa false _ h out = cc

mutual
  unfolding json_parse depth

  json_parse_fueled :
      (asserts : Bool) (fuel : ℕ) (v : Value) → depth v < fuel → Halts (json_parse asserts fuel v)
  json_parse_fueled asserts zero v h out = absurd (omega arith)
  json_parse_fueled asserts (suc zero) (object ms) h out = absurd (omega arith)
  json_parse_fueled asserts (suc (suc d)) (object ms) h out =
      members_loop-Halts (json_parse asserts (suc d)) (json_parse_array asserts (suc d)) d
        (λ v k. json_parse_fueled asserts (suc d) v (omega arith))
        (λ v k b. json_parse_array_fueled asserts (suc d) v k (omega arith)) (object ms) ms
        (omega arith) out
  json_parse_fueled asserts (suc fuel) null h out = cc
  json_parse_fueled asserts (suc fuel) (boolean b) h out = cc
  json_parse_fueled asserts (suc fuel) (double b) h out = cc
  json_parse_fueled asserts (suc fuel) (int b) h out = cc
  json_parse_fueled asserts (suc fuel) (string b) h out = cc
  json_parse_fueled asserts (suc fuel) (array xs) h out = cc

  json_parse_array_fueled :
      (asserts : Bool) (fuel : ℕ) (v : Value) (key : Option Text)
      → depth (array_of v key) < fuel
      → Halts (json_parse_array asserts fuel v key)
  json_parse_array_fueled asserts zero v key h out = absurd (omega arith)
  json_parse_array_fueled asserts (suc zero) v key h out =
      walk_array_flat-Halts _ _ asserts (array_of v key) (omega arith) out
  json_parse_array_fueled asserts (suc (suc d)) v key h out =
      walk_array-Halts (json_parse asserts (suc d)) (json_parse_array asserts (suc d)) d
        (λ u k. json_parse_fueled asserts (suc d) u (omega arith))
        (λ u k b. json_parse_array_fueled asserts (suc d) u k (omega arith)) asserts
        (array_of v key) (omega arith) out

-- The walk over a value always comes to an end, by returning or by the end of the process: it never
-- nests deeper than the value does, although it looks members up in the wrong object.
pub json_parse-Halts :
    (asserts : Bool) (v : Value) (out : Output)
    → (json_parse asserts (suc (depth v)) v out).0 ≢ waiting
json_parse-Halts asserts v out = json_parse_fueled asserts (suc (depth v)) v (omega arith) out
