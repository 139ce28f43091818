-- ===== src/JsonDemos/Objects.antt =====
-- JSON/json.c: the demos that build an object, take one apart and delete a member. JSON/json1.c: the
-- type of a text.
use live_streamer.Common.{◌≡◌, refl, List, ◌∷◌, String, Option, some, ⊤}
use live_streamer.Common.Int.{ℤ, pos}
use live_streamer.Text.{Text, codes}
use live_streamer.Machine.{M, ok, fault, pure, crash, modify, ◌>>◌}
use live_streamer.JsonDemos.{
  Value, null, boolean, double, int, string, array, object, nil, end, Piece, Output, say, decimal,
  raw, object_get,
}

-- The further calls of json-c, with what is used of them.
pub record Calls : Type 0 where
  pub object_add : Value → Text → Value → Value
  pub object_del : Value → Text → Value
  pub array_add : Value → Value → Value
  pub get_string : Value → Text
  pub to_json_string : Value → Text
  pub get_int : Value → ℤ
  pub tokener_parse : Text → Value
  pub get-del : (v : Value) (k : Text) → object_get (object_del v k) k ≡ null
  pub get_int-int : (n : ℤ) → get_int (int n) ≡ n

pub record Printed : Type 0 where
  pub output : Output
  -- What test.json holds.
  pub file : Option Value
  -- What `json_object_put` was called on.
  pub released : List Value

abbrev pub print : Piece → M Printed ⊤
print p = modify (λ s. record s { output = p ∷ s.output })

module _ (c : Calls) where
  -- `printf("%s", json_object_get_string(v))`
  unfoldable pub print_string : Value → M Printed ⊤
  print_string null = crash
  print_string v = print (raw (c.get_string v))

  unfoldable pub new_add_del : M Printed ⊤
  unfolding print_string
  new_add_del = do
    let jobj = c.object_add (object end) (codes "admin") (int (pos 32))
    let jobj = c.object_del jobj (codes "admin")
    print_string (object_get jobj (codes "admin"))

  unfoldable pub j_array_new : M Printed Value
  j_array_new = do
    let jarray = c.array_add (array nil) (string (codes "c"))
    let jarray = c.array_add jarray (string (codes "c++"))
    let jarray = c.array_add jarray (string (codes "php"))
    let jobj = c.object_add (object end) (codes "Categories") jarray
    print (say "The json object created: ")
    print (raw (c.to_json_string jobj))
    print (say "\n")
    pure jobj

  -- The text that is parsed is an argument.
  unfoldable pub j_multi_array : Text → M Printed ⊤
  j_multi_array text = do
    let jobj = c.tokener_parse text
    print (say "jobj.to_string()=")
    print (raw (c.to_json_string jobj))
    print (say "\n")
    modify (λ s. record s { file = some jobj })
    let jobj = object_get jobj (codes "glossary")
    print (say "jobj.to_string()=")
    print (raw (c.to_json_string jobj))
    print (say "\n")
    let jobj = object_get jobj (codes "pageCount")
    print (say "Page count = ")
    print (decimal (c.get_int jobj))
    modify (λ s. record s { released = jobj ∷ s.released })

  unfoldable pub type_name : Value → String
  type_name null = "json_type_null\n"
  type_name (boolean b) = "json_type_boolean\n"
  type_name (double d) = "json_type_double\n"
  type_name (int n) = "json_type_int\n"
  type_name (string s) = "json_type_string\n"
  type_name (array xs) = "json_type_array\n"
  type_name (object ms) = "json_type_object\n"

  -- `main` of json1.c.
  unfoldable pub main : M Printed ⊤
  unfolding type_name
  main = do
    print (say "type: ")
    print (say (type_name (c.tokener_parse (codes "{\"name\" : 125}"))))

  -- Once the member is deleted, `%s` gets a NULL pointer.
  new_add_del_lem : (s : Printed) → (new_add_del s).0 ≡ fault
  unfolding new_add_del print_string
  new_add_del_lem s =
      rw (c.get-del (c.object_add (object end) (codes "admin") (int (pos 32))) (codes "admin")) refl

  -- The page count is printed last, and what is released is a part of the object in the file, which
  -- is not released itself.
  j_multi_array_lem :
      (text : Text) (s : Printed) (n : ℤ)
      → let whole = c.tokener_parse text in
        object_get (object_get whole (codes "glossary")) (codes "pageCount") ≡ int n
        → let (o, s') = j_multi_array text s in
          (o ≡ ok tt)
          × (s'.file ≡ some whole)
          × (s'.released ≡ int n ∷ s.released)
          × ((before : Output) × (s'.output ≡ decimal n ∷ before))
  unfolding j_multi_array
  j_multi_array_lem text s n has = rw (has, c.get_int-int n) (refl, refl, refl, (_, refl))
