-- ===== src/Json.antt =====
-- The calls of json-c that the programs make, with the documented behaviour that the proofs use.
-- `Obj` is what a non-NULL `json_object *` points to. Values are read by
-- `json_object_object_get_ex` followed by `json_object_get_string`, and written by
-- `json_object_object_add` of a `json_object_new_string`; each pair is one operation here.
use live_streamer.Common.{◌≡◌, Bool, true, Option, none, some, [], if◌then◌else◌}
use live_streamer.Text.{Text, text_eq}

pub record Json (Obj : Type 0) : Type 0 where
  -- `json_object_get_type(o) == json_type_object`; a text such as `5` parses to another type.
  pub is_object : Obj → Bool
  -- `json_object_new_object()`
  pub new_object : Obj
  -- `none`: no such member (get_ex returns FALSE and sets the value to NULL), also for a value
  -- that is no object; `some none`: a JSON null.
  pub get_ex : Obj → Text → Option (Option Text)
  pub add : Obj → Text → Text → Obj
  -- `json_tokener_parse`: `none` is NULL.
  pub tokener_parse : Text → Option Obj
  pub new_object-is_object : is_object new_object ≡ true
  pub add-is_object : (o : Obj) (k v : Text) → is_object o ≡ true → is_object (add o k v) ≡ true
  pub get_ex-new_object : (k : Text) → get_ex new_object k ≡ none
  pub get_ex-add :
      (o : Obj) (k v j : Text)
      → is_object o ≡ true
      → get_ex (add o k v) j ≡ (if text_eq k j then some (some v) else get_ex o j)
  pub tokener_parse-nil : tokener_parse [] ≡ none

module _ {Obj : Type 0} ⦃j : Json Obj⦄ where
  -- The `char *` that the pair of reading calls gives for a member, NULL if there is none.
  unfoldable pub get_string : Option Obj → Text → Option Text
  get_string none k = none
  get_string (some o) k = elim (j.get_ex o k) [ none ↦ none | some v ↦ v ]

  pub get_string_lem :
      (o : Obj) (k : Text) (v : Option Text) → j.get_ex o k ≡ some v → get_string (some o) k ≡ v
  unfolding get_string
  get_string_lem o k v h = rw (get_string, h)
