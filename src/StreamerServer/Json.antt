-- ===== src/StreamerServer/Json.antt =====
-- StreamerServer/src/srvrJson.c: one status file for each stream.
pub mod Effect
pub mod Address
use live_streamer.Common.{ℕ, ◌++◌, take, Option, none, some, ⊤}
use live_streamer.Text.{Text, codes}
use live_streamer.Machine.{M, pure, crash, deref, ◌>>=◌, ◌>>◌}
use live_streamer.Json.{Json}
use live_streamer.Files.{Files, from_file, to_file, object_add}

-- The member names and values that the server uses.
abbrev pub stream_id_key : Text
stream_id_key = codes "streamId"

abbrev pub status_key : Text
status_key = codes "status"

abbrev pub action_key : Text
action_key = codes "action"

abbrev pub off : Text
off = codes "off"

abbrev pub live : Text
live = codes "live"

-- The text that `snprintf(fn, 64, "status/%s.json", file)` leaves in the 64 bytes.
unfoldable pub address : Text → Text
address file = take 63 (codes "status/" ++ (file ++ codes ".json"))

module _ {Obj : Type 0} ⦃j : Json Obj⦄ where
  -- A NULL name is handed to `%s`.
  unfoldable pub json_file_with_addr : Option Text → M (Files Obj) Text
  json_file_with_addr none = crash
  json_file_with_addr (some file) = pure (address file)

  unfoldable pub json_to_file : Obj → Option Text → M (Files Obj) ⊤
  unfolding json_file_with_addr to_file
  json_to_file jobj file = do fn ← json_file_with_addr file; to_file fn jobj

  unfoldable pub new_json_file : Option Text → M (Files Obj) (Option Obj)
  unfolding json_to_file from_file object_add
  new_json_file file = do
    temp_obj ← object_add (some j.new_object) stream_id_key file
    temp_obj ← object_add (some temp_obj) status_key (some off)
    temp_obj ← object_add (some temp_obj) action_key (some live)
    json_to_file temp_obj file
    fn ← json_file_with_addr file
    from_file fn

  -- What `JsonFromFile` does with the object that it read.
  unfoldable pub or_new_file : Option Obj → Option Text → M (Files Obj) (Option Obj)
  or_new_file none file = new_json_file file
  or_new_file (some temp) file = pure (some temp)

  unfoldable pub json_from_file : Option Text → M (Files Obj) (Option Obj)
  unfolding or_new_file json_file_with_addr from_file
  json_from_file file = do fn ← json_file_with_addr file; temp ← from_file fn; or_new_file temp file

  unfoldable pub set_json_value : Text → Option Text → Option Text → M (Files Obj) ⊤
  unfolding object_add json_to_file
  set_json_value key value file = do
    temp_json ← json_from_file file
    temp_json ← object_add temp_json key value
    json_to_file temp_json file

  -- `json_object_object_get_ex(tempJson, …)`, where a NULL object has no member.
  unfoldable pub member : Option Obj → Text → Option (Option Text)
  member none key = none
  member (some o) key = j.get_ex o key

  -- A missing member makes the server write the action "off", and NULL comes back.
  unfoldable pub value_or_off :
      Option (Option Text) → Option Obj → Option Text → M (Files Obj) (Option Text)
  unfolding object_add json_to_file
  value_or_off none temp_json file = do
    temp_json ← object_add temp_json action_key (some off)
    json_to_file temp_json file
    pure none
  value_or_off (some value) temp_json file = pure value

  unfoldable pub get_json_value_from_file : Text → Option Text → M (Files Obj) (Option Text)
  unfolding value_or_off member
  get_json_value_from_file key file = do
    temp_json ← json_from_file file
    value_or_off (member temp_json key) temp_json file
