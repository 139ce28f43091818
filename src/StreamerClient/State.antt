-- ===== src/StreamerClient/State.antt =====
-- The globals of StreamerClient/src, and its use of the streaming part.
use live_streamer.Common.{ℕ, List, ◌∷◌, Bool, Option, ⊤}
use live_streamer.Text.{Text, codes}
use live_streamer.Buffer.{Buffer}
use live_streamer.Machine.{M, ok}
use live_streamer.Json.{Json, get_string}
use live_streamer.Files.{Files, from_file, to_file, object_add}
use live_streamer.Machine.{◌>>=◌, pure}

-- The functions of gstreamer/VA_gstreamer.c that the dialogue calls, over the state `P` of the
-- pipeline: `setAll` and `initLive` return whether they gave 0, `stopStreaming` the result of the
-- state change (1 is success).
pub record Streaming (P : Type 0) : Type 0 where
  pub set_all : M P Bool
  pub init_live : M P Bool
  pub start_streaming : M P ⊤
  pub start_live : M P ⊤
  pub stop_live : M P ⊤
  pub stop_streaming : M P ℕ

pub data Event : Type 0 where
  sent : Option ℕ → List ℕ → Event
  closed : Option ℕ → Event

pub record State (Obj P : Type 0) : Type 0 where
  pub files : Files Obj
  pub srvr_sock : Option ℕ
  pub numbytes : ℕ
  pub temp_buff : Buffer
  pub status : Text
  pub pipeline : P
  -- Whether `send` works on the connection.
  pub send_works : Bool
  -- Newest first.
  pub log : List Event

module _ {Obj P : Type 0} where
  abbrev pub on_files : {A : Type 0} → M (Files Obj) A → M (State Obj P) A
  on_files m s = let (r, f) = m s.files in (r, record s { files = f })

  abbrev pub on_pipeline : {A : Type 0} → M P A → M (State Obj P) A
  on_pipeline m s = let (r, p) = m s.pipeline in (r, record s { pipeline = p })

  abbrev pub emit : Event → M (State Obj P) ⊤
  emit e s = (ok tt, record s { log = e ∷ s.log })

-- TCPClient/PropJson.c: the one file of properties.
abbrev pub properties_file : Text
properties_file = codes "properties.json"

module _ {Obj : Type 0} ⦃j : Json Obj⦄ where
  unfoldable pub json_from_file : M (Files Obj) (Option Obj)
  unfolding from_file
  json_from_file = from_file properties_file

  unfoldable pub json_to_file : Obj → M (Files Obj) ⊤
  unfolding to_file
  json_to_file jobj = to_file properties_file jobj

  unfoldable pub set_json_value : Text → Option Text → M (Files Obj) ⊤
  unfolding json_from_file object_add json_to_file
  set_json_value key value = do
    temp_json ← json_from_file
    temp_json ← object_add temp_json key value
    json_to_file temp_json

  unfoldable pub get_json_value_from_file : Text → M (Files Obj) (Option Text)
  unfolding json_from_file
  get_json_value_from_file key = do temp_json ← json_from_file; pure (get_string temp_json key)
