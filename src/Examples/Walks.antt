-- ===== src/Examples/Walks.antt =====
-- The properties of the JSON demos at concrete inputs.
use live_streamer.Common.{suc, List, ◌≡◌, ◌≢◌, refl, true, false, none, some, [], ◌∷◌, ◌<◌, arith}
use live_streamer.Common.Int.{pos}
use live_streamer.Text.{Text, codes, text_eq}
use live_streamer.Machine.{ok, fault, waiting, ◌>>◌}
use live_streamer.JsonDemos.{
  Members, null, boolean, int, string, array, object, nil, item, end, member, find,
}
use live_streamer.JsonDemos.Walk.{json_parse}
use live_streamer.JsonDemos.Depth.{depth, depth_members, json_parse-Halts}
use live_streamer.JsonDemos.Trace.{
  IsTidy, trace_members, json_parse-trace_members, json_parse_second_object,
}
use live_streamer.JsonDemos.Entry.{Typed, input2_json_file, json_from_file}
use live_streamer.JsonDemos.RoundTrip.{Fit, words_of, latest, json_from_file-input2_json_file}
use live_streamer.Examples.PlainJson
use live_streamer.Examples.PlainJson.{plain_json}

-- {"admin": false, "name": "J", "posts": 10}
abbrev author : Members
author =
    member (codes "admin") (boolean false)
      (member (codes "name") (string (codes "J")) (member (codes "posts") (int (pos 10)) end))

-- {"site": "joys", "categories": ["c", ["c++"]], "author": {...}}, as in `main`
abbrev site : Members
site = member (codes "site") (string (codes "joys")) (
    member (codes "categories")
      (array (item (string (codes "c")) (item (array (item (string (codes "c++")) nil)) nil)))
      (member (codes "author") (object author) end))

author-IsTidy : IsTidy author author
unfolding IsTidy
author-IsTidy = tt

site-IsTidy : IsTidy site site
unfolding IsTidy find codes text_eq
site-IsTidy = (refl, (tt, tt), (refl, tt, tt))

json_parse-Halts_example :
    (json_parse true (suc (depth (object site))) (object site) []).0 ≢ waiting
json_parse-Halts_example = json_parse-Halts true (object site) []

json_parse-trace_members_example :
    json_parse true (suc (depth (object site))) (object site) [] ≡ (ok tt, trace_members site [])
json_parse-trace_members_example = json_parse-trace_members true site [] site-IsTidy

no_such_member : find author (codes "b") ≡ null
unfolding find codes text_eq
no_such_member = refl

author_depth : depth_members author < 3
unfolding depth
author_depth = omega arith

json_parse_second_object_example :
    (json_parse false 4
      (object (member (codes "a") (object author) (member (codes "b") (object end) end)))
      []).0
    ≡ fault
json_parse_second_object_example =
    json_parse_second_object false 2 (codes "a") (codes "b") author end end [] author-IsTidy
      author_depth no_such_member

abbrev typed_in : List (Text × Text)
typed_in = (codes "name", codes "myStream") ∷ (codes "status", codes "off") ∷ []

abbrev no_file : Typed PlainJson.Members
no_file = record { jobj = []; file = none; writable = true; spilled = 0 }

typed_in-Fit : Fit typed_in
unfolding codes text_eq
typed_in-Fit = (refl, omega arith, omega arith, (refl, omega arith, omega arith, tt))

json_from_file-input2_json_file_example :
    (o : PlainJson.Members) × ((input2_json_file (words_of typed_in) >> json_from_file) no_file
      ≡ (ok (some o), record { jobj = o; file = some o; writable = true; spilled = 0 }))
    × ((k : Text) → PlainJson.lookup o k ≡ latest k typed_in none)
json_from_file-input2_json_file_example =
    json_from_file-input2_json_file typed_in no_file typed_in-Fit
