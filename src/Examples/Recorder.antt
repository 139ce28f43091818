-- ===== src/Examples/Recorder.antt =====
-- The recorder of flv.c at a concrete input: a pad of the tee does not link.
use live_streamer.Common.{◌+◌, ◌≡◌, ◌≢◌, refl, List, [], ◌∷◌, Bool, true, false, some}
use live_streamer.Text.{codes, text_eq}
use live_streamer.Machine.{waiting}
use live_streamer.Json.{get_string}
use live_streamer.Streaming.{nowhere, freed}
use live_streamer.Streaming.Control.{other, info}
use live_streamer.FlvRecorder.{Element, Gst, Recorder, q_live}
use live_streamer.FlvRecorder.Run.{Happening, message, main}
use live_streamer.FlvRecorder.Ends.{loop_end, main_end, late_uses, main_lem}
use live_streamer.Examples.PlainJson.{Members, lookup, plain_json}

links_one : Element → Bool
links_one q_live = false
links_one _ = true

abbrev gst : Gst
gst = record {
  makes = λ e. true;
  makes_caps = λ c. true;
  has_template = true;
  pads_link = links_one;
  now = codes "101500_161101";
}

abbrev recorder : Recorder Members
recorder = record {
  properties = some (
      (codes "location", codes "/home/")
      ∷ (codes "serverIp", codes "10.0.0.1")
      ∷ (codes "serverApp", codes "live")
      ∷ (codes "streamId", codes "cam")
      ∷ []);
  first_int = true;
  time_str = [];
  pipeline_at = nowhere;
  freed_uses = 0;
  spilled = 0;
  calls = [];
}

abbrev happenings : List Happening
happenings = message other ∷ message info ∷ []

ends : loop_end true happenings ≢ waiting
unfolding loop_end
ends e = cc

main_lem_example :
    let (o, r') = main gst happenings recorder in
    (o ≡ main_end (loop_end true happenings))
    × (r'.freed_uses ≡ 0 + late_uses gst)
    × (r'.pipeline_at ≡ freed)
unfolding codes text_eq lookup get_string
main_lem_example =
    main_lem gst happenings recorder (codes "/home/") (codes "10.0.0.1") (codes "live")
      (codes "cam") refl refl refl refl refl refl ends
