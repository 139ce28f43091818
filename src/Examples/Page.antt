-- ===== src/Examples/Page.antt =====
-- The web page of the sketch at a concrete input: a request of one line, with a turn in between at
-- which nothing has come in.
use live_streamer.Common.{List, [], ◌∷◌, true, false, some, ◌≡◌}
use live_streamer.Text.{codes}
use live_streamer.Machine.{ok}
use live_streamer.WebPage.{
  in_calculate, Shown, hash_map, newline, carriage_return, response, Poll, silent, char, Serving,
  serve_page,
}
use live_streamer.WebPage.Requests.{
  heard, leaves, strip, has_blank_line, ends_request, serve_page_lem,
}

abbrev shown : Shown
shown = record {
  ac_x = codes "-12";
  ac_y = codes "4";
  filter_value_z = codes "16384.00";
  system_perfect = codes "1";
  system_mal = codes "0";
  temp_alarm = codes "0";
  earthquake_alarm = codes "0";
  detail = codes "null";
}

abbrev serving : Serving
serving = record {
  current_line_is_blank = false;
  received = [];
  replies = [];
  stopped = false;
  count2 = 0;
  system_perfect = false;
  system_mal = false;
}

abbrev polls : List Poll
polls =
    char b'G'
    ∷ silent
    ∷ char carriage_return
    ∷ char newline
    ∷ char carriage_return
    ∷ char newline
    ∷ []

serve_page_lem_example :
    let (o, s') = serve_page in_calculate shown (some polls) serving in
    (o ≡ ok tt) × (s'.replies ≡ response (hash_map in_calculate shown) ∷ []) × (s'.stopped ≡ true)
unfolding heard leaves strip has_blank_line ends_request
serve_page_lem_example = serve_page_lem in_calculate shown polls serving
