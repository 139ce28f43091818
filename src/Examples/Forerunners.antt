-- ===== src/Examples/Forerunners.antt =====
-- The properties of TCPClient and TCPServer at concrete inputs.
use live_streamer.Common.{◌≡◌, refl, true, none, some, [], ◌∷◌, arith, length-replicate}
use live_streamer.Text.{codes, text_eq}
use live_streamer.Buffer.{max_data_size}
use live_streamer.Buffer.Frames.{max_data_size_lem}
use live_streamer.Machine.{ok}
use live_streamer.Json.{get_string}
use live_streamer.Endpoint.{State, absent, holds, read}
use live_streamer.Endpoint.Link.{Link}
use live_streamer.Tcp.{exchange}
use live_streamer.Tcp.Exchange.{InTouch, exchange_settles}
use live_streamer.Examples.PlainJson.{Members, lookup, plain_json, plain_json-ReadsMessages}
use live_streamer.Examples.States.{cam, empty_buffer}

abbrev tcp_server : State Members
tcp_server = record {
  file = absent;
  writable = true;
  sock = none;
  numbytes = 0;
  temp_buff = empty_buffer;
  strm_id = none;
  send_works = true;
  log = [];
}

abbrev properties : Members
properties = (codes "streamId", cam) ∷ []

abbrev tcp_link : Link Members
tcp_link = record { server = tcp_server; client = record tcp_server { file = holds properties } }

tcp_link-InTouch : InTouch tcp_link cam properties
unfolding codes text_eq lookup
tcp_link-InTouch = record {
  server_size = length-replicate max_data_size 0;
  server_can_write = refl;
  named = record { has_file = refl; has_id = refl };
  is_object = refl;
  can_write = refl;
  send_works = refl;
  plain = omega arith;
  short = omega (arith, max_data_size_lem);
}

exchange_settles_example :
    let (r, l') = exchange 3 4 tcp_link in
    (r ≡ ok tt)
    × (get_string (read l'.server.file) (codes "streamId") ≡ some cam)
    × (get_string (read l'.server.file) (codes "status") ≡ some (codes "live"))
    × (get_string (read l'.client.file) (codes "action") ≡ some (codes "live"))
exchange_settles_example =
    exchange_settles tcp_link cam properties 3 4 tcp_link-InTouch plain_json-ReadsMessages
