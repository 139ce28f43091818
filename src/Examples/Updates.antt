-- ===== src/Examples/Updates.antt =====
-- The properties of the accept loop and of the update check at concrete inputs.
use live_streamer.Common.{
  Option, ◌≡◌, refl, true, false, none, some, [], ◌∷◌, if◌then◌else◌, arith, length-replicate,
}
use live_streamer.Text.{Text, codes, text_eq}
use live_streamer.Buffer.{max_data_size}
use live_streamer.Buffer.Frames.{max_data_size_lem}
use live_streamer.Machine.{ok, waiting}
use live_streamer.Json.{Json}
use live_streamer.Sockets.Listen.{Setup, Arrival, start_server}
use live_streamer.Sockets.Accepting.{onto, start_server_serves}
use live_streamer.Endpoint.{State, holds}
use live_streamer.OtaServer.Answer.{Asks}
use live_streamer.OtaServer.{updated_text, available_text}
use live_streamer.OtaClient.{request_text, script}
use live_streamer.Endpoint.Link.{Link}
use live_streamer.Ota.{check}
use live_streamer.Ota.Texts.{package_addr, package_name}
use live_streamer.Ota.Update.{Deployed, ReadsUpdates, scripts, check_updates}
use live_streamer.Examples.PlainJson.{Members, lookup, parse, plain_json}
use live_streamer.Examples.States.{cam, empty_buffer}

abbrev set_up : Setup
set_up = record { socket = some 3; setsockopt = true; bind = true; listen = true }

abbrev arrival : Arrival
arrival = record { accept = some 5; malloc = true; pthread_create = true }

abbrev failed_accept : Arrival
failed_accept = record { accept = none; malloc = true; pthread_create = true }

abbrev refused : Arrival
refused = record { accept = some 6; malloc = true; pthread_create = false }

start_server_serves_example :
    start_server set_up (failed_accept ∷ arrival ∷ []) [] ≡ (waiting, 5 ∷ [])
unfolding onto
start_server_serves_example =
    start_server_serves set_up (failed_accept ∷ arrival ∷ []) [] ((λ e. cc), refl, refl, refl)
      ((λ h. refl), ((λ h. refl), tt))

-- The JSON library of the examples, with one text more: it reads the unquoted version.
abbrev newest : Text
newest = codes "2"

abbrev oldest : Text
oldest = codes "1"

abbrev offer : Members
offer =
    (codes "status", codes "available")
    ∷ (codes "addr", package_addr)
    ∷ (codes "package", package_name)
    ∷ (codes "version", newest)
    ∷ []

parse_offer : Text → Option Members
parse_offer t = if text_eq t (available_text newest) then some offer else parse t

parse_offer-nil : parse_offer [] ≡ none
unfolding parse_offer available_text codes text_eq parse
parse_offer-nil = refl

abbrev offer_json : Json Members
offer_json = record plain_json { tokener_parse = parse_offer; tokener_parse-nil = parse_offer-nil }

abbrev endpoint : Members → State Members
endpoint m = record {
  file = holds m;
  writable = true;
  sock = none;
  numbytes = 0;
  temp_buff = empty_buffer;
  strm_id = none;
  send_works = true;
  log = [];
}

abbrev ota : Link Members
ota = record {
  server = endpoint ((codes "version", newest) ∷ []);
  client = endpoint ((codes "streamId", cam) ∷ (codes "version", oldest) ∷ []);
}

ota-Deployed : Deployed ⦃j = offer_json⦄ ota cam oldest newest
unfolding codes text_eq lookup
ota-Deployed = record {
  server_size = length-replicate max_data_size 0;
  send_works = refl;
  offers = record { object = (codes "version", newest) ∷ []; has_file = refl; has_version = refl };
  installed = record {
    object = (codes "streamId", cam) ∷ (codes "version", oldest) ∷ [];
    has_file = refl;
    is_object = refl;
    can_write = refl;
    has_id = refl;
    has_version = refl;
  };
  id_plain = omega arith;
  v_plain = omega arith;
  w_plain = omega arith;
  request_fits = omega (arith, max_data_size_lem);
  offer_fits = omega (arith, max_data_size_lem);
}

oldest-Asks : Asks offer_json (request_text cam oldest) oldest
unfolding codes text_eq lookup parse parse_offer request_text available_text
oldest-Asks = record {
  object =
      (codes "streamId", cam) ∷ (codes "version", oldest) ∷ (codes "action", codes "update") ∷ [];
  parsed = refl;
  has_action = refl;
  has_version = refl;
}

newest-Asks : Asks offer_json (request_text cam newest) newest
unfolding codes text_eq lookup parse parse_offer request_text available_text
newest-Asks = record {
  object =
      (codes "streamId", cam) ∷ (codes "version", newest) ∷ (codes "action", codes "update") ∷ [];
  parsed = refl;
  has_action = refl;
  has_version = refl;
}

reads_updates :
    (v : Text) → Asks offer_json (request_text cam v) v → ReadsUpdates offer_json cam v newest
unfolding codes text_eq lookup parse parse_offer updated_text available_text
reads_updates v a = record {
  request = a;
  up_to_date = record {
    object = (codes "status", codes "updated") ∷ [];
    parsed = refl;
    has_status = refl;
  };
  available = record {
    object = offer;
    parsed = refl;
    has_status = refl;
    has_addr = refl;
    has_package = refl;
    has_version = refl;
  };
}

check_updates_example :
    let (r, o') = check ⦃j = offer_json⦄ 3 4 ota in
    (r ≡ ok tt)
    × Deployed ⦃j = offer_json⦄ o' cam newest newest
    × (scripts o'.client.log
        ≡ (if text_eq oldest newest then [] else script package_addr package_name ∷ []))
unfolding codes scripts
check_updates_example =
    check_updates ⦃j = offer_json⦄ ota cam oldest newest 3 4 ota-Deployed
      (reads_updates oldest oldest-Asks) (omega (arith, max_data_size_lem))
