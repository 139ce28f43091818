-- ===== src/Examples/Demo.antt =====
-- The properties of the websocket demos at a concrete input.
use live_streamer.Common.Int.{pos}
use live_streamer.EchoServer
use live_streamer.EchoServer.Echoes.{messages, interrupted, reverse_onto, service_loop_echoes}
use live_streamer.Common.{List, ◌≡◌, refl, true, none, false, some, [], ◌∷◌, if◌then◌else◌}
use live_streamer.Machine.{ok, waiting}
use live_streamer.WsClient
use live_streamer.WsClient.{live_request, status_request, Flags, Reason, Turn, callback, look}
use live_streamer.WsClient.Ends.{ends_in, ends_by, writes, main-ends_in}

abbrev no_flags : Flags
no_flags = record {
  connection_flag = false;
  destroy_flag = false;
  writeable_flag = false;
  log = [];
}

abbrev turns : List Turn
turns =
    callback Reason.established
    ∷ callback Reason.receive
    ∷ look
    ∷ callback Reason.writeable
    ∷ callback Reason.receive
    ∷ []

main-ends_in_example : (WsClient.main true (some 1) (some 40) turns no_flags).0 ≡ ok (some 0)
unfolding ends_in ends_by writes
main-ends_in_example = main-ends_in true (some 1) (some 40) turns no_flags refl refl

-- A message, one that is cut at its NUL, and an end.
abbrev visits : List EchoServer.Event
visits =
    EchoServer.Event.callback EchoServer.Reason.established none
    ∷ EchoServer.Event.callback EchoServer.Reason.receive (some (104 ∷ 105 ∷ 0 ∷ 9 ∷ []))
    ∷ EchoServer.Event.sigint
    ∷ []

service_loop_echoes_example :
    EchoServer.service_loop (some 1) (pos 2) visits (record { destroy_flag = false; log = [] }) ≡ (
      if interrupted visits then ok tt else waiting,
      record { destroy_flag = interrupted visits; log = reverse_onto (messages visits) [] },
    )
service_loop_echoes_example = service_loop_echoes 1 (pos 2) visits [] tt
