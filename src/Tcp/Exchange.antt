-- ===== src/Tcp/Exchange.antt =====
-- What an exchange leaves on both sides.
use live_streamer.Common.{
  ℕ, ◌+◌, ◌<◌, ◌≡◌, refl, ◌∷◌, List, length, some, true, arith, ◌∙◌, length-replicate,
}
use live_streamer.Text.{Text, IsCString, codes, text_eq, text_eq_refl}
use live_streamer.Buffer.{max_data_size}
use live_streamer.Buffer.Reading.{length-received}
use live_streamer.Buffer.Leftover.{
  printed, wire, length-wire, c_string-wire, length-printed, length-memset,
}
use live_streamer.Machine.{ok}
use live_streamer.Json.{Json, get_string, get_string_lem}
use live_streamer.StreamerServer.Comm.{action_text}
use live_streamer.StreamerClient.Comm.{status_text}
use live_streamer.System.Messages.{
  IsPlain, IsPlain-IsCString, ReadsMessages, length-status_text, length-action_text,
  status_text-IsCString, action_text-IsCString,
}
use live_streamer.Endpoint.{State, read, closed}
use live_streamer.Endpoint.Link.{Link, started}
use live_streamer.TcpServer.Streamer.Greeting.{Reported, stored, asked, greet_lem, part_lem}
use live_streamer.TcpClient.Follow.{Named, Asks, reported, noted, heard, sig_lem, receive_live}
use live_streamer.TcpClient.{sig_ready}
use live_streamer.Tcp.{exchange}

module _ {Obj : Type 0} ⦃j : Json Obj⦄ where
  -- A client of the stream `id`, whose file holds `o`, and a server that can keep its file.
  pub record InTouch (l : Link Obj) (id : Text) (o : Obj) : Type 0 where
    pub server_size : length l.server.temp_buff.cells ≡ max_data_size
    pub server_can_write : l.server.writable ≡ true
    pub named : Named l.client id o
    pub is_object : j.is_object o ≡ true
    pub can_write : l.client.writable ≡ true
    pub send_works : l.client.send_works ≡ true
    pub plain : IsPlain id
    pub short : length id + 37 < max_data_size

  module _ (l : Link Obj) (id : Text) (o : Obj) (client_fd server_fd : ℕ) (t : InTouch l id o)
      (reads : ReadsMessages j) where
    -- The three messages.
    abbrev ready_text : Text
    ready_text = status_text id (codes "ready")

    abbrev asking_text : Text
    asking_text = action_text id (codes "live")

    abbrev live_text : Text
    live_text = status_text id (codes "live")

    ready_fits : length ready_text < max_data_size
    unfolding codes
    ready_fits = omega (arith, length-status_text id (codes "ready"), t.short)

    asking_fits : length asking_text < max_data_size
    unfolding codes
    asking_fits = omega (arith, length-action_text id (codes "live"), t.short)

    live_fits : length live_text < max_data_size
    unfolding codes
    live_fits = omega (arith, length-status_text id (codes "live"), t.short)

    id-IsCString : IsCString id
    id-IsCString = IsPlain-IsCString id t.plain

    ready_text-IsCString : IsCString ready_text
    unfolding codes
    ready_text-IsCString = status_text-IsCString id (codes "ready") id-IsCString (omega arith)

    asking_text-IsCString : IsCString asking_text
    unfolding codes
    asking_text-IsCString = action_text-IsCString id (codes "live") id-IsCString (omega arith)

    live_text-IsCString : IsCString live_text
    unfolding codes
    live_text-IsCString = status_text-IsCString id (codes "live") id-IsCString (omega arith)

    ready-Reported : Reported j ready_text id
    unfolding codes
    ready-Reported =
        let r = reads.reads_status id (codes "ready") t.plain (omega arith) in
        record { object = r.object; parsed = r.parsed; has_id = r.has_id }

    live-Reported : Reported j live_text id
    unfolding codes
    live-Reported =
        let r = reads.reads_status id (codes "live") t.plain (omega arith) in
        record { object = r.object; parsed = r.parsed; has_id = r.has_id }

    asking-Asks : Asks j asking_text id (codes "live")
    unfolding codes text_eq
    asking-Asks =
        let r = reads.reads_action id (codes "live") t.plain (omega arith) in
        record {
          object = r.object;
          parsed = r.parsed;
          has_id = r.has_id;
          has_action = r.has_value;
          has_no_status = r.has_no_other (codes "status") refl refl;
        }

    -- The two sides after each message.
    abbrev client0 : State Obj
    client0 = started client_fd l.client

    abbrev client1 : State Obj
    client1 = reported client0 ready_text

    abbrev report : List ℕ
    report = wire ready_text client0.temp_buff

    abbrev server0 : State Obj
    server0 = stored (record l.server { sock = some server_fd }) report id ready-Reported.object

    abbrev server1 : State Obj
    server1 = asked server0 asking_text

    abbrev request : List ℕ
    request = wire asking_text server0.temp_buff

    abbrev noted1 : State Obj
    noted1 = noted (heard client1 request) o (codes "live")

    abbrev client2 : State Obj
    client2 = reported noted1 live_text

    abbrev answer : List ℕ
    answer = wire live_text noted1.temp_buff

    abbrev server2 : State Obj
    server2 = record (stored server1 answer id live-Reported.object) {
      log = closed server1.sock ∷ server1.log;
    }

    client0_size : length client0.temp_buff.cells ≡ max_data_size
    client0_size = length-replicate max_data_size 0

    client1_size : length client1.temp_buff.cells ≡ max_data_size
    client1_size =
        length-memset max_data_size (printed ready_text client0.temp_buff)
        ∙ length-printed ready_text client0.temp_buff
        ∙ client0_size

    server0_size : length server0.temp_buff.cells ≡ max_data_size
    server0_size =
        length-received report l.server.temp_buff t.server_size
          (length-wire ready_text client0.temp_buff)

    server1_size : length server1.temp_buff.cells ≡ max_data_size
    server1_size = length-printed asking_text server0.temp_buff ∙ server0_size

    noted1_size : length noted1.temp_buff.cells ≡ max_data_size
    noted1_size =
        length-received request client1.temp_buff client1_size
          (length-wire asking_text server0.temp_buff)

    client0-Named : Named client0 id o
    client0-Named = record { has_file = t.named.has_file; has_id = t.named.has_id }

    client1-Named : Named client1 id o
    client1-Named = record { has_file = t.named.has_file; has_id = t.named.has_id }

    exchange_lem : exchange client_fd server_fd l ≡ (
      ok tt,
      record l {
        server = server2;
        client = record client2 { log = closed client2.sock ∷ client2.log };
      },
    )
    unfolding exchange sig_ready
    exchange_lem = rw (
      sig_lem client0 id (codes "ready") o client0-Named t.send_works,
      greet_lem l.server server_fd report ready_text id t.server_size
          (length-wire ready_text client0.temp_buff)
          (c_string-wire ready_text client0.temp_buff client0_size ready_text-IsCString ready_fits)
          t.server_can_write ready-Reported,
      receive_live client1 request asking_text id o client1_size
          (length-wire asking_text server0.temp_buff)
          (c_string-wire asking_text server0.temp_buff server0_size asking_text-IsCString
            asking_fits)
          client1-Named t.is_object t.can_write t.send_works asking-Asks,
      part_lem server1 answer live_text id server1_size (length-wire live_text noted1.temp_buff)
          (c_string-wire live_text noted1.temp_buff noted1_size live_text-IsCString live_fits)
          t.server_can_write live-Reported,
    )

    -- After one connection the server's file holds the stream with the status "live", and the
    -- client's file the action "live".
    pub exchange_settles :
        let (r, l') = exchange client_fd server_fd l in
        (r ≡ ok tt)
        × (get_string (read l'.server.file) (codes "streamId") ≡ some id)
        × (get_string (read l'.server.file) (codes "status") ≡ some (codes "live"))
        × (get_string (read l'.client.file) (codes "action") ≡ some (codes "live"))
    unfolding codes read live-Reported
    exchange_settles =
        let r = reads.reads_status id (codes "live") t.plain (omega arith) in
        rw exchange_lem (
          refl,
          get_string_lem r.object (codes "streamId") (some id) r.has_id,
          get_string_lem r.object (codes "status") (some (codes "live")) r.has_value,
          get_string_lem (j.add o (codes "action") (codes "live")) (codes "action")
              (some (codes "live"))
              (j.get_ex-add o (codes "action") (codes "live") (codes "action") t.is_object
                ∙ rw (text_eq_refl (codes "action"))),
        )
