-- ===== src/Ota/Update.antt =====
-- What a run of the client against the server leaves.
use live_streamer.Common.{
  ap, ℕ, ◌+◌, ◌<◌, ◌≡◌, refl, List, [], ◌∷◌, length, some, true, if◌then◌else◌, arith, Bool-cases,
  inl, inr, ◌∙◌,
}
use live_streamer.Text.{Text, IsCString, codes, text_eq, eq_of_text_eq, text_eq_refl}
use live_streamer.Buffer.{max_data_size}
use live_streamer.Buffer.Frames.{max_data_size_lem, frame, length-loaded}
use live_streamer.Buffer.Reading.{received, length-received}
use live_streamer.System.Round.{length-frame}
use live_streamer.Machine.{ok}
use live_streamer.Json.{Json}
use live_streamer.Endpoint.{State, Event, sent, closed, ran}
use live_streamer.OtaServer.{updated_text, available_text}
use live_streamer.OtaServer.Answer.{Asks, Offers, reply, handled, handle_tcp_client_lem}
use live_streamer.OtaClient.{request_text, script}
use live_streamer.OtaClient.Check.{
  updated, IsUpdated, IsAvailable, Installed, asked, sig_check_update_lem, receive_updated,
  receive_available,
}
use live_streamer.OtaClient.{receive}
use live_streamer.Endpoint.Frames.{heard}
use live_streamer.Machine.{next}
use live_streamer.Sockets.{bytes}
use live_streamer.Ota.Texts.{
  length-request_text, request_text-IsCString, length-available_text, available_text-IsCString,
  length-updated_text, updated_text-IsCString, length-asked, package_addr, package_name,
}
use live_streamer.Endpoint.Link.{on_client, Link, started}
use live_streamer.Ota.{check}

-- What the two programs read of each other's messages.
pub record ReadsUpdates {Obj : Type 0} (j : Json Obj) (id v w : Text) : Type 0 where
  pub request : Asks j (request_text id v) v
  pub up_to_date : IsUpdated j updated_text
  pub available : IsAvailable j (available_text w) package_addr package_name w

-- The scripts that were run, newest first.
unfoldable pub scripts : List Event → List Text
scripts [] = []
scripts (sent sock bs ∷ log) = scripts log
scripts (closed sock ∷ log) = scripts log
scripts (ran t ∷ log) = t ∷ scripts log

module _ {Obj : Type 0} ⦃j : Json Obj⦄ where
  -- A client of the version v, and a server that offers the version w; the messages fit.
  pub record Deployed (o : Link Obj) (id v w : Text) : Type 0 where
    pub server_size : length o.server.temp_buff.cells ≡ max_data_size
    pub send_works : o.client.send_works ≡ true
    pub offers : Offers o.server w
    pub installed : Installed o.client id v
    pub id_plain : IsCString id
    pub v_plain : IsCString v
    pub w_plain : IsCString w
    pub request_fits : length id + length v + 53 < max_data_size
    pub offer_fits : length w + 130 < max_data_size

  module _ (o : Link Obj) (id v w : Text) (client_fd server_fd : ℕ) where
    -- The client after its request, and the server after its answer.
    abbrev asking : State Obj
    asking = asked (started client_fd o.client) (request_text id v)

    abbrev answering : State Obj
    answering = handled o.server server_fd (request_text id v) (reply v w)

    module _ (d : Deployed o id v w) (reads : ReadsUpdates j id v w) where
      request_lem :
          check client_fd server_fd o
          ≡ next
              (λ u. on_client (receive (bytes (frame (reply v w)))))
              (ok tt)
              (record o { server = answering; client = asking })
      unfolding check
      request_lem =
          let c : Installed (started client_fd o.client) id v = record {
            object = d.installed.object;
            has_file = d.installed.has_file;
            is_object = d.installed.is_object;
            can_write = d.installed.can_write;
            has_id = d.installed.has_id;
            has_version = d.installed.has_version;
          } in
          rw (
            sig_check_update_lem (started client_fd o.client) id v refl d.send_works c,
            handle_tcp_client_lem o.server server_fd (request_text id v) v w d.server_size
                (request_text-IsCString id v d.id_plain d.v_plain)
                (omega (arith, length-request_text id v, d.request_fits)) reads.request d.offers,
          )

      length-answering : length answering.temp_buff.cells ≡ max_data_size
      length-answering =
          length-loaded (reply v w) (received (frame (request_text id v)) o.server.temp_buff) (
            length-received (frame (request_text id v)) o.server.temp_buff d.server_size
              (length-frame (request_text id v)))

      -- The client as the answer leaves it.
      abbrev settled : State Obj
      settled =
          if text_eq v w
          then heard asking updated_text
          else updated (heard asking (available_text w)) d.installed.object package_addr
              package_name w

      pub check-settled :
          check client_fd server_fd o ≡ (ok tt, record o { server = answering; client = settled })
      check-settled =
          let c : Installed asking id v = record {
            object = d.installed.object;
            has_file = d.installed.has_file;
            is_object = d.installed.is_object;
            can_write = d.installed.can_write;
            has_id = d.installed.has_id;
            has_version = d.installed.has_version;
          } in
          let size = length-asked (request_text id v) in
          request_lem ∙ elim (Bool-cases (text_eq v w)) [
            | inl e ↦ rw (
              e,
              receive_updated asking updated_text size updated_text-IsCString
                  (omega (arith, length-updated_text, max_data_size_lem)) reads.up_to_date,
            )
            | inr e ↦ rw (
              e,
              receive_available asking (available_text w) package_addr package_name w id v size
                  (available_text-IsCString w d.w_plain)
                  (omega (arith, length-available_text w, d.offer_fits)) reads.available c,
            )
          ]

      Installed-settled : Installed settled id w
      unfolding text_eq codes
      Installed-settled = elim (Bool-cases (text_eq v w)) [
        | inl e ↦ rw e (record {
          object = d.installed.object;
          has_file = d.installed.has_file;
          is_object = d.installed.is_object;
          can_write = d.installed.can_write;
          has_id = d.installed.has_id;
          has_version = d.installed.has_version ∙ ap (λ x. some (some x)) (eq_of_text_eq v w e);
        })
        | inr e ↦ rw e (record {
          object = j.add d.installed.object (codes "version") w;
          has_file = refl;
          is_object = j.add-is_object d.installed.object (codes "version") w d.installed.is_object;
          can_write = d.installed.can_write;
          has_id =
              j.get_ex-add d.installed.object (codes "version") w (codes "streamId")
                d.installed.is_object
              ∙ d.installed.has_id;
          has_version =
              j.get_ex-add d.installed.object (codes "version") w (codes "version")
                d.installed.is_object;
        })
      ]

      send_works_settled : settled.send_works ≡ true
      send_works_settled = elim (Bool-cases (text_eq v w)) [
        | inl e ↦ rw e d.send_works
        | inr e ↦ rw e d.send_works
      ]

      scripts_settled : scripts settled.log ≡ (
          if text_eq v w
          then scripts o.client.log
          else script package_addr package_name ∷ scripts o.client.log)
      unfolding scripts
      scripts_settled = elim (Bool-cases (text_eq v w)) [ inl e ↦ rw e | inr e ↦ rw e ]

      -- A check brings the client's record to the version of the server. It runs the script of
      -- the package if the versions differ, and none otherwise; the server still offers
      -- that version.
      pub check_updates :
          length id + length w + 53 < max_data_size
          → let (r, o') = check client_fd server_fd o in
            (r ≡ ok tt)
            × Deployed o' id w w
            × (scripts o'.client.log ≡ (
                if text_eq v w
                then scripts o.client.log
                else script package_addr package_name ∷ scripts o.client.log))
      check_updates fits = rw check-settled (
        refl,
        record {
          server_size = length-answering;
          send_works = send_works_settled;
          offers = record {
            object = d.offers.object;
            has_file = d.offers.has_file;
            has_version = d.offers.has_version;
          };
          installed = Installed-settled;
          id_plain = d.id_plain;
          v_plain = d.w_plain;
          w_plain = d.w_plain;
          request_fits = fits;
          offer_fits = d.offer_fits;
        },
        scripts_settled,
      )

  -- A second check runs no script.
  pub check_twice :
      (o : Link Obj) (id v w : Text) (client_fd server_fd : ℕ)
      → Deployed o id v w
      → ReadsUpdates j id v w
      → ReadsUpdates j id w w
      → length id + length w + 53 < max_data_size
      → let (r, o') = check client_fd server_fd o in
        let (r', o'') = check client_fd server_fd o' in
        (r' ≡ ok tt) × (scripts o''.client.log ≡ scripts o'.client.log)
  check_twice o id v w cfd sfd d reads reads' fits =
      let (r, d', _) = check_updates o id v w cfd sfd d reads fits in
      let o' = (check cfd sfd o).1 in
      let (r', _, same) = check_updates o' id w w cfd sfd d' reads' fits in
      (r', same ∙ rw (text_eq_refl w))
