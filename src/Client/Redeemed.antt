-- ===== src/Client/Redeemed.antt =====
-- PollbookClient::verify_ticket and CheckinService::handle_trusted_client together: a ticket from the
-- device that presents it to the answer that the device gets.
use pollbook_server.Prelude.{
  ◌≡◌, ap, ◌∙◌, ℕ, ◌<◌, true, none, some, [], ◌∷◌, ◌++◌, nat_eq, text_eq, Text, length,
}
use pollbook_server.Map.{lookup}
use pollbook_server.Text.{u64_mod, u32_mod}
use pollbook_server.Run.{done}
use pollbook_server.External.{External, ExternalLaws, valid}
use pollbook_server.Signature.{Verifier, sign_text}
use pollbook_server.Messages.Ticket.{
  TicketRequest, TicketResponse, ticket_body_to_json, ticket_request_to_json,
  ticket_response_body_to_json, ticket_response_to_json,
}
use pollbook_server.Messages.TicketTrip.{IsTicketRequest}
use pollbook_server.Checkin.State.{
  ClientInfo, trusted_client, checked_in, Timer, Service, Settings, Ambient, Endpoint, write,
  cancel_timer, read_payload, emit,
}
use pollbook_server.Checkin.Files.{find_voter, read_from_csv}
use pollbook_server.Checkin.Tickets.{ticket_response}
use pollbook_server.Checkin.Network.{size_read, payload_read, received, step, run}
use pollbook_server.Checkin.Book.{book, IsConsistent}
use pollbook_server.Checkin.Redemption.{ticket_complete}
use pollbook_server.Checkin.Refines.Cases.{Redeems}
use pollbook_server.Client.{checkin_server, PollbookClient, ClientAmbient, start, send}
use pollbook_server.Client.Tickets.{verify_ticket}
use pollbook_server.Client.Lines.{size_line, payload_line, frame-lines}
use pollbook_server.Client.Progress.{drive}
use pollbook_server.Client.Delivered.{checkin_size-read, got}
use pollbook_server.Client.Presented.{
  read_from_csv-signer, read_from_csv-effects, ticket_payload-read, presented_ticket, presenting,
  ticket_sends, verdict_arrives,
}

module _ (x : External) (laws : ExternalLaws x) (st : Settings) (a : ClientAmbient)
    (world : Ambient) (ip : Endpoint) where
  -- The service where the message of this length has arrived from the client `id`, and the ticket
  -- file has been read.
  abbrev pub informed : ℕ → ℕ → Service → Service
  informed size id s =
      read_from_csv world (record (emit (read_payload ip size) s) { client_id = id })

  -- The approval of this request that the service sends.
  abbrev pub grant_of : TicketRequest → ℕ → Text → Text → TicketResponse
  grant_of r v secret signature = record {
    body = ticket_response x st world true r v (find_voter world.voter_list v) secret;
    signature = signature;
  }

  -- A ticket and a PIN that a trusted device sends are read by the check-in service as they were
  -- sent; where the request meets the service's conditions, the voter is checked in afterwards and
  -- the timer is used up, and the line that the service writes makes the device report a success
  -- with the ticket's secret to its caller, with nothing left in flight. The numbers fit their
  -- types, the parser inverts the serializer on both messages, the signatures of EVP are correct
  -- for the service's pair of keys, and signing works.
  pub redemption_round_trip :
      (ticket : Text) (pin v : ℕ) (c : PollbookClient) (s : Service) (id : ℕ) (info : ClientInfo)
      (signature secret service_signature : Text) (t : Timer) (verifier : Verifier)
      → let r = presented_ticket x laws a ticket pin signature in
        let message = x.dump (ticket_request_to_json x r) in
        let response = grant_of r v secret service_signature in
        let reply = x.dump (ticket_response_to_json x response) in
        c.in_flight ≡ []
        → c.checkin_connected ≡ true
        → c.checkin_service_verifier ≡ some verifier
        → IsTicketRequest r
        → v < u32_mod
        → length message < u64_mod
        → x.parse (payload_line message) ≡ some (ticket_request_to_json x r)
        → x.parse (payload_line reply) ≡ some (ticket_response_to_json x response)
        → ((u sig : Text)
            → x.digest_sign s.signer.private_key u ≡ some sig
            → x.digest_verify verifier.public_key u sig ≡ valid)
        → sign_text x (x.dump (ticket_body_to_json x r.body)) c.private_key_signer ≡ done signature
        → lookup ip s.client_id_map ≡ some id
        → lookup id s.clients ≡ some info
        → info.type ≡ trusted_client
        → IsConsistent (book (informed (length message) id s))
        → Redeems x st world ip r (informed (length message) id s) v secret t
        → sign_text x (x.dump (ticket_response_body_to_json x response.body)) s.signer
          ≡ done service_signature
        → (c1 : PollbookClient) × (verify_ticket x a ticket pin c ≡ done c1)
          × (c1.sent ≡ (checkin_server, size_line message ++ payload_line message) ∷ c.sent)
          × ((s' : Service) × (run x st
                  ((world, size_read ip (received (size_line message)))
                    ∷ (world, payload_read ip (length message) (received (payload_line message)))
                    ∷ [])
                  s
                ≡ done s')
              × (lookup v s'.voter_status_table ≡ some checked_in)
              × (lookup v s'.request_timers ≡ none)
              × (s'.effects
                  ≡ write ip (payload_line reply)
                    ∷ cancel_timer v
                    ∷ read_payload ip (length message)
                    ∷ s.effects))
          × ((c2 : PollbookClient) × (drive x
                  (got x laws a [] ∷ got x laws a (payload_line reply) ∷ [])
                  c1
                ≡ done c2)
              × (c2.current_request_promise
                  ≡ some (record { success = true; failure_reason = secret }))
              × (c2.in_flight ≡ []))
  unfolding run step emit start send ticket_response
  redemption_round_trip ticket pin v c s id info signature secret service_signature t verifier idle
        connected known fits v_fits small parses parses_reply correct signs is_known client device
        consistent redeems service_signs =
      let r : TicketRequest = presented_ticket x laws a ticket pin signature in
      let message : Text = x.dump (ticket_request_to_json x r) in
      let response : TicketResponse = grant_of r v secret service_signature in
      let s1 : Service = emit (read_payload ip (length message)) s in
      let s2 : Service = informed (length message) id s in
      let (s', handles, is_checked_in, no_timer, effects) =
        ticket_complete x st world ip r s2 v secret service_signature t consistent redeems
          (rw (read_from_csv-signer world (record s1 { client_id = id })) service_signs) in
      (
        presenting x laws a ticket pin signature c,
        ticket_sends x laws a ticket pin signature c connected signs,
        ap (λ bytes. (checkin_server, bytes) ∷ c.sent) (frame-lines message),
        (
          s',
          rw (
            checkin_size-read x laws st world ip message s small,
            ticket_payload-read x laws st world ip r id info s1 fits is_known client device parses,
            handles,
          ),
          is_checked_in,
          no_timer,
          effects
              ∙ ap
                  (λ es.
                    write ip (payload_line (x.dump (ticket_response_to_json x response)))
                    ∷ cancel_timer v
                    ∷ es)
                  (read_from_csv-effects world (record s1 { client_id = id })),
        ),
        verdict_arrives x laws a ticket pin signature response s.signer verifier c (v_fits, fits.2)
            correct service_signs known idle parses_reply,
      )
