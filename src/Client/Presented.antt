-- ===== src/Client/Presented.antt =====
-- PollbookClient::verify_ticket and CheckinService::handle_trusted_client: what each reads of the
-- other's message.
use pollbook_server.Prelude.{
  ◌≡◌, refl, ℕ, true, false, none, some, [], ◌∷◌, nat_eq, text_eq, nat_beq_iff, text_beq, Text,
  length, arith,
}
use pollbook_server.Map.{lookup}
use pollbook_server.Run.{done, ◌>>=◌}
use pollbook_server.External.{External, ExternalLaws, valid, assigned, at, get_bool, get_text}
use pollbook_server.Signature.{Signer, Verifier, sign_text}
use pollbook_server.Messages.Ticket.{
  TicketRequest, TicketResponse, ticket_body_to_json, ticket_request_to_json,
  ticket_response_body_to_json, ticket_response_to_json, lacks_key,
}
use pollbook_server.Messages.RoundTrip.{at-object, get_bool-of_bool, get_text-of_text}
use pollbook_server.Messages.TicketTrip.{
  IsTicketRequest, IsTicketResponse, ticket_request_round_trip, ticket_response_round_trip,
}
use pollbook_server.Checkin.State.{ClientInfo, trusted_client, Service, Settings, Ambient, Endpoint}
use pollbook_server.Checkin.Files.{read_from_csv}
use pollbook_server.Checkin.Requests.{frame}
use pollbook_server.Checkin.Tickets.{
  read_ticket_request, handle_ticket_request, handle_trusted_client,
}
use pollbook_server.Checkin.Network.{
  received, handle_payload_read, from_endpoint, from_client, dispatch,
}
use pollbook_server.IdService.Statements.{sign-verify}
use pollbook_server.Client.{
  checkin_server, ticket_write, PollbookClient, ClientAmbient, start, send, set_value, set_promise,
}
use pollbook_server.Client.Tickets.{
  ticket_request_body, verify_ticket, ticket_written, ticket_result, read_ticket_response,
  report_ticket, ticket_response_read, is_undefined,
}
use pollbook_server.Client.Lines.{payload_line, length-payload_line}
use pollbook_server.Client.Protocol.{handle, complete}
use pollbook_server.Client.Progress.{drive}
use pollbook_server.Client.Delivered.{got}

pub read_from_csv-signer : (a : Ambient) (s : Service) → (read_from_csv a s).signer ≡ s.signer
unfolding read_from_csv
read_from_csv-signer a s = ground arith

pub read_from_csv-effects : (a : Ambient) (s : Service) → (read_from_csv a s).effects ≡ s.effects
unfolding read_from_csv
read_from_csv-effects a s = ground arith

module _ (x : External) (laws : ExternalLaws x) (st : Settings) (world : Ambient)
    (ip : Endpoint) where
  -- The message of a trusted device reaches handle_ticket_request, after the ticket file is read.
  pub ticket_payload-read :
      (r : TicketRequest) (id : ℕ) (info : ClientInfo) (s : Service)
      → IsTicketRequest r
      → lookup ip s.client_id_map ≡ some id
      → lookup id s.clients ≡ some info
      → info.type ≡ trusted_client
      → let message = x.dump (ticket_request_to_json x r) in
        x.parse (payload_line message) ≡ some (ticket_request_to_json x r)
        → handle_payload_read x st world ip (length message) (received (payload_line message)) s
          ≡ handle_ticket_request x st world ip r
              (read_from_csv world (record s { client_id = id }))
  unfolding handle_payload_read from_endpoint from_client dispatch handle_trusted_client
      read_ticket_request
  ticket_payload-read r id info s fits known client device parses =
      let message : Text = x.dump (ticket_request_to_json x r) in
      rw (
        length-payload_line message,
        (nat_beq_iff (length message) (length message)).1 refl,
        known,
        client,
        device,
        parses,
        handle_trusted_client,
        ticket_request_round_trip x laws r fits,
      )

module _ (x : External) (laws : ExternalLaws x) (a : ClientAmbient) where
  abbrev pub presented_ticket : Text → ℕ → Text → TicketRequest
  presented_ticket ticket pin signature = record {
    body = record { client_id = a.client_id; timestamp = a.now; ticket = ticket; pin = pin };
    signature = signature;
  }

  abbrev pub presenting : Text → ℕ → Text → PollbookClient → PollbookClient
  presenting ticket pin signature c = start ticket_write (
      send checkin_server
        (frame (x.dump (ticket_request_to_json x (presented_ticket ticket pin signature))))
        (record c { current_request_promise = none }))

  pub ticket_sends :
      (ticket : Text) (pin : ℕ) (signature : Text) (c : PollbookClient)
      → c.checkin_connected ≡ true
      → sign_text x
          (x.dump (ticket_body_to_json x (presented_ticket ticket pin signature).body))
          c.private_key_signer
        ≡ done signature
      → verify_ticket x a ticket pin c ≡ done (presenting ticket pin signature c)
  unfolding verify_ticket ticket_request_body
  ticket_sends ticket pin signature c connected signs = rw (connected, signs)

  -- The fields that the client reads once more are those of the response.
  fields_again :
      (response : TicketResponse)
      → (do
        body ← at x (ticket_response_to_json x response) "body"
        is_valid ← get_bool x body "approved"
        secret ← get_text x body "secret"
        first_name ← get_text x body "first_name"
        middle_name ← get_text x body "middle_name"
        last_name ← get_text x body "last_name"
        done (ticket_result x a true is_valid secret))
        ≡ done (record { success = response.body.approved; failure_reason = response.body.secret })
  unfolding ticket_response_to_json ticket_response_body_to_json assigned text_beq ticket_result
  fields_again response = rw (
    at-object x laws _ "body" _ refl,
    get_bool-of_bool x laws _ "approved" _ refl,
    get_text-of_text x laws _ "secret" _ refl,
    get_text-of_text x laws _ "first_name" _ refl,
    get_text-of_text x laws _ "middle_name" _ refl,
    get_text-of_text x laws _ "last_name" _ refl,
  )

  ticket_response-understood :
      (response : TicketResponse) (signer : Signer) (verifier : Verifier) (c : PollbookClient)
      → IsTicketResponse response
      → ((t sig : Text)
          → x.digest_sign signer.private_key t ≡ some sig
          → x.digest_verify verifier.public_key t sig ≡ valid)
      → sign_text x (x.dump (ticket_response_body_to_json x response.body)) signer
        ≡ done response.signature
      → c.checkin_service_verifier ≡ some verifier
      → let message = x.dump (ticket_response_to_json x response) in
        x.parse (payload_line message) ≡ some (ticket_response_to_json x response)
        → read_ticket_response x a (payload_line message) c
          ≡ done
              (record { success = response.body.approved; failure_reason = response.body.secret })
  unfolding read_ticket_response ticket_result
  ticket_response-understood response signer verifier c fits correct signs known parses =
      rw
        (
          parses,
          ticket_response_round_trip x laws response fits,
          known,
          sign-verify x signer verifier _ response.signature correct signs,
        )
        (fields_again response)

  pub verdict_arrives :
      (ticket : Text) (pin : ℕ) (signature : Text) (response : TicketResponse) (signer : Signer)
      (verifier : Verifier) (c : PollbookClient)
      → IsTicketResponse response
      → ((t sig : Text)
          → x.digest_sign signer.private_key t ≡ some sig
          → x.digest_verify verifier.public_key t sig ≡ valid)
      → sign_text x (x.dump (ticket_response_body_to_json x response.body)) signer
        ≡ done response.signature
      → c.checkin_service_verifier ≡ some verifier
      → c.in_flight ≡ []
      → let message = x.dump (ticket_response_to_json x response) in
        x.parse (payload_line message) ≡ some (ticket_response_to_json x response)
        → (c2 : PollbookClient) × (drive x
              (got x laws a [] ∷ got x laws a (payload_line message) ∷ [])
              (presenting ticket pin signature c)
            ≡ done c2)
          × (c2.current_request_promise
              ≡ some (record {
                success = response.body.approved;
                failure_reason = response.body.secret;
              }))
          × (c2.in_flight ≡ [])
  unfolding drive complete handle ticket_written ticket_response_read report_ticket set_value
      set_promise start send is_undefined lacks_key
  verdict_arrives ticket pin signature response signer verifier c fits correct signs known idle
        parses =
      let waiting : PollbookClient =
        send checkin_server
          (frame (x.dump (ticket_request_to_json x (presented_ticket ticket pin signature))))
          (record c { current_request_promise = none }) in
      let message : Text = x.dump (ticket_response_to_json x response) in
      let defined : is_undefined x a (x.parse (payload_line message)) ≡ false =
        rw (parses, lacks_key, ticket_response_round_trip x laws response fits) refl in
      (
        record waiting {
          current_request_promise =
              some (record {
                success = response.body.approved;
                failure_reason = response.body.secret;
              });
        },
        rw (
          defined,
          ticket_response-understood response signer verifier waiting fits correct signs known
              parses,
        ),
        refl,
        idle,
      )
