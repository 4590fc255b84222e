-- ===== src/Client/Delivered.antt =====
-- PollbookClient::start_checkin_request_write and the handlers of the check-in service that read what
-- it sends, and the other way round for the response.
use pollbook_server.Prelude.{
  ◌≡◌, refl, ap, ◌∙◌, ℕ, ◌<◌, Bool, true, false, some, none, [], ◌∷◌, nat_eq, nat_beq_iff, Text,
  codes, length, if◌then◌else◌,
}
use pollbook_server.Map.{lookup}
use pollbook_server.Text.{u64_mod}
use pollbook_server.Text.SizeLine.{stoul-size_line}
use pollbook_server.Run.{Run, done, ◌>>=◌, or_throw}
use pollbook_server.External.{External, ExternalLaws, valid}
use pollbook_server.Signature.{Signer, Verifier, sign_text, verify_text}
use pollbook_server.Messages.VoterId.{VerifiedVoterId}
use pollbook_server.Messages.Checkin.{
  CheckinRequest, CheckinResponse, checkin_body_to_json, checkin_request_to_json,
  checkin_response_to_json, checkin_response_body_to_json,
}
use pollbook_server.Messages.RoundTrip.{
  IsCheckinRequest, IsCheckinResponse, checkin_request_round_trip, checkin_response_round_trip,
}
use pollbook_server.Checkin.State.{
  ClientInfo, untrusted_client, Service, Settings, Ambient, Endpoint, read_payload, emit,
}
use pollbook_server.Checkin.Requests.{frame, handle_checkin_request}
use pollbook_server.Checkin.Network.{
  received, handle_size_read, handle_payload_read, from_endpoint, from_client, dispatch,
  handle_untrusted_client, or_null,
}
use pollbook_server.IdService.Statements.{sign-verify}
use pollbook_server.Client.{
  CheckinResult, checkin_server, checkin_write, PollbookClient, ClientAmbient, start, send,
  set_value, set_promise,
}
use pollbook_server.Client.Requests.{
  checkin_request_body, start_checkin_request_write, checkin_written, size_message_read,
  start_checkin_response_read, response_message_read, handle_checkin_response, report_response,
}
use pollbook_server.Client.Lines.{
  size_line, payload_line, length-payload_line, extract_size-size_line,
}
use pollbook_server.Client.Protocol.{Completion, handle, complete}
use pollbook_server.Client.Progress.{drive}

-- What the response says, where it is genuine.
abbrev pub verdict : Bool → CheckinResult
verdict approved = record {
  success = approved;
  failure_reason = if approved then [] else codes "Check-in service rejected the request";
}

module _ (x : External) (laws : ExternalLaws x) (st : Settings) (a : Ambient) (ip : Endpoint) where
  pub checkin_size-read :
      (message : Text) (s : Service)
      → length message < u64_mod
      → handle_size_read x st a ip (received (size_line message)) s
        ≡ done (emit (read_payload ip (length message)) s)
  unfolding handle_size_read
  checkin_size-read message s h = rw (stoul-size_line (length message) h)

  -- The message of a kiosk reaches handle_checkin_request.
  pub checkin_payload-read :
      (r : CheckinRequest) (id : ℕ) (info : ClientInfo) (s : Service)
      → IsCheckinRequest r
      → lookup ip s.client_id_map ≡ some id
      → lookup id s.clients ≡ some info
      → info.type ≡ untrusted_client
      → let message = x.dump (checkin_request_to_json x r) in
        x.parse (payload_line message) ≡ some (checkin_request_to_json x r)
        → handle_payload_read x st a ip (length message) (received (payload_line message)) s
          ≡ handle_checkin_request x st a ip r (record s { client_id = id })
  unfolding handle_payload_read from_endpoint from_client dispatch handle_untrusted_client or_null
  checkin_payload-read r id info s fits known client kiosk parses =
      let message : Text = x.dump (checkin_request_to_json x r) in
      rw (
        length-payload_line message,
        (nat_beq_iff (length message) (length message)).1 refl,
        known,
        client,
        kiosk,
        parses,
        checkin_request_round_trip x laws r fits,
      )

module _ (x : External) (laws : ExternalLaws x) (a : ClientAmbient) where
  -- The request of a client with this signature.
  abbrev pub requested : VerifiedVoterId → Text → PollbookClient → CheckinRequest
  requested v signature c = record {
    body = record {
      client_id_num = a.client_id;
      timestamp = a.now;
      last_name = c.current_request_voter_name.last_name;
      first_name = c.current_request_voter_name.first_name;
      middle_name = c.current_request_voter_name.middle_name;
      voter_unique_id = v.voter_unique_id;
      verified_id_message = v;
    };
    client_signature = signature;
  }

  abbrev pub requesting : VerifiedVoterId → Text → PollbookClient → PollbookClient
  requesting v signature c =
      start checkin_write (
        send checkin_server (frame (x.dump (checkin_request_to_json x (requested v signature c))))
          c)

  pub checkin_sends :
      (v : VerifiedVoterId) (signature : Text) (c : PollbookClient)
      → sign_text x
          (x.dump (checkin_body_to_json x (requested v signature c).body))
          c.private_key_signer
        ≡ done signature
      → start_checkin_request_write x a v c ≡ done (requesting v signature c)
  unfolding start_checkin_request_write checkin_request_body
  checkin_sends v signature c signs = rw signs

  abbrev pub got : Text → ClientAmbient × Completion
  got bytes = (a, record { wrote = true; read = received bytes })

  reports :
      (approved : Bool) (c : PollbookClient)
      → c.current_request_promise ≡ none
      → report_response x a true approved c
        ≡ done (record c { current_request_promise = some (verdict approved) })
  unfolding report_response set_value set_promise
  reports true c p = rw (p, set_promise)
  reports false c p = rw (p, set_promise)

  response-understood :
      (response : CheckinResponse) (signer : Signer) (verifier : Verifier) (c : PollbookClient)
      → IsCheckinResponse response
      → ((t sig : Text)
          → x.digest_sign signer.private_key t ≡ some sig
          → x.digest_verify verifier.public_key t sig ≡ valid)
      → sign_text x (x.dump (checkin_response_body_to_json x response.body)) signer
        ≡ done response.checkin_service_signature
      → c.checkin_service_verifier ≡ some verifier
      → c.current_request_promise ≡ none
      → let message = x.dump (checkin_response_to_json x response) in
        x.parse (payload_line message) ≡ some (checkin_response_to_json x response)
        → response_message_read x a (received (payload_line message)) c
          ≡ done (record c { current_request_promise = some (verdict response.body.approved) })
  unfolding response_message_read handle_checkin_response
  response-understood response signer verifier c fits correct signs known p parses =
      let report : Bool → Run PollbookClient =
        λ verified. report_response x a verified response.body.approved c in
      let bytes : Text = x.dump (checkin_response_body_to_json x response.body) in
      let signature : Text = response.checkin_service_signature in
      rw (parses, checkin_response_round_trip x laws response fits)
        (ap (λ o. or_throw o >>= λ w. verify_text x bytes signature w >>= report) known
          ∙ ap (λ m. m >>= report) (sign-verify x signer verifier bytes signature correct signs)
          ∙ reports response.body.approved c p)

  -- The request has been written, and the two lines of the response arrive.
  pub approval_arrives :
      (v : VerifiedVoterId) (signature : Text) (response : CheckinResponse) (signer : Signer)
      (verifier : Verifier) (c : PollbookClient)
      → IsCheckinResponse response
      → ((t sig : Text)
          → x.digest_sign signer.private_key t ≡ some sig
          → x.digest_verify verifier.public_key t sig ≡ valid)
      → sign_text x (x.dump (checkin_response_body_to_json x response.body)) signer
        ≡ done response.checkin_service_signature
      → c.checkin_service_verifier ≡ some verifier
      → c.current_request_promise ≡ none
      → c.in_flight ≡ []
      → let message = x.dump (checkin_response_to_json x response) in
        x.parse (payload_line message) ≡ some (checkin_response_to_json x response)
        → length message < u64_mod
        → a.can_allocate (length message) ≡ true
        → (c2 : PollbookClient) × (drive x
              (got [] ∷ got (size_line message) ∷ got (payload_line message) ∷ [])
              (requesting v signature c)
            ≡ done c2)
          × (c2.current_request_promise ≡ some (verdict response.body.approved))
          × (c2.in_flight ≡ [])
  unfolding drive complete handle checkin_written size_message_read start_checkin_response_read
      start send
  approval_arrives v signature response signer verifier c fits correct signs known p idle parses
        small allocates =
      let message : Text = x.dump (checkin_response_to_json x response) in
      let waiting : PollbookClient =
        send checkin_server (frame (x.dump (checkin_request_to_json x (requested v signature c))))
          c in
      (
        record waiting { current_request_promise = some (verdict response.body.approved) },
        rw (
          extract_size-size_line message small,
          allocates,
          response-understood response signer verifier waiting fits correct signs known p parses,
        ),
        refl,
        idle,
      )
