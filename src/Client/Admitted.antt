-- ===== src/Client/Admitted.antt =====
-- PollbookClient and CheckinService together: a check-in from the identity that the ID service has
-- verified to the answer that the caller gets.
use pollbook_server.Prelude.{
  ◌≡◌, ap, ℕ, ◌<◌, true, none, some, [], ◌∷◌, ◌++◌, nat_eq, text_eq, Text, length,
}
use pollbook_server.Map.{lookup}
use pollbook_server.Text.{u64_mod}
use pollbook_server.Run.{done}
use pollbook_server.External.{External, ExternalLaws, valid}
use pollbook_server.Signature.{Verifier, sign_text}
use pollbook_server.Messages.VoterId.{VerifiedVoterId}
use pollbook_server.Messages.Checkin.{
  CheckinRequest, CheckinResponse, checkin_body_to_json, checkin_request_to_json,
  checkin_response_to_json, checkin_response_body_to_json,
}
use pollbook_server.Messages.RoundTrip.{IsCheckinRequest}
use pollbook_server.Checkin.State.{
  ClientInfo, untrusted_client, pending, Service, Settings, Ambient, Endpoint, write, read_size,
  read_payload, wait_for_timer, emit,
}
use pollbook_server.Checkin.Files.{generate_secret}
use pollbook_server.Checkin.Requests.{response_body}
use pollbook_server.Checkin.Network.{size_read, payload_read, received, step, run}
use pollbook_server.Checkin.Admission.{Admits}
use pollbook_server.Checkin.Approval.{checkin_complete}
use pollbook_server.Client.{checkin_server, PollbookClient, ClientAmbient, start, send}
use pollbook_server.Client.Requests.{start_checkin_request_write}
use pollbook_server.Client.Lines.{size_line, payload_line, frame-lines}
use pollbook_server.Client.Progress.{drive}
use pollbook_server.Client.Delivered.{
  checkin_size-read, checkin_payload-read, requested, requesting, checkin_sends, got, verdict,
  approval_arrives,
}

module _ (x : External) (laws : ExternalLaws x) (st : Settings) (a : ClientAmbient)
    (world : Ambient) (ip : Endpoint) where
  -- The approval that the service sends with this ticket and signature.
  abbrev pub approval_of : CheckinRequest → Text → Text → CheckinResponse
  approval_of r ticket signature = record {
    body = response_body x st world r true ticket;
    checkin_service_signature = signature;
  }

  -- The service where the message of this length has arrived from the client `id`.
  abbrev pub arrived : ℕ → ℕ → Service → Service
  arrived size id s = record (emit (read_payload ip size) s) { client_id = id }

  -- The check-in request that the client builds from a verified identity is read by the check-in
  -- service as it was sent; where it meets the service's conditions, the voter is pending
  -- afterwards under the ticket, and the two lines that the service writes make the client report a
  -- success to its caller, with nothing left in flight. The numbers fit their types, the parser
  -- inverts the serializer on both messages, the signatures of EVP are correct for the service's
  -- pair of keys, and random bytes, signing and writing work.
  pub check_in_round_trip :
      (v : VerifiedVoterId) (c : PollbookClient) (s : Service) (id : ℕ) (info : ClientInfo)
      (signature ticket secret service_signature : Text) (verifier : Verifier)
      → let r = requested x laws a v signature c in
        let message = x.dump (checkin_request_to_json x r) in
        let response = approval_of r ticket service_signature in
        let reply = x.dump (checkin_response_to_json x response) in
        c.in_flight ≡ []
        → c.current_request_promise ≡ none
        → c.checkin_service_verifier ≡ some verifier
        → IsCheckinRequest r
        → world.now < u64_mod
        → length message < u64_mod
        → length reply < u64_mod
        → a.can_allocate (length reply) ≡ true
        → x.parse (payload_line message) ≡ some (checkin_request_to_json x r)
        → x.parse (payload_line reply) ≡ some (checkin_response_to_json x response)
        → ((t sig : Text)
            → x.digest_sign s.signer.private_key t ≡ some sig
            → x.digest_verify verifier.public_key t sig ≡ valid)
        → sign_text x (x.dump (checkin_body_to_json x r.body)) c.private_key_signer ≡ done signature
        → lookup ip s.client_id_map ≡ some id
        → lookup id s.clients ≡ some info
        → info.type ≡ untrusted_client
        → Admits x st world ip r (arrived (length message) id s)
        → generate_secret world.ticket_bytes 16 ≡ done ticket
        → generate_secret world.secret_bytes 32 ≡ done secret
        → sign_text x (x.dump (checkin_response_body_to_json x response.body)) s.signer
          ≡ done service_signature
        → world.write_succeeds ≡ true
        → (c1 : PollbookClient) × (start_checkin_request_write x a v c ≡ done c1)
          × (c1.sent ≡ (checkin_server, size_line message ++ payload_line message) ∷ c.sent)
          × ((s' : Service) × (run x st
                  ((world, size_read ip (received (size_line message)))
                    ∷ (world, payload_read ip (length message) (received (payload_line message)))
                    ∷ [])
                  s
                ≡ done s')
              × (lookup v.voter_unique_id s'.voter_status_table ≡ some pending)
              × (lookup ticket s'.client_tickets_map ≡ some (v.voter_unique_id, secret))
              × (s'.effects
                  ≡ read_size ip
                    ∷ write ip (size_line reply ++ payload_line reply)
                    ∷ wait_for_timer v.voter_unique_id
                    ∷ read_payload ip (length message)
                    ∷ s.effects))
          × ((c2 : PollbookClient) × (drive x
                  (got x laws a []
                    ∷ got x laws a (size_line reply)
                    ∷ got x laws a (payload_line reply)
                    ∷ [])
                  c1
                ≡ done c2)
              × (c2.current_request_promise ≡ some (verdict true))
              × (c2.in_flight ≡ []))
  unfolding run step emit start send response_body
  check_in_round_trip v c s id info signature ticket secret service_signature verifier idle p known
        fits now_fits small small_reply allocates parses parses_reply correct signs is_known client
        kiosk admits t u service_signs writes =
      let r : CheckinRequest = requested x laws a v signature c in
      let message : Text = x.dump (checkin_request_to_json x r) in
      let response : CheckinResponse = approval_of r ticket service_signature in
      let reply : Text = x.dump (checkin_response_to_json x response) in
      let s1 : Service = emit (read_payload ip (length message)) s in
      let (s', handles, is_pending, _, hworldticket, effects) =
        checkin_complete x st world ip r (arrived (length message) id s) ticket secret
          service_signature admits t u service_signs writes in
      (
        requesting x laws a v signature c,
        checkin_sends x laws a v signature c signs,
        ap (λ bytes. (checkin_server, bytes) ∷ c.sent) (frame-lines message),
        (
          s',
          rw (
            checkin_size-read x laws st world ip message s small,
            checkin_payload-read x laws st world ip r id info s1 fits is_known client kiosk parses,
            handles,
          ),
          is_pending,
          hworldticket,
          rw (← frame-lines reply) effects,
        ),
        approval_arrives x laws a v signature response s.signer verifier c
            (fits.0, now_fits, fits.2) correct service_signs known p idle parses_reply small_reply
            allocates,
      )
