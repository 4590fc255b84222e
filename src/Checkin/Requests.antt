-- ===== src/Checkin/Requests.antt =====
-- Phase 1: a kiosk's check-in request, the timer that it starts, and its expiry.
use pollbook_server.Prelude.{
  ℕ, ◌+◌, ◌*◌, Bool, true, false, not, Option, none, some, [], ◌∷◌, ◌++◌, ◌==◌, nat_eq, text_eq,
  if◌then◌else◌, Text, codes, length,
}
use pollbook_server.Map.{lookup, insert, erase}
use pollbook_server.Run.{Run, done, throws, ◌>>=◌, or_throw}
use pollbook_server.Text.{to_string}
use pollbook_server.Freshness.{is_stale}
use pollbook_server.External.{External}
use pollbook_server.Signature.{sign_text, verify_text}
use pollbook_server.Messages.VoterId.{id_statement}
use pollbook_server.Messages.Checkin.{
  CheckinRequest, CheckinResponseBody, checkin_body_to_json, checkin_response_body_to_json,
  checkin_response_to_json,
}
use pollbook_server.Checkin.State.{
  VoterStatus, eligible, pending, Endpoint, write, read_size, wait_for_timer, Service, Settings,
  Ambient, minute, emit, fault, id_of, touch_id, ensure_verifier,
}
use pollbook_server.Checkin.Files.{generate_secret, write_to_csv}

-- A size line, the message, and a newline.
unfoldable pub frame : Text → Text
frame message = to_string (length message) ++ (10 ∷ (message ++ 10 ∷ []))

unfoldable pub start_timer : Settings → Ambient → ℕ → Service → Service
unfolding emit
start_timer st a voter_id s = emit (wait_for_timer voter_id) (record s {
  request_timers =
      insert voter_id
        (record { expiry = a.steady_now + st.timeout_interval * minute; voter_id = voter_id })
        s.request_timers;
})

unfoldable pub revert : ℕ → Option VoterStatus → Service → Service
revert voter_id (some pending) s = record s {
  voter_status_table = insert voter_id eligible s.voter_status_table;
}
revert voter_id _ s = s

unfoldable pub handle_verification_timeout : ℕ → Service → Service
unfolding revert
handle_verification_timeout voter_id s =
    revert voter_id (lookup voter_id s.voter_status_table)
      (record s { request_timers = erase voter_id s.request_timers })

module _ (x : External) (st : Settings) (a : Ambient) where
  -- The tests behind the two signatures: the voter's number, and the time.
  unfoldable pub validate_claims : CheckinRequest → Service → Service × Bool
  validate_claims r s =
      if r.body.voter_unique_id == r.body.verified_id_message.voter_unique_id
      then (s, not (is_stale a.now r.body.timestamp st.request_freshness_interval))
      else (
        fault a s.client_id (codes "Claimed voter UID does not match ID-service-verified UID") s,
        false,
      )

  unfoldable pub validate_id_signature : CheckinRequest → Service → Run (Service × Bool)
  unfolding validate_claims
  validate_id_signature r s = do
    let verified = r.body.verified_id_message
    ok ←
        verify_text x (x.dump (id_statement x verified.presented_id verified.voter_unique_id))
          verified.id_service_signature s.id_service_verifier
    if ok then done (validate_claims r s) else done (s, false)

  unfoldable pub validate_client_request : CheckinRequest → Service → Run (Service × Bool)
  unfolding validate_id_signature
  validate_client_request r s = do
    verifier ← or_throw (lookup r.body.client_id_num s.client_verifiers)
    ok ← verify_text x (x.dump (checkin_body_to_json x r.body)) r.client_signature verifier
    if ok
        then validate_id_signature r s
        else done (
          fault a s.client_id (codes "Invalid client signature on check-in request (tampered body)")
              s,
          false,
        )

  -- The voter's status, where the request has passed.
  unfoldable pub mark : ℕ → Option VoterStatus → Service → Service × Bool
  mark voter_id (some eligible) s = (
    start_timer st a voter_id
        (record s { voter_status_table = insert voter_id pending s.voter_status_table }),
    true,
  )
  mark voter_id _ s = (s, false)

  unfoldable pub mark_pending : ℕ → Service → Service × Bool
  unfolding mark
  mark_pending voter_id s = mark voter_id (lookup voter_id s.voter_status_table) s

  unfoldable pub response_body : CheckinRequest → Bool → Text → CheckinResponseBody
  response_body r accept ticket = record {
    approved = accept;
    requesting_client_id = r.body.client_id_num;
    timestamp = a.now;
    last_name = r.body.last_name;
    first_name = r.body.first_name;
    middle_name = r.body.middle_name;
    voter_unique_id = r.body.voter_unique_id;
    ticket = ticket;
  }

  -- The response is signed and written, and the next request of the client awaited. asio::write
  -- throws where it fails.
  unfoldable pub send_checkin_response : Endpoint → CheckinResponseBody → Service → Run Service
  send_checkin_response client_ip body s = do
    signature ← sign_text x (x.dump (checkin_response_body_to_json x body)) s.signer
    let message =
        x.dump (
          checkin_response_to_json x
            (record { body = body; checkin_service_signature = signature }))
    if a.write_succeeds
        then done (emit (read_size client_ip) (emit (write client_ip (frame message)) s))
        else throws

  -- An accepted request gets a ticket and a secret, which go into the map and the file.
  unfoldable pub issue_ticket : Endpoint → CheckinRequest → Service → Run Service
  unfolding send_checkin_response response_body
  issue_ticket client_ip r s = do
    ticket ← generate_secret a.ticket_bytes 16
    secret ← generate_secret a.secret_bytes 32
    let voter_id = r.body.voter_unique_id
    send_checkin_response client_ip (response_body r true ticket) (
        write_to_csv a ticket secret voter_id
          (record s { client_tickets_map = insert ticket (voter_id, secret) s.client_tickets_map }))

  unfoldable pub answer : Endpoint → CheckinRequest → Bool → Service → Run Service
  unfolding issue_ticket send_checkin_response response_body
  answer client_ip r true s = issue_ticket client_ip r s
  answer client_ip r false s = send_checkin_response client_ip (response_body r false []) s

  unfoldable pub consider : Endpoint → CheckinRequest → Service × Bool → Run Service
  unfolding answer mark_pending
  consider client_ip r (s, true) =
      let (s', accept) = mark_pending r.body.voter_unique_id s in answer client_ip r accept s'
  consider client_ip r (s, false) = answer client_ip r false s

  -- The path of a client that says who it is. It ends with no response where no key is to be had.
  unfoldable pub checkin_identified : Endpoint → CheckinRequest → Service → Run Service
  unfolding validate_client_request consider
  checkin_identified client_ip r s = elim (ensure_verifier a r.body.client_id_num s) [
    | none ↦ done s
    | some s' ↦ do v ← validate_client_request r s'; consider client_ip r v
  ]

  unfoldable pub handle_checkin_request : Endpoint → CheckinRequest → Service → Run Service
  unfolding checkin_identified answer
  handle_checkin_request client_ip r s =
      let client_id = id_of client_ip s in
      let s' = touch_id client_ip s in
      if r.body.client_id_num == client_id
      then checkin_identified client_ip r s'
      else answer client_ip r false (
          fault a client_id
            (codes "Claimed client_id_num does not match TLS-authenticated client identity") s')
