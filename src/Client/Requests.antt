-- ===== src/Client/Requests.antt =====
-- PollbookClient::check_in_voter, verify_ticket, and the completion handlers that they lead to.
use pollbook_server.Prelude.{ℕ, Bool, true, false, ◌&&◌, none, [], ◌++◌, if◌then◌else◌, Text, codes}
use pollbook_server.Run.{Run, done, throws, ◌>>=◌, or_throw}
use pollbook_server.External.{External}
use pollbook_server.Signature.{sign_text, verify_text}
use pollbook_server.Messages.VoterId.{
  VoterIdBody, VerifiedVoterId, voter_id_body_to_json, voter_id_request_to_json, id_statement,
  verified_voter_id_from_json,
}
use pollbook_server.Messages.Checkin.{
  CheckinBody, CheckinResponse, checkin_body_to_json, checkin_request_to_json,
  checkin_response_body_to_json, checkin_response_from_json,
}
use pollbook_server.Checkin.Network.{ReadResult, received, disconnected, other_error}
use pollbook_server.Checkin.Requests.{frame}
use pollbook_server.Client.{
  id_server, checkin_server, id_write, id_read, checkin_write, size_read, response_read, VoterName,
  PollbookClient, ClientAmbient, set_value, start, send, little_endian, extract_size,
}

module _ (x : External) (a : ClientAmbient) where
  unfoldable pub id_request_body : ℕ → VoterName → Text → VoterIdBody
  id_request_body timestamp name voter_id_data = record {
    client_id_num = a.client_id;
    timestamp = timestamp;
    last_name = name.last_name;
    middle_name = name.middle_name;
    first_name = name.first_name;
    voter_id_data = voter_id_data;
  }

  unfoldable pub start_id_request_write : ℕ → VoterName → Text → PollbookClient → Run PollbookClient
  unfolding id_request_body start send frame
  start_id_request_write timestamp name voter_id_data c = do
    let body = id_request_body timestamp name voter_id_data
    signature ← sign_text x (x.dump (voter_id_body_to_json x body)) c.private_key_signer
    let message =
        x.dump (voter_id_request_to_json x (record { body = body; client_signature = signature }))
    done (start id_write (send id_server (frame message) c))

  -- The overload for voter ID data that begin with the voter's number. The promise is a new one.
  unfoldable pub check_in_with_data : VoterName → Text → PollbookClient → Run PollbookClient
  unfolding start_id_request_write
  check_in_with_data name voter_id_data c =
      if c.checkin_connected && c.id_connected
      then start_id_request_write a.now name voter_id_data
          (record c { current_request_promise = none; current_request_voter_name = name })
      else throws

  unfoldable pub check_in_voter : VoterName → ℕ → Text → PollbookClient → Run PollbookClient
  unfolding check_in_with_data little_endian
  check_in_voter name desired_voter_unique_id voter_id_data c =
      check_in_with_data name (little_endian desired_voter_unique_id ++ voter_id_data) c

  unfoldable pub id_written : Bool → PollbookClient → Run PollbookClient
  unfolding start set_value
  id_written true c = done (start id_read c)
  id_written false c =
      set_value false
        (codes "Network error: I/O error when sending a request to the Voter ID service") c

  unfoldable pub checkin_request_body : VerifiedVoterId → VoterName → CheckinBody
  checkin_request_body verified name = record {
    client_id_num = a.client_id;
    timestamp = a.now;
    last_name = name.last_name;
    first_name = name.first_name;
    middle_name = name.middle_name;
    voter_unique_id = verified.voter_unique_id;
    verified_id_message = verified;
  }

  unfoldable pub start_checkin_request_write : VerifiedVoterId → PollbookClient → Run PollbookClient
  unfolding checkin_request_body start send frame
  start_checkin_request_write verified c = do
    let body = checkin_request_body verified c.current_request_voter_name
    signature ← sign_text x (x.dump (checkin_body_to_json x body)) c.private_key_signer
    let message =
        x.dump (checkin_request_to_json x (record { body = body; client_signature = signature }))
    done (start checkin_write (send checkin_server (frame message) c))

  unfoldable pub handle_id_response : VerifiedVoterId → PollbookClient → Run PollbookClient
  unfolding start_checkin_request_write set_value
  handle_id_response response c = do
    verifier ← or_throw c.id_service_verifier
    verified ←
        verify_text x (x.dump (id_statement x response.presented_id response.voter_unique_id))
          response.id_service_signature verifier
    if verified
        then start_checkin_request_write response c
        else set_value false
            (codes
                "Invalid signature from the ID verification service on the voter's ID. OpenSSL error: "
              ++ a.openssl_error)
            c

  -- start_message_read(true). What the parser and FromJson throw is not caught.
  unfoldable pub id_message_read : ReadResult → PollbookClient → Run PollbookClient
  unfolding handle_id_response set_value
  id_message_read (received bytes) c = do
    json ← or_throw (x.parse bytes)
    response ← verified_voter_id_from_json x json
    handle_id_response response c
  id_message_read disconnected c =
      set_value false (codes "Network error: Voter ID service disconnected") c
  id_message_read other_error c =
      set_value false (codes "Network error: I/O error when reading from Voter ID service") c

  unfoldable pub checkin_written : Bool → PollbookClient → Run PollbookClient
  unfolding start set_value
  checkin_written true c = done (start size_read c)
  checkin_written false c =
      set_value false
        (codes "Network error: I/O error when sending a request to the check-in service") c

  -- The buffer is resized to the size announced, and then not used.
  unfoldable pub start_checkin_response_read : ℕ → PollbookClient → Run PollbookClient
  unfolding start
  start_checkin_response_read size c =
      if a.can_allocate size then done (start response_read c) else throws

  -- start_message_read(false)
  unfoldable pub size_message_read : ReadResult → PollbookClient → Run PollbookClient
  unfolding start_checkin_response_read extract_size set_value
  size_message_read (received bytes) c = start_checkin_response_read (extract_size bytes) c
  size_message_read disconnected c =
      set_value false (codes "Network error: Checkin service disconnected") c
  size_message_read other_error c =
      set_value false (codes "Network error: I/O error when reading from the checkin service") c

  unfoldable pub report_response : Bool → Bool → PollbookClient → Run PollbookClient
  unfolding set_value
  report_response false approved c =
      set_value false
        (codes "Invalid signature on check-in service's response. OpenSSL error: "
          ++ a.openssl_error)
        c
  report_response true true c = set_value true [] c
  report_response true false c = set_value false (codes "Check-in service rejected the request") c

  unfoldable pub handle_checkin_response : CheckinResponse → PollbookClient → Run PollbookClient
  unfolding report_response
  handle_checkin_response response c = do
    verifier ← or_throw c.checkin_service_verifier
    verified ←
        verify_text x (x.dump (checkin_response_body_to_json x response.body))
          response.checkin_service_signature verifier
    report_response verified response.body.approved c

  -- The completion of start_checkin_response_read.
  unfoldable pub response_message_read : ReadResult → PollbookClient → Run PollbookClient
  unfolding handle_checkin_response set_value
  response_message_read (received bytes) c = do
    json ← or_throw (x.parse bytes)
    response ← checkin_response_from_json x json
    handle_checkin_response response c
  response_message_read disconnected c =
      set_value false (codes "Network error: Checkin service disconnected") c
  response_message_read other_error c =
      set_value false (codes "Network error: I/O error when reading from the checkin service") c
