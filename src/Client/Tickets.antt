-- ===== src/Client/Tickets.antt =====
-- PollbookClient::verify_ticket, the two completion handlers that it leads to, and the messages of
-- plain text.
use pollbook_server.Prelude.{
  ℕ, Bool, true, false, Option, none, some, ◌++◌, if◌then◌else◌, Text, codes,
}
use pollbook_server.Run.{Run, done, throws, ◌>>=◌, or_throw}
use pollbook_server.Text.{cut}
use pollbook_server.External.{External, at, get_bool, get_text}
use pollbook_server.Signature.{sign_text, verify_text}
use pollbook_server.Messages.Ticket.{
  TicketBody, ticket_body_to_json, ticket_request_to_json, ticket_response_body_to_json,
  ticket_response_from_json, lacks_key,
}
use pollbook_server.Checkin.Network.{ReadResult, received}
use pollbook_server.Checkin.Requests.{frame}
use pollbook_server.Client.{
  CheckinResult, checkin_server, ticket_write, ticket_read, PollbookClient, ClientAmbient,
  set_value, start, send,
}

module _ (x : External) (a : ClientAmbient) where
  unfoldable pub ticket_request_body : Text → ℕ → TicketBody
  ticket_request_body ticket pin = record {
    client_id = a.client_id;
    timestamp = a.now;
    ticket = ticket;
    pin = pin;
  }

  -- The promise is a new one.
  unfoldable pub verify_ticket : Text → ℕ → PollbookClient → Run PollbookClient
  unfolding ticket_request_body start send frame
  verify_ticket ticket pin c =
      if c.checkin_connected
      then (do
        let body = ticket_request_body ticket pin
        signature ← sign_text x (x.dump (ticket_body_to_json x body)) c.private_key_signer
        let message =
            x.dump (ticket_request_to_json x (record { body = body; signature = signature }))
        done (
            start ticket_write
              (send checkin_server (frame message) (record c { current_request_promise = none }))))
      else throws

  unfoldable pub ticket_written : Bool → PollbookClient → Run PollbookClient
  unfolding start set_value
  ticket_written true c = done (start ticket_read c)
  ticket_written false c =
      set_value false
        (codes
          "Network error: I/O error when sending a verify_ticket request to the check-in service")
        c

  unfoldable pub ticket_result : Bool → Bool → Text → CheckinResult
  ticket_result true is_valid secret = record { success = is_valid; failure_reason = secret }
  ticket_result false is_valid secret = record {
    success = false;
    failure_reason =
        codes
          "Invalid signature from the ID verification service on the voter's ID. OpenSSL error: "
        ++ a.openssl_error;
  }

  -- The try block of the completion of start_verify_ticket_response_read, up to set_value.
  unfoldable pub read_ticket_response : Text → PollbookClient → Run CheckinResult
  unfolding ticket_result
  read_ticket_response bytes c = do
    json ← or_throw (x.parse bytes)
    response ← ticket_response_from_json x json
    verifier ← or_throw c.checkin_service_verifier
    verified ←
        verify_text x (x.dump (ticket_response_body_to_json x response.body)) response.signature
          verifier
    body ← at x json "body"
    is_valid ← get_bool x body "approved"
    secret ← get_text x body "secret"
    first_name ← get_text x body "first_name"
    middle_name ← get_text x body "middle_name"
    last_name ← get_text x body "last_name"
    done (ticket_result verified is_valid secret)

  -- What the try block throws is caught, and told to the caller.
  unfoldable pub report_ticket : Run CheckinResult → PollbookClient → Run PollbookClient
  unfolding set_value
  report_ticket (done r) c = set_value r.success r.failure_reason c
  report_ticket throws c = set_value false (codes "Error parsing server response") c

  -- The parser has read a response, and the response lacks a key.
  unfoldable pub is_undefined : Option x.Json → Bool
  unfolding lacks_key
  is_undefined none = false
  is_undefined (some json) = lacks_key x json

  -- A missing key ends the process, which no catch block prevents.
  unfoldable pub ticket_response_read : ReadResult → PollbookClient → Run PollbookClient
  unfolding read_ticket_response report_ticket set_value is_undefined
  ticket_response_read (received bytes) c =
      if is_undefined (x.parse bytes)
      then throws
      else report_ticket (read_ticket_response bytes c) c
  ticket_response_read _ c =
      set_value false
        (codes
          "Network error: I/O error when reading verify_ticket response from the check-in service")
        c

-- asio::write throws where it fails. The json that the source builds first is not used.
unfoldable pub send_string_message : Bool → Text → PollbookClient → Run PollbookClient
unfolding frame send
send_string_message write_succeeds message c =
    if c.checkin_connected
    then (if write_succeeds then done (send checkin_server (frame message) c) else throws)
    else throws

-- The bytes up to and with the first newline have been read, or an error.
unfoldable pub receive_string_message : ReadResult → Run Text
unfolding cut
receive_string_message (received bytes) = done (cut 10 bytes).0
receive_string_message _ = throws
