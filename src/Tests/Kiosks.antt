-- ===== src/Tests/Kiosks.antt =====
-- The client of both services.
use pollbook_server.Tests.{everything}
use pollbook_server.Prelude.{
  ◌≡◌, refl, subst, ℕ, true, nat_eq, text_eq, Option, none, some, [], ◌∷◌, ◌++◌, arith, Text,
  text_beq, if◌then◌else◌, codes, length, ◌==◌,
}
use pollbook_server.Run.{done, result_or}
use pollbook_server.External.{External, valid, mismatch}
use pollbook_server.Messages.VoterId.{voter_id_request_to_json}
use pollbook_server.Checkin.Network.{received}
use pollbook_server.Checkin.State.{write, read_payload}
use pollbook_server.IdService.{
  IdService, IdAmbient, key, column, full_name, add_voter, load_voter_line, load_voter_lines,
  load_voter_data_from_csv, to_lower, case_insensitive_equal, names_match, validate_voter_name,
  validate_and_match_id_data, load_client_public_key, ensure_verifier,
}
use pollbook_server.IdService.Validation.{
  handle_validation_request, check_name, verify_client, send_verified_id,
}
use pollbook_server.IdService.Network.{
  size_read, payload_read, emit, handle_size_read, handle_payload_read, step, run,
}
use pollbook_server.Client.{
  id_server, id_read, CheckinResult, PollbookClient, ClientAmbient, make_handshake, new_client,
  connect, connect_checkin_server, connect_id_server, set_promise, set_value, start, send,
  little_endian, begins_with_digit, has_number, extract_size,
}
use pollbook_server.Client.Requests.{
  id_request_body, start_id_request_write, check_in_with_data, check_in_voter, id_written,
  checkin_request_body, start_checkin_request_write, handle_id_response, id_message_read,
  checkin_written, start_checkin_response_read, size_message_read, report_response,
  handle_checkin_response, response_message_read,
}
use pollbook_server.Messages.Ticket.{lacks_key}
use pollbook_server.Client.Tickets.{
  is_undefined, ticket_request_body, verify_ticket, ticket_written, ticket_result,
  read_ticket_response, report_ticket, ticket_response_read,
}
use pollbook_server.Client.Protocol.{Completion, handle, complete, IsAnswered}
use pollbook_server.Client.Progress.{drive, check_in-IsAnswered}
use pollbook_server.Client.Redeeming.{ticket_always-IsAnswered}
use pollbook_server.Client.Failures.{Refuses, failure_reported}
use pollbook_server.Client.Answers.{Shown, success_sound}
use pollbook_server.Client.Obtained.{identity_round_trip}
use pollbook_server.External.{ExternalLaws}
use pollbook_server.Messages.VoterId.{verified_voter_id_to_json}
use pollbook_server.Samples.Polls.{verified_id}
use pollbook_server.Samples.Json.{member}
use pollbook_server.Client.Lines.{size_line, payload_line}
use pollbook_server.Samples.Json.{Value, sample_external, sample_laws}
use pollbook_server.Samples.Polls.{settings, noon, id_request}
use pollbook_server.Samples.Contact.{
  kiosk_external, kiosk, at_kiosk, voter_name, wrote_it, got, check_in_completions,
}

-- A test computes with all that the client and the ID service call.
client_functions : ℕ
unfolding everything make_handshake new_client connect connect_checkin_server connect_id_server
    set_promise set_value start send little_endian begins_with_digit has_number extract_size
    id_request_body start_id_request_write check_in_with_data check_in_voter id_written
    checkin_request_body start_checkin_request_write handle_id_response id_message_read
    checkin_written start_checkin_response_read size_message_read report_response
    handle_checkin_response response_message_read ticket_request_body verify_ticket ticket_written
    lacks_key is_undefined ticket_result read_ticket_response report_ticket ticket_response_read
    handle complete drive column full_name add_voter load_voter_line load_voter_lines
    load_voter_data_from_csv to_lower case_insensitive_equal names_match validate_voter_name
    validate_and_match_id_data load_client_public_key ensure_verifier handle_validation_request
    check_name verify_client send_verified_id emit handle_size_read handle_payload_read step run
client_functions = 0

abbrev asked : PollbookClient
unfolding client_functions
asked = result_or kiosk (check_in_voter kiosk_external at_kiosk voter_name 100 [] kiosk)

asks : check_in_voter kiosk_external at_kiosk voter_name 100 [] kiosk ≡ done asked
unfolding client_functions
asks = refl

abbrev told : PollbookClient
unfolding client_functions
told = result_or kiosk (drive kiosk_external check_in_completions asked)

tells : drive kiosk_external check_in_completions asked ≡ done told
unfolding client_functions
tells = refl

abbrev success : CheckinResult
success = record { success = true; failure_reason = [] }

told_success : told.current_request_promise ≡ some success
unfolding client_functions
told_success = refl

check_in-IsAnswered_example : IsAnswered told
unfolding client_functions
check_in-IsAnswered_example =
    check_in-IsAnswered kiosk_external at_kiosk voter_name 100 [] kiosk asked told
      check_in_completions refl asks (omega arith) tells

success_sound_example :
    Shown kiosk_external
      (some (record { public_key = codes "server"; fed = [] }))
      check_in_completions
unfolding client_functions
success_sound_example =
    success_sound kiosk_external check_in_completions asked told success refl tells told_success
      refl

abbrev presenting : PollbookClient
unfolding client_functions
presenting = result_or kiosk (verify_ticket kiosk_external at_kiosk (codes "0a0b") 1234 kiosk)

presents : verify_ticket kiosk_external at_kiosk (codes "0a0b") 1234 kiosk ≡ done presenting
unfolding client_functions
presents = refl

-- The response is no JSON.
abbrev no_json : ClientAmbient × Completion
no_json = got (codes "?")

ticket_always-IsAnswered_example :
    (c2 : PollbookClient) × (drive kiosk_external (wrote_it ∷ no_json ∷ []) presenting ≡ done c2)
    × IsAnswered c2
unfolding client_functions
ticket_always-IsAnswered_example =
    ticket_always-IsAnswered kiosk_external (codes "0a0b") 1234 at_kiosk at_kiosk at_kiosk
      wrote_it.1 no_json.1 kiosk presenting [] refl refl presents

failure_reported_example :
    Refuses
      (complete kiosk_external at_kiosk wrote_it.1 (id_read ∷ []) asked)
      (record asked { in_flight = [] })
unfolding client_functions
failure_reported_example =
    failure_reported kiosk_external at_kiosk id_read [] wrote_it.1 asked refl tt

-- A signature of the sample repeats the key.
repeats :
    (k sig : Text)
    → text_beq k k ≡ true
    → some k ≡ some sig
    → (if text_beq sig k then valid else mismatch) ≡ valid
repeats k sig e h =
    let same : k ≡ sig = cc in
    subst (λ u. (if text_beq u k then valid else mismatch) ≡ valid) same (rw e)

abbrev no_parser : Text → Option Value
no_parser s = none

-- A request is printed as `{}`, a statement as `S`.
abbrev id_dump : Option Value → Text
id_dump none = codes "{}"
id_dump (some v) = codes "S"

abbrev statement_text : Text
statement_text = codes "S" ++ 10 ∷ []

-- The parsers know the request and the statement.
abbrev id_parse : Text → Option Value
id_parse s =
    if s == statement_text
    then some (verified_voter_id_to_json (sample_external no_parser) verified_id)
    else some (voter_id_request_to_json (sample_external no_parser) id_request)

abbrev id_external : External
id_external = record (sample_external id_parse) {
  dump = λ j. id_dump (member j (codes "id_service_signature"));
}

abbrev id_laws : ExternalLaws id_external
id_laws =
    let l = sample_laws id_parse in
    record {
      member-object = l.member-object;
      is_object-object = l.is_object-object;
      as_u64-of_nat = l.as_u64-of_nat;
      as_u32-of_nat = l.as_u32-of_nat;
      as_text-of_text = l.as_text-of_text;
      as_bool-of_bool = l.as_bool-of_bool;
      decode-encode = l.decode-encode;
    }

abbrev registered : IdService
unfolding client_functions
registered =
    load_voter_data_from_csv
      (codes "UID,Last,First,Middle,Address,City,State,Zip"
        ∷ codes "100,DOE,Jo,X,1 Elm St,Salem,OR,97301"
        ∷ [])
      (record {
        signer = record { private_key = codes "id"; fed = [] };
        client_public_keys = [];
        client_verifiers = (7, record { public_key = codes "k7"; fed = [] }) ∷ [];
        voter_id_name_map = [];
        voter_data = [];
        effects = [];
      })

abbrev at_id_service : IdAmbient
at_id_service = record { now = noon; key_file = λ id. key (codes "k7"); write_succeeds = true }

abbrev message : Text
message = codes "{}"

identity_round_trip_example :
    (c1 : PollbookClient) × (check_in_voter id_external at_kiosk voter_name 100 [] kiosk ≡ done c1)
    × (c1.sent ≡ (id_server, size_line message ++ payload_line message) ∷ [])
    × ((s' : IdService) × (run id_external settings
            ((at_id_service, size_read 1 (received (size_line message)))
              ∷ (at_id_service, payload_read 1 (length message) (received (payload_line message)))
              ∷ [])
            registered
          ≡ done s')
        × (s'.effects ≡ write 1 statement_text ∷ read_payload 1 (length message) ∷ []))
    × ((c2 : PollbookClient) × (drive id_external (got [] ∷ got statement_text ∷ []) c1
          ≡ start_checkin_request_write id_external at_kiosk verified_id c2)
        × (c2.in_flight ≡ [])
        × (c2.current_request_promise ≡ none)
        × (c2.current_request_voter_name ≡ voter_name)
        × (c2.checkin_service_verifier ≡ kiosk.checkin_service_verifier))
unfolding client_functions
identity_round_trip_example =
    identity_round_trip id_external id_laws settings at_kiosk at_id_service 1 voter_name 100 []
      (codes "k7") (codes "id") (record { public_key = codes "k7"; fed = [] })
      (record { public_key = codes "id"; fed = [] }) kiosk registered refl (omega arith)
      (omega arith) (omega arith) (omega arith) refl refl
      (λ t sig h. repeats (codes "k7") sig refl h) (λ t sig h. repeats (codes "id") sig refl h) refl
      refl refl refl refl refl refl refl refl
