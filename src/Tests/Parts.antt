-- ===== src/Tests/Parts.antt =====
-- The parts of the server alone: texts, time stamps, messages and signatures.
use pollbook_server.Tests.{everything}
use pollbook_server.Prelude.{
  ◌≡◌, refl, ◌≤◌, ◌+◌, ◌↔◌, true, false, Option, some, none, [], ◌∷◌, Text, codes, ◌||◌, arith,
  some, nat_eq, text_eq,
}
use pollbook_server.Run.{done}
use pollbook_server.Map.{lookup}
use pollbook_server.Faults.{FaultMap, report_fault, clear_old_records}
use pollbook_server.Faults.Records.{IsDistinct, report_then_clear}
use pollbook_server.Checkin.Files.{read_from_csv, ticket_line}
use pollbook_server.Checkin.KeyFiles.{key_file_name}
use pollbook_server.Checkin.KeyPaths.{
  saved_key_path, client_key_path, resolved, starts_with_slash, ends_with_slash, saved_key_found,
}
use pollbook_server.Checkin.State.{Service}
use pollbook_server.Checkin.TicketFile.{TicketWrite, ticket_survives}
use pollbook_server.Freshness.{is_stale, is_stale_exact}
use pollbook_server.External.{External}
use pollbook_server.Signature.{Verifier}
use pollbook_server.Messages.Checkin.{
  CheckinResponse, checkin_request_from_json, checkin_request_to_json,
}
use pollbook_server.Messages.Ticket.{
  TicketRequest, TicketResponse, ticket_request_from_json, ticket_request_to_json,
}
use pollbook_server.Messages.TicketTrip.{ticket_request_round_trip}
use pollbook_server.Messages.RoundTrip.{checkin_request_round_trip}
use pollbook_server.Samples.Json.{Value, sample_external, sample_laws}
use pollbook_server.Samples.Polls.{noon, kiosk_request, at_noon, blank}

is_stale_exact_example :
    (is_stale noon 1700000004000 5000 ≡ false)
    ↔ ((noon ≤ 1700000004000 + 5000) × (1700000004000 ≤ noon + 5000))
unfolding everything
is_stale_exact_example =
    is_stale_exact noon 1700000004000 5000 (omega arith) (omega arith) (omega arith) (omega arith)
      (omega arith)

abbrev no_parse : Text → Option Value
no_parse s = none

abbrev libraries : External
libraries = sample_external no_parse

checkin_request_round_trip_example :
    checkin_request_from_json libraries (checkin_request_to_json libraries kiosk_request)
    ≡ done kiosk_request
checkin_request_round_trip_example =
    checkin_request_round_trip libraries (sample_laws no_parse) kiosk_request
      ((omega arith), (omega arith), (omega arith), (((omega arith), (omega arith)), (omega arith)))

abbrev approval : CheckinResponse
approval = record {
  body = record {
    approved = true;
    requesting_client_id = 7;
    timestamp = noon;
    last_name = codes "Doe";
    first_name = codes "Jo";
    middle_name = codes "X";
    voter_unique_id = 100;
    ticket = codes "0a0b";
  };
  checkin_service_signature = codes "local";
}

abbrev kiosk_key : Verifier
kiosk_key = record { public_key = codes "k7"; fed = codes "old" }

abbrev two_faults : FaultMap
two_faults =
    (7, record { last_report_time = 10; fault_descriptions = codes "late" ∷ [] })
    ∷ (9, record { last_report_time = 50; fault_descriptions = codes "pin" ∷ [] })
    ∷ []

two_faults-IsDistinct : IsDistinct two_faults
unfolding everything
two_faults-IsDistinct = (refl, (refl, tt))

report_then_clear_example :
    lookup 9 (clear_old_records 120 60 (report_fault 100 9 (codes "key") two_faults))
    ≡ some (record { last_report_time = 100; fault_descriptions = codes "pin" ∷ codes "key" ∷ [] })
unfolding everything
report_then_clear_example =
    report_then_clear 100 120 60 9 9 (codes "key") two_faults two_faults-IsDistinct

abbrev ticket_request : TicketRequest
ticket_request = record {
  body = record { client_id = 9; timestamp = noon; ticket = codes "0a0b"; pin = 1234 };
  signature = codes "k9";
}

ticket_request_round_trip_example :
    ticket_request_from_json libraries (ticket_request_to_json libraries ticket_request)
    ≡ done ticket_request
ticket_request_round_trip_example =
    ticket_request_round_trip libraries (sample_laws no_parse) ticket_request
      ((omega arith), (omega arith), (omega arith))

abbrev ticket_answer : TicketResponse
ticket_answer = record {
  body = record {
    approved = true;
    last_name = codes "Doe";
    first_name = codes "Jo";
    middle_name = codes "X";
    voter_unique_id = 100;
    secret = codes "ff";
    pin = 1234;
  };
  signature = codes "local";
}

abbrev saved : Service
saved = record blank {
  client_verifiers =
      (7, record { public_key = codes "k7"; fed = [] })
      ∷ (9, record { public_key = codes "k9"; fed = [] })
      ∷ [];
  client_public_keys = (7, codes "k7") ∷ (9, codes "k9") ∷ [];
}

abbrev first_write : TicketWrite
first_write = record { ambient = at_noon; ticket = codes "0a0b"; secret = codes "ff"; voter = 100 }

abbrev second_write : TicketWrite
second_write = record {
  ambient = record at_noon { ticket_bytes = λ n. some (12 ∷ 13 ∷ []) };
  ticket = codes "0c0d";
  secret = codes "ff";
  voter = 101;
}

ticket_survives_example :
    lookup
      (codes "0a0b")
      (read_from_csv at_noon (record blank {
        ticket_file =
            ticket_line (codes "0a0b") (codes "ff") 100
            ∷ ticket_line (codes "0c0d") (codes "ff") 101
            ∷ [];
      })).client_tickets_map
    ≡ some (100, codes "ff")
unfolding everything
ticket_survives_example =
    ticket_survives first_write (second_write ∷ []) at_noon blank
      (record blank {
        ticket_file =
            ticket_line (codes "0a0b") (codes "ff") 100
            ∷ ticket_line (codes "0c0d") (codes "ff") 101
            ∷ [];
      })
      (refl, refl, (λ p. cc), omega arith) ((refl, refl, (λ p. cc), omega arith), refl, tt) refl
      refl refl

-- The key of client 7 goes to `keysclient_7.pem`, and is looked up as `keys/client_7.pem`.
saved_key_astray : saved_key_path (codes "keys") (codes "client_") 7 ≡ codes "keysclient_7.pem"
unfolding everything saved_key_path key_file_name
saved_key_astray = refl

saved_key_found_example :
    (resolved (client_key_path (codes "keys/") (codes "client_") 7)
      ≡ resolved (saved_key_path (codes "keys/") (codes "client_") 7))
    ↔ ((ends_with_slash (codes "keys/") || starts_with_slash (codes "client_")) ≡ true)
saved_key_found_example = saved_key_found (codes "keys/") (codes "client_") 7
