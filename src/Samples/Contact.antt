-- ===== src/Samples/Contact.antt =====
-- Kiosk 7 of the sample election, connected to both services, and what they answer.
use pollbook_server.Prelude.{
  true, Option, none, some, List, [], ◌∷◌, ◌++◌, ◌==◌, text_eq, Text, codes, if◌then◌else◌,
}
use pollbook_server.External.{External}
use pollbook_server.Messages.VoterId.{verified_voter_id_to_json}
use pollbook_server.Messages.Checkin.{CheckinResponse, checkin_response_to_json}
use pollbook_server.Checkin.Network.{received, disconnected}
use pollbook_server.Client.{VoterName, PollbookClient, ClientAmbient}
use pollbook_server.Client.Protocol.{Completion}
use pollbook_server.Samples.Json.{Value, sample_external}
use pollbook_server.Samples.Polls.{noon, verified_id}

abbrev pub approval : CheckinResponse
approval = record {
  body = record {
    approved = true;
    requesting_client_id = 7;
    timestamp = noon;
    last_name = codes "Doe";
    first_name = codes "Jo";
    middle_name = codes "X";
    voter_unique_id = 100;
    ticket = codes "0a0b";
  };
  checkin_service_signature = codes "server";
}

abbrev pub id_text : Text
id_text = codes "{}" ++ 10 ∷ []

abbrev pub approval_text : Text
approval_text = codes "A" ++ 10 ∷ []

abbrev no_parser : Text → Option Value
no_parser s = none

abbrev pub kiosk_parse : Text → Option Value
kiosk_parse s =
    if s == id_text
    then some (verified_voter_id_to_json (sample_external no_parser) verified_id)
    else if s == approval_text
    then some (checkin_response_to_json (sample_external no_parser) approval)
    else none

abbrev pub kiosk_external : External
kiosk_external = sample_external kiosk_parse

abbrev pub at_kiosk : ClientAmbient
at_kiosk = record { client_id = 7; now = noon; openssl_error = []; can_allocate = λ n. true }

abbrev pub voter_name : VoterName
voter_name = record { first_name = codes "Jo"; middle_name = codes "X"; last_name = codes "Doe" }

abbrev pub kiosk : PollbookClient
kiosk = record {
  checkin_connected = true;
  id_connected = true;
  private_key_signer = record { private_key = codes "k7"; fed = [] };
  id_service_verifier = some (record { public_key = codes "id"; fed = [] });
  checkin_service_verifier = some (record { public_key = codes "server"; fed = [] });
  current_request_promise = none;
  current_request_voter_name = voter_name;
  in_flight = [];
  sent = [];
}

abbrev pub wrote_it : ClientAmbient × Completion
wrote_it = (at_kiosk, record { wrote = true; read = disconnected })

abbrev pub got : Text → ClientAmbient × Completion
got bytes = (at_kiosk, record { wrote = true; read = received bytes })

-- Every write and read of a check-in works.
abbrev pub check_in_completions : List (ClientAmbient × Completion)
check_in_completions =
    wrote_it ∷ got id_text ∷ wrote_it ∷ got (codes "2" ++ 10 ∷ []) ∷ got approval_text ∷ []
