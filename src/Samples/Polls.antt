-- ===== src/Samples/Polls.antt =====
-- Voter 100 with PIN 1234, kiosk 7 at endpoint 1, trusted device 9 at endpoint 2.
use pollbook_server.Prelude.{
  ℕ, true, Option, none, some, List, [], ◌∷◌, ◌++◌, ◌==◌, text_eq, Text, codes, if◌then◌else◌,
}
use pollbook_server.External.{External}
use pollbook_server.Messages.VoterId.{VoterIdRequest, VerifiedVoterId}
use pollbook_server.Messages.Checkin.{CheckinRequest, checkin_request_to_json}
use pollbook_server.Messages.Ticket.{TicketRequest, ticket_request_to_json}
use pollbook_server.Samples.Json.{Value, sample_external}
use pollbook_server.Checkin.State.{Service, Settings, Ambient}
use pollbook_server.Checkin.Network.{
  Event, handshake, certificate, payload_read, received, timed_out,
}
use pollbook_server.Checkin.Startup.{Files}

-- The clock, in milliseconds since 1970.
abbrev pub noon : ℕ
noon = 1700000000000

abbrev pub id_request : VoterIdRequest
id_request = record {
  body = record {
    client_id_num = 7;
    timestamp = noon;
    last_name = codes "Doe";
    middle_name = codes "X";
    first_name = codes "Jo";
    voter_id_data = 100 ∷ 0 ∷ 0 ∷ 0 ∷ [];
  };
  client_signature = codes "k7";
}

abbrev pub verified_id : VerifiedVoterId
verified_id = record {
  presented_id = id_request;
  voter_unique_id = 100;
  id_service_signature = codes "id";
}

abbrev pub kiosk_request : CheckinRequest
kiosk_request = record {
  body = record {
    client_id_num = 7;
    timestamp = noon;
    last_name = codes "Doe";
    first_name = codes "Jo";
    middle_name = codes "X";
    voter_unique_id = 100;
    verified_id_message = verified_id;
  };
  client_signature = codes "k7";
}

abbrev pub device_request : TicketRequest
device_request = record {
  body = record { client_id = 9; timestamp = noon; ticket = codes "0a0b"; pin = 1234 };
  signature = codes "k9";
}

-- The two texts that the sample's parser knows, each with its newline.
abbrev pub kiosk_text : Text
kiosk_text = codes "C" ++ 10 ∷ []

abbrev pub device_text : Text
device_text = codes "T" ++ 10 ∷ []

abbrev no_parser : Text → Option Value
no_parser s = none

abbrev sample_parse : Text → Option Value
sample_parse s =
    if s == kiosk_text
    then some (checkin_request_to_json (sample_external no_parser) kiosk_request)
    else if s == device_text
    then some (ticket_request_to_json (sample_external no_parser) device_request)
    else none

abbrev pub polls : External
polls = sample_external sample_parse

abbrev pub settings : Settings
settings = record { request_freshness_interval = 5000; timeout_interval = 60 }

abbrev voters : List Text
voters =
    codes "UID,PIN,Last,First,Middle,Address,City,State,Zip"
    ∷ codes "100,1234,Doe,Jo,X,1 Elm St,Salem,OR,97301"
    ∷ []

abbrev pub at_noon : Ambient
at_noon = record {
  now = noon;
  steady_now = 0;
  key_file = λ id. none;
  voter_list = voters;
  ticket_file_opens = true;
  ticket_bytes = λ n. some (10 ∷ 11 ∷ []);
  secret_bytes = λ n. some (255 ∷ []);
  write_succeeds = true;
  what = codes "error";
}

abbrev pub files : Files
files = record {
  id_service_public_key = codes "id";
  local_private_key = codes "local";
  voter_list_lines = voters;
  trusted_clients_lines = some (codes "9" ∷ []);
  client_key_file_prefix = codes "client_";
  client_keys_folder = (codes "client_9.pem", some (codes "k9")) ∷ [];
  ticket_lines = [];
}

abbrev pub kiosk_arrives : Ambient × Event
kiosk_arrives = (at_noon, handshake 1 (certificate (codes "client 7") (some (codes "k7"))))

abbrev pub device_arrives : Ambient × Event
device_arrives = (at_noon, handshake 2 (certificate (codes "client 9") (some (codes "k9"))))

abbrev pub kiosk_asks : Ambient × Event
kiosk_asks = (at_noon, payload_read 1 1 (received kiosk_text))

abbrev pub device_asks : Ambient × Event
device_asks = (at_noon, payload_read 2 1 (received device_text))

abbrev pub time_is_up : Ambient × Event
time_is_up = (at_noon, timed_out 100)

abbrev pub polling_day : List (Ambient × Event)
polling_day = kiosk_arrives ∷ device_arrives ∷ kiosk_asks ∷ device_asks ∷ []

-- A service that knows nothing.
abbrev pub blank : Service
blank = record {
  clients = [];
  trusted_clients = [];
  client_id_map = [];
  client_verifiers = [];
  client_public_keys = [];
  id_service_verifier = record { public_key = []; fed = [] };
  signer = record { private_key = []; fed = [] };
  client_tickets_map = [];
  voter_status_table = [];
  request_timers = [];
  client_id = 0;
  faults = [];
  ticket_file = [];
  effects = [];
}
