-- ===== src/Tests/Devices.antt =====
-- A ticket through the client and the check-in service.
use pollbook_server.Tests.{everything}
use pollbook_server.Tests.Checkins.{waiting, waiting-IsConsistent}
use pollbook_server.Prelude.{
  ◌≡◌, refl, subst, true, Option, none, some, [], ◌∷◌, ◌++◌, ◌==◌, nat_eq, text_eq, text_beq,
  if◌then◌else◌, arith, Text, codes,
}
use pollbook_server.Map.{lookup}
use pollbook_server.Run.{done}
use pollbook_server.External.{External, ExternalLaws, valid, mismatch}
use pollbook_server.Messages.Ticket.{
  TicketResponse, ticket_request_to_json, ticket_response_to_json,
}
use pollbook_server.Checkin.State.{
  trusted_client, checked_in, Timer, Service, write, cancel_timer, read_payload,
}
use pollbook_server.Checkin.Network.{size_read, payload_read, received, run}
use pollbook_server.Checkin.Book.{book, IsConsistent}
use pollbook_server.Checkin.Refines.Cases.{Redeems}
use pollbook_server.Client.{checkin_server, PollbookClient, ClientAmbient}
use pollbook_server.Client.Tickets.{verify_ticket}
use pollbook_server.Client.Lines.{size_line, payload_line}
use pollbook_server.Client.Progress.{drive}
use pollbook_server.Client.Delivered.{got}
use pollbook_server.Client.Redeemed.{informed, redemption_round_trip}
use pollbook_server.Samples.Json.{Value, sample_external, sample_laws, member}
use pollbook_server.Samples.Polls.{settings, at_noon, device_request}
use pollbook_server.Samples.Contact.{at_kiosk, kiosk}

abbrev no_parser : Text → Option Value
no_parser s = none

abbrev granted : TicketResponse
granted = record {
  body = record {
    approved = true;
    last_name = codes "Doe";
    first_name = codes "Jo";
    middle_name = codes "X";
    voter_unique_id = 100;
    secret = codes "ff";
    pin = 1234;
  };
  signature = codes "local";
}

-- A message is printed as `A` if its body says whether something is approved, else as `{}`.
abbrev within : Option Value → Option Value
within none = none
within (some body) = member body (codes "approved")

abbrev print : Option Value → Text
print none = codes "{}"
print (some v) = codes "A"

abbrev request_text : Text
request_text = codes "{}"

abbrev reply_text : Text
reply_text = codes "A"

abbrev device_parse : Text → Option Value
device_parse s =
    if s == payload_line request_text
    then some (ticket_request_to_json (sample_external no_parser) device_request)
    else if s == payload_line reply_text
    then some (ticket_response_to_json (sample_external no_parser) granted)
    else none

abbrev device_external : External
device_external = record (sample_external device_parse) {
  dump = λ j. print (within (member j (codes "body")));
}

abbrev device_laws : ExternalLaws device_external
device_laws =
    let l = sample_laws device_parse in
    record {
      member-object = l.member-object;
      is_object-object = l.is_object-object;
      as_u64-of_nat = l.as_u64-of_nat;
      as_u32-of_nat = l.as_u32-of_nat;
      as_text-of_text = l.as_text-of_text;
      as_bool-of_bool = l.as_bool-of_bool;
      decode-encode = l.decode-encode;
    }

abbrev at_device : ClientAmbient
at_device = record at_kiosk { client_id = 9 }

abbrev device : PollbookClient
device = record kiosk {
  private_key_signer = record { private_key = codes "k9"; fed = [] };
  checkin_service_verifier = some (record { public_key = codes "local"; fed = [] });
}

abbrev arrived_ticket : Service
arrived_ticket = informed device_external device_laws settings at_device at_noon 2 2 9 waiting

abbrev timer : Timer
timer = record { expiry = 3600000000000; voter_id = 100 }

device_request-Redeems :
    Redeems device_external settings at_noon 2 device_request arrived_ticket 100 (codes "ff") timer
unfolding everything
device_request-Redeems = record {
  named = refl;
  issued = refl;
  keyed = arrived_ticket;
  has_key = refl;
  verifier = record { public_key = codes "k9"; fed = [] };
  is_verifier = refl;
  signed = refl;
  fresh = refl;
  pin_matches = refl;
  timer = refl;
  in_time = refl;
}

arrived_ticket-IsConsistent : IsConsistent (book arrived_ticket)
unfolding everything
arrived_ticket-IsConsistent = waiting-IsConsistent

repeats :
    (sig : Text)
    → some (codes "local") ≡ some sig
    → (if text_beq sig (codes "local") then valid else mismatch) ≡ valid
unfolding everything
repeats sig h =
    let same : codes "local" ≡ sig = cc in
    subst (λ u. (if text_beq u (codes "local") then valid else mismatch) ≡ valid) same refl

redemption_round_trip_example :
    (c1 : PollbookClient) × (verify_ticket device_external at_device (codes "0a0b") 1234 device
      ≡ done c1)
    × (c1.sent ≡ (checkin_server, size_line request_text ++ payload_line request_text) ∷ [])
    × ((s' : Service) × (run device_external settings
            ((at_noon, size_read 2 (received (size_line request_text)))
              ∷ (at_noon, payload_read 2 2 (received (payload_line request_text)))
              ∷ [])
            waiting
          ≡ done s')
        × (lookup 100 s'.voter_status_table ≡ some checked_in)
        × (lookup 100 s'.request_timers ≡ none)
        × (s'.effects
            ≡ write 2 (payload_line reply_text)
              ∷ cancel_timer 100
              ∷ read_payload 2 2
              ∷ waiting.effects))
    × ((c2 : PollbookClient) × (drive device_external
            (got device_external device_laws at_device []
              ∷ got device_external device_laws at_device (payload_line reply_text)
              ∷ [])
            c1
          ≡ done c2)
        × (c2.current_request_promise
            ≡ some (record { success = true; failure_reason = codes "ff" }))
        × (c2.in_flight ≡ []))
unfolding everything
redemption_round_trip_example =
    redemption_round_trip device_external device_laws settings at_device at_noon 2 (codes "0a0b")
      1234 100 device waiting 9 (record { id = 9; type = trusted_client }) (codes "k9") (codes "ff")
      (codes "local") timer (record { public_key = codes "local"; fed = [] }) refl refl refl
      (omega arith, omega arith, omega arith) (omega arith) (omega arith) refl refl
      (λ t sig h. repeats sig h) refl refl refl refl arrived_ticket-IsConsistent
      device_request-Redeems refl
