-- ===== src/Tests/Rounds.antt =====
-- A check-in through the client and the check-in service.
use pollbook_server.Tests.{everything}
use pollbook_server.Tests.Checkins.{connected}
use pollbook_server.Prelude.{
  ◌≡◌, refl, subst, true, Option, none, some, [], ◌∷◌, ◌++◌, ◌==◌, nat_eq, text_eq, text_beq,
  if◌then◌else◌, arith, Text, codes,
}
use pollbook_server.Map.{lookup}
use pollbook_server.Run.{done}
use pollbook_server.External.{External, ExternalLaws, valid, mismatch}
use pollbook_server.Messages.Checkin.{checkin_request_to_json, checkin_response_to_json}
use pollbook_server.Checkin.State.{
  untrusted_client, pending, Service, write, read_size, read_payload, wait_for_timer,
}
use pollbook_server.Checkin.Network.{size_read, payload_read, received, run}
use pollbook_server.Checkin.Admission.{Admits}
use pollbook_server.Client.{checkin_server, PollbookClient}
use pollbook_server.Client.Requests.{start_checkin_request_write}
use pollbook_server.Client.Lines.{size_line, payload_line}
use pollbook_server.Client.Progress.{drive}
use pollbook_server.Client.Delivered.{got, verdict}
use pollbook_server.Client.Admitted.{arrived, check_in_round_trip}
use pollbook_server.Samples.Json.{Value, sample_external, sample_laws, member}
use pollbook_server.Samples.Polls.{settings, at_noon, kiosk_request, verified_id}
use pollbook_server.Samples.Contact.{approval, at_kiosk, kiosk}

abbrev no_parser : Text → Option Value
no_parser s = none

-- A request is printed as `{}`, a response as `A`.
abbrev is_request : Option Value → Text
is_request none = codes "{}"
is_request (some v) = codes "A"

abbrev request_text : Text
request_text = codes "{}"

abbrev reply_text : Text
reply_text = codes "A"

abbrev round_parse : Text → Option Value
round_parse s =
    if s == payload_line request_text
    then some (checkin_request_to_json (sample_external no_parser) kiosk_request)
    else if s == payload_line reply_text
    then some (
        checkin_response_to_json (sample_external no_parser)
          (record approval { checkin_service_signature = codes "local" }))
    else none

abbrev round_external : External
round_external = record (sample_external round_parse) {
  dump = λ j. is_request (member j (codes "checkin_service_signature"));
}

abbrev round_laws : ExternalLaws round_external
round_laws =
    let l = sample_laws round_parse in
    record {
      member-object = l.member-object;
      is_object-object = l.is_object-object;
      as_u64-of_nat = l.as_u64-of_nat;
      as_u32-of_nat = l.as_u32-of_nat;
      as_text-of_text = l.as_text-of_text;
      as_bool-of_bool = l.as_bool-of_bool;
      decode-encode = l.decode-encode;
    }

abbrev knowing : PollbookClient
knowing = record kiosk {
  checkin_service_verifier = some (record { public_key = codes "local"; fed = [] });
}

kiosk_request-Admits :
    Admits round_external settings at_noon 1 kiosk_request
      (arrived round_external round_laws settings at_kiosk at_noon 1 2 7 connected)
unfolding everything
kiosk_request-Admits = record {
  named = refl;
  keyed = arrived round_external round_laws settings at_kiosk at_noon 1 2 7 connected;
  has_key = refl;
  valid = record {
    verifier = record { public_key = codes "k7"; fed = [] };
    is_verifier = refl;
    signed = refl;
    id_signed = refl;
    same_voter = refl;
    fresh = refl;
  };
  is_eligible = refl;
}

-- The server's key signs with itself.
repeats :
    (sig : Text)
    → some (codes "local") ≡ some sig
    → (if text_beq sig (codes "local") then valid else mismatch) ≡ valid
unfolding everything
repeats sig h =
    let same : codes "local" ≡ sig = cc in
    subst (λ u. (if text_beq u (codes "local") then valid else mismatch) ≡ valid) same refl

check_in_round_trip_example :
    (c1 : PollbookClient) × (start_checkin_request_write round_external at_kiosk verified_id knowing
      ≡ done c1)
    × (c1.sent ≡ (checkin_server, size_line request_text ++ payload_line request_text) ∷ [])
    × ((s' : Service) × (run round_external settings
            ((at_noon, size_read 1 (received (size_line request_text)))
              ∷ (at_noon, payload_read 1 2 (received (payload_line request_text)))
              ∷ [])
            connected
          ≡ done s')
        × (lookup 100 s'.voter_status_table ≡ some pending)
        × (lookup (codes "0a0b") s'.client_tickets_map ≡ some (100, codes "ff"))
        × (s'.effects
            ≡ read_size 1
              ∷ write 1 (size_line reply_text ++ payload_line reply_text)
              ∷ wait_for_timer 100
              ∷ read_payload 1 2
              ∷ connected.effects))
    × ((c2 : PollbookClient) × (drive round_external
            (got round_external round_laws at_kiosk []
              ∷ got round_external round_laws at_kiosk (size_line reply_text)
              ∷ got round_external round_laws at_kiosk (payload_line reply_text)
              ∷ [])
            c1
          ≡ done c2)
        × (c2.current_request_promise ≡ some (verdict true))
        × (c2.in_flight ≡ []))
unfolding everything
check_in_round_trip_example =
    check_in_round_trip round_external round_laws settings at_kiosk at_noon 1 verified_id knowing
      connected 7 (record { id = 7; type = untrusted_client }) (codes "k7") (codes "0a0b")
      (codes "ff") (codes "local") (record { public_key = codes "local"; fed = [] }) refl refl refl
      (omega arith, omega arith, omega arith, ((omega arith, omega arith), omega arith))
      (omega arith) (omega arith) (omega arith) refl refl refl (λ t sig h. repeats sig h) refl refl
      refl refl kiosk_request-Admits refl refl refl refl
