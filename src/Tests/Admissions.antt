-- ===== src/Tests/Admissions.antt =====
-- A kiosk's check-in request.
use pollbook_server.Tests.{everything}
use pollbook_server.Tests.Checkins.{connected}
use pollbook_server.Prelude.{◌≡◌, refl, nat_eq, text_eq, true, some, [], ◌∷◌, Text, codes}
use pollbook_server.Map.{lookup}
use pollbook_server.Run.{done, throws, result_or}
use pollbook_server.Messages.Checkin.{checkin_response_to_json}
use pollbook_server.Checkin.State.{Service, pending, write, read_size, wait_for_timer}
use pollbook_server.Checkin.Requests.{frame, response_body, handle_checkin_request}
use pollbook_server.Checkin.Admission.{Admits, checkin_sound}
use pollbook_server.Checkin.Approval.{checkin_complete}
use pollbook_server.Checkin.State.{untrusted_client}
use pollbook_server.Checkin.Network.{payload_read, received, step}
use pollbook_server.Checkin.Crash.{malformed_ends_server}
use pollbook_server.Samples.Json.{sample_laws}
use pollbook_server.Samples.Polls.{polls, settings, at_noon, kiosk_request, blank}

abbrev asked : Service
unfolding everything
asked = result_or blank (handle_checkin_request polls settings at_noon 1 kiosk_request connected)

asked_status : lookup 100 asked.voter_status_table ≡ some pending
unfolding everything
asked_status = refl

asks : handle_checkin_request polls settings at_noon 1 kiosk_request connected ≡ done asked
unfolding everything
asks = refl

checkin_sound_example :
    (kiosk_request.body.voter_unique_id ≡ 100)
    × Admits polls settings at_noon 1 kiosk_request connected
unfolding everything
checkin_sound_example =
    checkin_sound polls settings at_noon 1 kiosk_request connected 100 asked asks (λ p. cc)

kiosk_request-Admits : Admits polls settings at_noon 1 kiosk_request connected
unfolding everything
kiosk_request-Admits = record {
  named = refl;
  keyed = connected;
  has_key = refl;
  valid = record {
    verifier = record { public_key = codes "k7"; fed = [] };
    is_verifier = refl;
    signed = refl;
    id_signed = refl;
    same_voter = refl;
    fresh = refl;
  };
  is_eligible = refl;
}

abbrev approval_text : Text
approval_text = frame (
    polls.dump (
      checkin_response_to_json polls (record {
        body = response_body polls settings at_noon kiosk_request true (codes "0a0b");
        checkin_service_signature = codes "local";
      })))

checkin_complete_example :
    (s' : Service) × (handle_checkin_request polls settings at_noon 1 kiosk_request connected
      ≡ done s')
    × (lookup 100 s'.voter_status_table ≡ some pending)
    × (lookup 100 s'.request_timers ≡ some (record { expiry = 3600000000000; voter_id = 100 }))
    × (lookup (codes "0a0b") s'.client_tickets_map ≡ some (100, codes "ff"))
    × (s'.effects ≡ read_size 1 ∷ write 1 approval_text ∷ wait_for_timer 100 ∷ connected.effects)
unfolding everything
checkin_complete_example =
    checkin_complete polls settings at_noon 1 kiosk_request connected (codes "0a0b") (codes "ff")
      (codes "local") kiosk_request-Admits refl refl refl refl

malformed_ends_server_example :
    step polls settings at_noon (payload_read 1 3 (received (codes "bad\n"))) connected ≡ throws
unfolding everything
malformed_ends_server_example =
    malformed_ends_server polls (sample_laws _) settings at_noon 1 (codes "bad\n") 7
      (record { id = 7; type = untrusted_client }) connected refl refl refl refl
