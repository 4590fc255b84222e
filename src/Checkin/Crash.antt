-- ===== src/Checkin/Crash.antt =====
-- CheckinService::start_payload_read on a message of a kiosk that is no JSON.
use pollbook_server.Prelude.{◌≡◌, refl, ◌-◌, none, some, [], ℕ, nat_eq, Text, length, nat_beq_iff}
use pollbook_server.Map.{lookup}
use pollbook_server.Run.{throws}
use pollbook_server.External.{External, ExternalLaws, assigned, at}
use pollbook_server.Messages.Checkin.{checkin_request_from_json}
use pollbook_server.Checkin.State.{
  ClientInfo, untrusted_client, Service, Settings, Ambient, Endpoint,
}
use pollbook_server.Checkin.Network.{
  payload_read, received, or_null, handle_untrusted_client, dispatch, from_client, from_endpoint,
  handle_payload_read, step,
}

module _ (x : External) (laws : ExternalLaws x) (st : Settings) (a : Ambient) where
  null_throws : checkin_request_from_json x (x.object []) ≡ throws
  unfolding checkin_request_from_json at assigned
  null_throws = rw (laws.member-object [] _) refl

  -- A message of a known kiosk that has the size announced and that the parser refuses makes the
  -- handler throw, in every state, and so ends the event loop.
  pub malformed_ends_server :
      (ip : Endpoint) (bytes : Text) (id : ℕ) (info : ClientInfo) (s : Service)
      → x.parse bytes ≡ none
      → lookup ip s.client_id_map ≡ some id
      → lookup id s.clients ≡ some info
      → info.type ≡ untrusted_client
      → step x st a (payload_read ip (length bytes - 1) (received bytes)) s ≡ throws
  unfolding step handle_payload_read from_endpoint from_client dispatch handle_untrusted_client
      or_null
  malformed_ends_server ip bytes id info s malformed known client kiosk = rw (
    (nat_beq_iff (length bytes - 1) (length bytes - 1)).1 refl,
    known,
    client,
    kiosk,
    malformed,
    null_throws,
  )
