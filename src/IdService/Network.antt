-- ===== src/IdService/Network.antt =====
-- VoterIDService::handle_accept, start_size_read, start_payload_read and the event loop.
use pollbook_server.Prelude.{
  ℕ, ◌-◌, Option, none, some, List, [], ◌∷◌, if◌then◌else◌, nat_eq, ◌==◌, Text, length,
}
use pollbook_server.Map.{lookup, emplace}
use pollbook_server.Run.{Run, done, ◌>>=◌, or_throw}
use pollbook_server.Text.{stoul}
use pollbook_server.External.{External}
use pollbook_server.Signature.{new_verifier}
use pollbook_server.Messages.VoterId.{voter_id_request_from_json}
use pollbook_server.Checkin.State.{
  Endpoint, Effect, accept_next, read_size, read_payload, save_pub_key, Settings,
}
use pollbook_server.Checkin.Network.{
  ReadResult, received, Handshake, handshake_failed, no_certificate, certificate, client_id_of_name,
}
use pollbook_server.IdService.{IdService, IdAmbient}
use pollbook_server.IdService.Validation.{handle_validation_request}

pub data IdEvent : Type 0 where
  handshake : Endpoint → Handshake → IdEvent
  size_read : Endpoint → ReadResult → IdEvent
  payload_read : Endpoint → ℕ → ReadResult → IdEvent

unfoldable pub emit : Effect → IdService → IdService
emit e s = record s { effects = e ∷ s.effects }

unfoldable pub add_verifier : ℕ → Text → IdService → IdService
add_verifier id key s = record s {
  client_verifiers = emplace id (new_verifier key) s.client_verifiers;
}

module _ (x : External) (st : Settings) (a : IdAmbient) where
  -- client_public_keys.try_emplace: the first key that a client shows is kept.
  unfoldable pub admit_key : ℕ → Text → Option Text → IdService → IdService
  unfolding add_verifier emit
  admit_key id key none s = add_verifier id key (
      emit (save_pub_key id key)
        (record s { client_public_keys = emplace id key s.client_public_keys }))
  admit_key id key (some old) s = if x.same_key old key then add_verifier id key s else s

  unfoldable pub admit : ℕ → Option Text → IdService → IdService
  unfolding admit_key
  admit id none s = s
  admit id (some key) s = admit_key id key (lookup id s.client_public_keys) s

  -- The completion of async_handshake in handle_accept.
  unfoldable pub handle_handshake : Endpoint → Handshake → IdService → Run IdService
  unfolding admit emit
  handle_handshake client_ip (handshake_failed message) s = done (emit accept_next s)
  handle_handshake client_ip no_certificate s =
      done (emit accept_next (emit (read_size client_ip) s))
  handle_handshake client_ip (certificate cn key) s = do
    id ← client_id_of_name cn
    done (emit accept_next (emit (read_size client_ip) (admit id key s)))

  -- The completion of start_size_read.
  unfoldable pub handle_size_read : Endpoint → ReadResult → IdService → Run IdService
  unfolding emit
  handle_size_read client_ip (received bytes) s = do
    size ← or_throw (stoul bytes)
    done (emit (read_payload client_ip size) s)
  handle_size_read client_ip _ s = done s

  -- The completion of start_payload_read. Nothing catches what the parser or FromJson throws.
  unfoldable pub handle_payload_read : Endpoint → ℕ → ReadResult → IdService → Run IdService
  handle_payload_read client_ip size (received bytes) s =
      if size == length bytes - 1
      then (do
        json ← or_throw (x.parse bytes)
        request ← voter_id_request_from_json x json
        handle_validation_request x st a client_ip request s)
      else done s
  handle_payload_read client_ip size _ s = done s

  unfoldable pub step : IdEvent → IdService → Run IdService
  unfolding handle_handshake handle_size_read handle_payload_read
  step (handshake client_ip h) s = handle_handshake client_ip h s
  step (size_read client_ip r) s = handle_size_read client_ip r s
  step (payload_read client_ip size r) s = handle_payload_read client_ip size r s

-- io_context::run, as in the check-in service.
unfoldable pub run : External → Settings → List (IdAmbient × IdEvent) → IdService → Run IdService
unfolding step
run x st [] s = done s
run x st ((a, e) ∷ events) s = do s' ← step x st a e s; run x st events s'
