-- ===== src/Checkin/Network.antt =====
-- The connections of the check-in service: the TLS handshake that names a client, the two reads of
-- a message, and the events that asio delivers, one at a time, on the service's one thread.
use pollbook_server.Prelude.{
  ℕ, ◌-◌, Bool, false, Option, none, some, List, [], ◌∷◌, ◌||◌, ◌==◌, nat_eq, text_eq,
  if◌then◌else◌, Text, codes, length,
}
use pollbook_server.Map.{lookup, insert, emplace}
use pollbook_server.Run.{Run, done, ◌>>=◌, or_throw}
use pollbook_server.Text.{to_u32, stoul, cut}
use pollbook_server.External.{External}
use pollbook_server.Signature.{new_verifier}
use pollbook_server.Messages.Checkin.{checkin_request_from_json}
use pollbook_server.Faults.{clear_old_records}
use pollbook_server.Checkin.State.{
  ClientType, ClientInfo, untrusted_client, trusted_client, Endpoint, accept_next, read_size,
  read_payload, save_pub_key, Service, Settings, Ambient, emit, fault,
}
use pollbook_server.Checkin.Requests.{handle_checkin_request, handle_verification_timeout}
use pollbook_server.Checkin.Tickets.{handle_trusted_client}

-- What a read hands over: the bytes up to the newline, or an error.
pub data ReadResult : Type 0 where
  received : Text → ReadResult
  disconnected other_error : ReadResult

-- What a handshake shows: the common name of the client's certificate, and its public key if that
-- can be extracted.
pub data Handshake : Type 0 where
  handshake_failed : Text → Handshake
  no_certificate : Handshake
  certificate : Text → Option Text → Handshake

pub data Event : Type 0 where
  handshake : Endpoint → Handshake → Event
  size_read : Endpoint → ReadResult → Event
  payload_read : Endpoint → ℕ → ReadResult → Event
  timed_out : ℕ → Event
  -- one round of the cleanup thread, with the threshold and the time in ticks
  cleanup : ℕ → ℕ → Event

unfoldable pub has_byte : ℕ → Text → Bool
has_byte d [] = false
has_byte d (c ∷ cs) = c == d || has_byte d cs

-- get_client_id_from_cert: the second word of the common name, or the only one.
unfoldable pub client_id_of_name : Text → Run ℕ
unfolding has_byte
client_id_of_name cn = do
  let (first, rest) = cut b' ' cn
  n ← or_throw (stoul (if has_byte b' ' cn then (cut b' ' rest).0 else first))
  done (to_u32 n)

unfoldable pub contains : List ℕ → ℕ → Bool
contains [] id = false
contains (i ∷ ids) id = i == id || contains ids id

unfoldable pub add_client : ℕ → ClientType → Service → Service
add_client id type s = record s { clients = insert id (record { id = id; type = type }) s.clients }

-- A client seen for the first time is trusted exactly if the list of trusted clients names it.
unfoldable pub register : ℕ → Option ClientInfo → Service → Service
unfolding add_client contains
register id (some info) s = s
register id none s =
    add_client id (if contains s.trusted_clients id then trusted_client else untrusted_client) s

module _ (x : External) (st : Settings) (a : Ambient) where
  unfoldable pub add_verifier : ℕ → Text → Service → Service
  add_verifier id key s = record s {
    client_verifiers = emplace id (new_verifier key) s.client_verifiers;
  }

  -- client_public_keys.try_emplace: the first key that a client shows is kept.
  unfoldable pub admit_key : ℕ → Text → Option Text → Service → Service
  unfolding add_verifier
  admit_key id key none s = add_verifier id key (
      emit (save_pub_key id key)
        (record s { client_public_keys = emplace id key s.client_public_keys }))
  admit_key id key (some old) s =
      if x.same_key old key
      then add_verifier id key s
      else fault a id (codes "Public key mismatch for client ID") s

  unfoldable pub admit : ℕ → Option Text → Service → Service
  unfolding admit_key register
  admit id none s = s
  admit id (some key) s =
      let s' = admit_key id key (lookup id s.client_public_keys) s in
      register id (lookup id s'.clients) s'

  unfoldable pub identify : Endpoint → Text → Option Text → Service → Run Service
  unfolding admit
  identify client_ip cn key s = do
    id ← client_id_of_name cn
    done (admit id key (record s { client_id_map = insert client_ip id s.client_id_map }))

  -- The completion of async_handshake in handle_accept. A failed handshake is charged to the client
  -- of the last message.
  unfoldable pub handle_handshake : Endpoint → Handshake → Service → Run Service
  unfolding identify
  handle_handshake client_ip (handshake_failed message) s =
      done (emit accept_next (fault a s.client_id message s))
  handle_handshake client_ip no_certificate s =
      done (emit accept_next (emit (read_size client_ip) s))
  handle_handshake client_ip (certificate cn key) s = do
    s' ← identify client_ip cn key s
    done (emit accept_next (emit (read_size client_ip) s'))

  -- The completion of start_size_read.
  unfoldable pub handle_size_read : Endpoint → ReadResult → Service → Run Service
  handle_size_read client_ip (received bytes) s = do
    size ← or_throw (stoul bytes)
    done (emit (read_payload client_ip size) s)
  handle_size_read client_ip _ s = done s

  unfoldable pub or_null : Option x.Json → x.Json
  or_null none = x.object []
  or_null (some json) = json

  -- A kiosk's message. A text that cannot be parsed leaves the null json, whose fields are then read
  -- outside the try block.
  unfoldable pub handle_untrusted_client : Text → Endpoint → Service → Run Service
  unfolding or_null
  handle_untrusted_client msg_string client_ip s = do
    request ← checkin_request_from_json x (or_null (x.parse msg_string))
    handle_checkin_request x st a client_ip request s

  unfoldable pub dispatch : ClientType → Text → Endpoint → Service → Run Service
  unfolding handle_untrusted_client
  dispatch trusted_client msg_string client_ip s =
      handle_trusted_client x st a msg_string client_ip s
  dispatch untrusted_client msg_string client_ip s = handle_untrusted_client msg_string client_ip s

  unfoldable pub from_client : Endpoint → Text → ℕ → Option ClientInfo → Service → Run Service
  unfolding dispatch
  from_client client_ip msg_string id none s = done (fault a id (codes "Unknown client ID") s)
  from_client client_ip msg_string id (some info) s = dispatch info.type msg_string client_ip s

  unfoldable pub from_endpoint : Endpoint → Text → Option ℕ → Service → Run Service
  unfolding from_client
  from_endpoint client_ip msg_string none s =
      done (fault a s.client_id (codes "Unknown client IP") s)
  from_endpoint client_ip msg_string (some id) s =
      from_client client_ip msg_string id (lookup id s.clients) (record s { client_id = id })

  -- The completion of start_payload_read.
  unfoldable pub handle_payload_read : Endpoint → ℕ → ReadResult → Service → Run Service
  unfolding from_endpoint
  handle_payload_read client_ip size (received bytes) s =
      if size == length bytes - 1
      then from_endpoint client_ip bytes (lookup client_ip s.client_id_map) s
      else done (
          fault a s.client_id
            (codes
              "Size of the message does not match the size that is received from the server for the client ")
            s)
  handle_payload_read client_ip size disconnected s = done s
  handle_payload_read client_ip size other_error s = done (
      fault a s.client_id
        (codes
          "Size of the message does not match the size that is received from the server for the client ")
        s)

  unfoldable pub step : Event → Service → Run Service
  step (handshake client_ip h) s = handle_handshake client_ip h s
  step (size_read client_ip r) s = handle_size_read client_ip r s
  step (payload_read client_ip size r) s = handle_payload_read client_ip size r s
  step (timed_out voter_id) s = done (handle_verification_timeout voter_id s)
  step (cleanup time threshold) s =
      done (record s { faults = clear_old_records time threshold s.faults })

-- io_context::run: the events in the order in which they are delivered, each with what its handler
-- reads from outside. An exception ends the run.
unfoldable pub run : External → Settings → List (Ambient × Event) → Service → Run Service
run x st [] s = done s
run x st ((a, e) ∷ events) s = do s' ← step x st a e s; run x st events s'
