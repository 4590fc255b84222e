-- ===== src/Client.antt =====
-- src/pollbook_client.cpp and include/epollbook/pollbook_client.hpp: the client of both services.
pub mod Requests
pub mod Tickets
pub mod Protocol
pub mod Progress
pub mod Backing
pub mod Answers
pub mod Failures
pub mod Redeeming
pub mod Lines
pub mod Identified
pub mod Delivered
pub mod Admitted
pub mod Presented
pub mod Redeemed
pub mod Relayed
pub mod Obtained
use pollbook_server.Prelude.{
  ℕ, ◌-◌, ◌/◌, ◌%◌, Bool, true, false, ◌&&◌, Option, none, some, List, [], ◌∷◌, ◌++◌, if◌then◌else◌,
  ltb, leb, ◌==◌, nat_eq, Text, ◌||◌,
}
use pollbook_server.Run.{Run, done, throws, ◌>>=◌}
use pollbook_server.Text.{u64_mod, is_digit, skip_spaces, signed_below}
use pollbook_server.Signature.{Signer, Verifier, new_signer, new_verifier}

pub record CheckinResult : Type 0 where
  pub success : Bool
  pub failure_reason : Text

pub data Server : Type 0 where
  id_server checkin_server : Server

-- The asynchronous operations that the client starts, by what their completion handlers do.
pub data Operation : Type 0 where
  id_write id_read checkin_write size_read response_read ticket_write ticket_read : Operation

pub record VoterName : Type 0 where
  pub first_name : Text
  pub middle_name : Text
  pub last_name : Text

pub record PollbookClient : Type 0 where
  pub checkin_connected : Bool
  pub id_connected : Bool
  pub private_key_signer : Signer
  pub id_service_verifier : Option Verifier
  pub checkin_service_verifier : Option Verifier
  -- the value of the promise, if it has been set
  pub current_request_promise : Option CheckinResult
  pub current_request_voter_name : VoterName
  -- the operations that have been started and have not completed
  pub in_flight : List Operation
  -- the bytes handed to the sockets, newest first
  pub sent : List (Server × Text)

-- What a call or a completion handler reads from outside.
pub record ClientAmbient : Type 0 where
  -- Config::CLIENT_ID
  pub client_id : ℕ
  -- the system clock, in milliseconds
  pub now : ℕ
  -- openssl::get_error_string
  pub openssl_error : Text
  -- whether a buffer of this size can be allocated
  pub can_allocate : ℕ → Bool

-- How make_handshake ends before it has the server's key.
pub data Contact : Type 0 where
  unreachable no_certificate no_key unwritable : Contact
  shown : Text → Contact

unfoldable pub new_client : Text → PollbookClient
new_client key = record {
  checkin_connected = false;
  id_connected = false;
  private_key_signer = new_signer key;
  id_service_verifier = none;
  checkin_service_verifier = none;
  current_request_promise = none;
  current_request_voter_name = record { first_name = []; middle_name = []; last_name = [] };
  in_flight = [];
  sent = [];
}

-- Each failure is an exception to the caller.
unfoldable pub make_handshake : Server → Contact → PollbookClient → Run PollbookClient
make_handshake id_server (shown key) c =
    done (record c { id_service_verifier = some (new_verifier key) })
make_handshake checkin_server (shown key) c =
    done (record c { checkin_service_verifier = some (new_verifier key) })
make_handshake _ _ c = throws

unfoldable pub connect_checkin_server : Contact → PollbookClient → Run PollbookClient
unfolding make_handshake
connect_checkin_server contact c = do
  c' ← make_handshake checkin_server contact c
  done (record c' { checkin_connected = true })

unfoldable pub connect_id_server : Contact → PollbookClient → Run PollbookClient
unfolding make_handshake
connect_id_server contact c = do
  c' ← make_handshake id_server contact c
  done (record c' { id_connected = true })

unfoldable pub connect : Contact → Contact → PollbookClient → Run PollbookClient
unfolding connect_checkin_server connect_id_server
connect checkin id c = do c' ← connect_checkin_server checkin c; connect_id_server id c'

-- promise.set_value, which throws std::future_error where the value has been set.
unfoldable pub set_promise :
    CheckinResult → Option CheckinResult → PollbookClient → Run PollbookClient
set_promise r none c = done (record c { current_request_promise = some r })
set_promise r (some old) c = throws

unfoldable pub set_value : Bool → Text → PollbookClient → Run PollbookClient
unfolding set_promise
set_value success reason c =
    set_promise (record { success = success; failure_reason = reason }) c.current_request_promise c

unfoldable pub start : Operation → PollbookClient → PollbookClient
start op c = record c { in_flight = op ∷ c.in_flight }

unfoldable pub send : Server → Text → PollbookClient → PollbookClient
send server bytes c = record c { sent = (server, bytes) ∷ c.sent }

-- memcpy of a std::uint32_t, on a little-endian machine
unfoldable pub little_endian : ℕ → Text
little_endian n = n % 256 ∷ n / 256 % 256 ∷ n / 256 / 256 % 256 ∷ n / 256 / 256 / 256 % 256 ∷ []

unfoldable pub begins_with_digit : Text → Bool
begins_with_digit [] = false
begins_with_digit (c ∷ cs) = is_digit c

-- a number after a sign, or without one
unfoldable pub has_number : Text → Bool
unfolding begins_with_digit
has_number [] = false
has_number (c ∷ cs) = if c == b'+' || c == b'-' then begins_with_digit cs else is_digit c

-- stream >> size, for std::size_t size = 0: what cannot be read leaves 0, what is too large leaves
-- the largest size.
unfoldable pub extract_size : Text → ℕ
unfolding skip_spaces signed_below has_number
extract_size s = elim (signed_below u64_mod (skip_spaces s)) [
  | some n ↦ n
  | none ↦ if has_number (skip_spaces s) then u64_mod - 1 else 0
]
