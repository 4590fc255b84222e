-- ===== src/Checkin/State.antt =====
-- The state of CheckinService, what a handler reads from outside, and what it asks asio and the
-- file system to do.
use pollbook_server.Prelude.{
  ℕ, ◌*◌, ◌^◌, Bool, Option, none, some, List, ◌∷◌, nat_eq, text_eq, Text,
}
use pollbook_server.Map.{Map, lookup, emplace}
use pollbook_server.Signature.{Signer, Verifier, new_verifier}
use pollbook_server.Faults.{FaultMap, report_fault}

pub data VoterStatus : Type 0 where
  eligible pending checked_in : VoterStatus

pub data ClientType : Type 0 where
  untrusted_client trusted_client : ClientType

pub record ClientInfo : Type 0 where
  pub id : ℕ
  pub type : ClientType

-- The expiry of a steady timer, in nanoseconds.
pub record Timer : Type 0 where
  pub expiry : ℕ
  pub voter_id : ℕ

-- An address and port, told apart and no more.
abbrev pub Endpoint : Type 0
Endpoint = ℕ

-- What a handler has started or done outside the service's memory.
pub data Effect : Type 0 where
  write : Endpoint → Text → Effect
  read_size : Endpoint → Effect
  read_payload : Endpoint → ℕ → Effect
  accept_next : Effect
  save_pub_key : ℕ → Text → Effect
  wait_for_timer : ℕ → Effect
  cancel_timer : ℕ → Effect

pub record Service : Type 0 where
  pub clients : Map ℕ ClientInfo
  pub trusted_clients : List ℕ
  pub client_id_map : Map Endpoint ℕ
  pub client_verifiers : Map ℕ Verifier
  pub client_public_keys : Map ℕ Text
  pub id_service_verifier : Verifier
  pub signer : Signer
  pub client_tickets_map : Map Text (ℕ × Text)
  pub voter_status_table : Map ℕ VoterStatus
  pub request_timers : Map ℕ Timer
  -- the member client_id: the client of the last message
  pub client_id : ℕ
  -- the FaultTracker singleton
  pub faults : FaultMap
  -- the lines of ticket_validation.csv
  pub ticket_file : List Text
  -- newest first
  pub effects : List Effect

-- Config, as far as the handlers read it.
pub record Settings : Type 0 where
  pub request_freshness_interval : ℕ
  -- in minutes, and taken not to be negative
  pub timeout_interval : ℕ

-- What one run of a handler reads from outside.
pub record Ambient : Type 0 where
  -- the system clock, in milliseconds
  pub now : ℕ
  -- the steady clock, in nanoseconds
  pub steady_now : ℕ
  -- the key file of a client, if it can be loaded
  pub key_file : ℕ → Option Text
  -- the lines of the voter list; none if it does not open
  pub voter_list : List Text
  pub ticket_file_opens : Bool
  -- RAND_bytes, in the two calls
  pub ticket_bytes : ℕ → Option Text
  pub secret_bytes : ℕ → Option Text
  pub write_succeeds : Bool
  -- what() of an exception
  pub what : Text

abbrev pub minute : ℕ
minute = 60 * 10 ^ 9

unfoldable pub emit : Effect → Service → Service
emit e s = record s { effects = e ∷ s.effects }

unfoldable pub fault : Ambient → ℕ → Text → Service → Service
fault a client_id description s = record s {
  faults = report_fault a.now client_id description s.faults;
}

-- client_id_map[client_ip], which puts 0 there if the endpoint is new
abbrev pub id_or_zero : Option ℕ → ℕ
id_or_zero none = 0
id_or_zero (some id) = id

unfoldable pub id_of : Endpoint → Service → ℕ
id_of ip s = id_or_zero (lookup ip s.client_id_map)

unfoldable pub touch_id : Endpoint → Service → Service
touch_id ip s = record s { client_id_map = emplace ip 0 s.client_id_map }

-- load_client_public_key, which reports whether it succeeded: `none` if not
unfoldable pub load_client_public_key : Ambient → ℕ → Service → Option Service
load_client_public_key a client_id s = elim (a.key_file client_id) [
  | none ↦ none
  | some key ↦ some (record s {
    client_public_keys = emplace client_id key s.client_public_keys;
    client_verifiers = emplace client_id (new_verifier key) s.client_verifiers;
  })
]

-- The client's verifier is in memory, or is loaded.
unfoldable pub ensure_verifier : Ambient → ℕ → Service → Option Service
unfolding load_client_public_key
ensure_verifier a client_id s = elim (lookup client_id s.client_verifiers) [
  | none ↦ load_client_public_key a client_id s
  | some v ↦ some s
]
