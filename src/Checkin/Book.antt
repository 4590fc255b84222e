-- ===== src/Checkin/Book.antt =====
-- What the check-in service promises about its voters: an abstract machine over their statuses and
-- timers, with a move for each thing that may happen to a voter.
use pollbook_server.Prelude.{◌≢◌, ℕ, ◌≡◌, Option, none, some, text_eq, nat_eq}
use pollbook_server.Map.{Map, lookup, insert, erase}
use pollbook_server.Checkin.Network.{Event, payload_read, received, timed_out}
use pollbook_server.Checkin.State.{
  ClientType, ClientInfo, trusted_client, untrusted_client, Endpoint, VoterStatus, eligible,
  pending, checked_in, Timer, Service,
}

pub record Book : Type 0 where
  pub statuses : Map ℕ VoterStatus
  pub timers : Map ℕ Timer

abbrev pub book : Service → Book
book s = record { statuses = s.voter_status_table; timers = s.request_timers }

-- What makes a move: a kiosk's message, a trusted device's, the timer of a voter, or none of these.
pub data Cause : Type 0 where
  kiosk device connection : Cause
  clock : ℕ → Cause

pub data Move (b c : Book) : Cause → Type 0 where
  -- no voter is touched
  idle : {cause : Cause} → c ≡ b → Move b c cause
  -- an eligible voter becomes pending, under a timer
  begin :
      (v : ℕ) (t : Timer)
      → lookup v b.statuses ≡ some eligible
      → c ≡ record { statuses = insert v pending b.statuses; timers = insert v t b.timers }
      → Move b c kiosk
  -- a pending voter is checked in, and the timer is used up
  complete :
      (v : ℕ) (t : Timer)
      → lookup v b.timers ≡ some t
      → lookup v b.statuses ≡ some pending
      → c ≡ record { statuses = insert v checked_in b.statuses; timers = erase v b.timers }
      → Move b c device
  -- a pending voter becomes eligible again, and the timer is gone
  expire :
      (v : ℕ)
      → lookup v b.statuses ≡ some pending
      → c ≡ record { statuses = insert v eligible b.statuses; timers = erase v b.timers }
      → Move b c (clock v)
  -- a timer fires of a voter that is not pending
  lapse :
      (v : ℕ)
      → lookup v b.statuses ≢ some pending
      → c ≡ record { statuses = b.statuses; timers = erase v b.timers }
      → Move b c (clock v)

-- A voter has a timer exactly if the voter is pending.
abbrev pub Agree : Option Timer → Option VoterStatus → Type 0
Agree (some t) (some pending) = Unit {0}
Agree (some t) _ = ⊥
Agree none (some pending) = ⊥
Agree none _ = Unit {0}

pub record IsConsistent (b : Book) : Type 0 where
  pub timed : (v : ℕ) → Agree (lookup v b.timers) (lookup v b.statuses)

unfoldable pub cause_of_type : Option ClientType → Cause
cause_of_type none = connection
cause_of_type (some trusted_client) = device
cause_of_type (some untrusted_client) = kiosk

unfoldable pub type_of_info : Option ClientInfo → Option ClientType
type_of_info none = none
type_of_info (some info) = some info.type

unfoldable pub type_of_id : Map ℕ ClientInfo → Option ℕ → Option ClientType
type_of_id clients none = none
type_of_id clients (some id) = type_of_info (lookup id clients)

-- The kind of client behind a connection, as its certificate told.
unfoldable pub sender : Endpoint → Service → Option ClientType
unfolding type_of_info type_of_id
sender ip s = type_of_id s.clients (lookup ip s.client_id_map)

-- Only a whole message of a known client, or a timer, may move a voter.
unfoldable pub cause_of : Event → Service → Cause
unfolding cause_of_type
cause_of (payload_read ip size (received bytes)) s = cause_of_type (sender ip s)
cause_of (timed_out v) s = clock v
cause_of _ s = connection
