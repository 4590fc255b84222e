-- ===== src/Checkin/Refines.antt =====
-- The event handlers of CheckinService against the abstract machine of Book.
pub mod Phase1
pub mod Cases
pub mod Phase2
use pollbook_server.Prelude.{
  ◌≡◌, refl, ℕ, ◌-◌, Option, none, some, Text, ◌==◌, nat_eq, subst, sym, length, arith, ◌∙◌,
}
use pollbook_server.Map.{lookup, erase}
use pollbook_server.Run.{
  Run, done, throws, ◌>>=◌, Ensures, Ensures-bind, Ensures-if, Ensures-map, or_throw, Ensures-eq,
}
use pollbook_server.Text.{stoul}
use pollbook_server.External.{External}
use pollbook_server.Messages.Checkin.{checkin_request_from_json}
use pollbook_server.Checkin.State.{
  VoterStatus, eligible, pending, checked_in, ClientType, ClientInfo, trusted_client,
  untrusted_client, Service, Settings, Ambient, Endpoint, emit, fault,
}
use pollbook_server.Checkin.Requests.{handle_verification_timeout, revert}
use pollbook_server.Checkin.Network.{
  Event, handshake, size_read, payload_read, timed_out, cleanup, ReadResult, received, disconnected,
  other_error, Handshake, handshake_failed, no_certificate, certificate, client_id_of_name,
  add_client, register, admit_key, add_verifier, admit, identify, handle_handshake,
  handle_size_read, handle_untrusted_client, or_null, dispatch, from_client, from_endpoint,
  handle_payload_read, step,
}
use pollbook_server.Checkin.Book.{
  Book, book, Move, Cause, kiosk, device, connection, clock, idle, expire, lapse, IsConsistent,
  cause_of, cause_of_type, sender, type_of_id, type_of_info,
}
use Phase1.{Keeps, handle_checkin_request-Move}
use Phase2.{handle_trusted_client-Move}

abbrev pub Moves : Service → Cause → Service → Type 0
Moves s cause s' = Move (book s) (book s') cause

revert-Move :
    (v : ℕ) (status : Option VoterStatus) (s : Service)
    → lookup v s.voter_status_table ≡ status
    → Moves s (clock v) (revert v status (record s { request_timers = erase v s.request_timers }))
unfolding revert
revert-Move v (some pending) s e = expire v e refl
revert-Move v (some eligible) s e = lapse v (λ p. cc) refl
revert-Move v (some checked_in) s e = lapse v (λ p. cc) refl
revert-Move v none s e = lapse v (λ p. cc) refl

module _ (x : External) (st : Settings) (a : Ambient) where
  register-Keeps : (id : ℕ) (info : Option ClientInfo) (s : Service) → Keeps s (register id info s)
  unfolding register add_client
  register-Keeps id none s = refl
  register-Keeps id (some info) s = refl

  admit_key-Keeps :
      (id : ℕ) (key : Text) (old : Option Text) (s : Service)
      → Keeps s (admit_key x st a id key old s)
  unfolding admit_key add_verifier fault emit
  admit_key-Keeps id key none s = refl
  admit_key-Keeps id key (some k) s = ground arith

  admit-Keeps : (id : ℕ) (key : Option Text) (s : Service) → Keeps s (admit x st a id key s)
  unfolding admit
  admit-Keeps id none s = refl
  admit-Keeps id (some key) s =
      register-Keeps id _ _ ∙ admit_key-Keeps id key (lookup id s.client_public_keys) s

  identify-Keeps :
      (ip : Endpoint) (cn : Text) (key : Option Text) (s : Service)
      → Ensures (Keeps s) (identify x st a ip cn key s)
  unfolding identify
  identify-Keeps ip cn key s =
      Ensures-bind (Keeps s) (client_id_of_name cn) _ λ id _. admit-Keeps id key _

  handshake-Keeps :
      (ip : Endpoint) (h : Handshake) (s : Service)
      → Ensures (Keeps s) (handle_handshake x st a ip h s)
  unfolding handle_handshake emit fault
  handshake-Keeps ip (handshake_failed message) s = refl
  handshake-Keeps ip no_certificate s = refl
  handshake-Keeps ip (certificate cn key) s =
      Ensures-bind (Keeps s) (identify x st a ip cn key s) _
        λ s' h. Ensures-eq (Keeps s) _ s' h (identify-Keeps ip cn key s)

  size_read-Keeps :
      (ip : Endpoint) (r : ReadResult) (s : Service)
      → Ensures (Keeps s) (handle_size_read x st a ip r s)
  unfolding handle_size_read emit
  size_read-Keeps ip (received bytes) s =
      Ensures-bind (Keeps s) (or_throw (stoul bytes)) _ λ n _. refl
  size_read-Keeps ip disconnected s = refl
  size_read-Keeps ip other_error s = refl

  untrusted-Move :
      (message : Text) (ip : Endpoint) (s : Service)
      → Ensures (Moves s kiosk) (handle_untrusted_client x st a message ip s)
  unfolding handle_untrusted_client
  untrusted-Move message ip s =
      Ensures-bind (Moves s kiosk) (checkin_request_from_json x _) _
        λ r _. handle_checkin_request-Move x st a ip r s

  from_client-Move :
      (ip : Endpoint) (message : Text) (id : ℕ) (info : Option ClientInfo) (s : Service)
      → IsConsistent (book s)
      → Ensures
          (Moves s (cause_of_type (type_of_info info)))
          (from_client x st a ip message id info s)
  unfolding from_client dispatch fault cause_of_type type_of_info
  from_client-Move ip message id none s c = idle refl
  from_client-Move ip message id (some info) s c = of_type info.type
    where
      of_type :
          (type : ClientType)
          → Ensures (Moves s (cause_of_type (some type))) (dispatch x st a type message ip s)
      of_type trusted_client = handle_trusted_client-Move x st a message ip s c
      of_type untrusted_client = untrusted-Move message ip s

  from_endpoint-Move :
      (ip : Endpoint) (message : Text) (id : Option ℕ) (s : Service)
      → IsConsistent (book s)
      → Ensures
          (Moves s (cause_of_type (type_of_id s.clients id)))
          (from_endpoint x st a ip message id s)
  unfolding from_endpoint fault cause_of_type type_of_id
  from_endpoint-Move ip message none s c = idle refl
  from_endpoint-Move ip message (some id) s c =
      from_client-Move ip message id (lookup id s.clients) (record s { client_id = id }) c

  -- Whatever the event, its handler throws, or makes a move of the abstract machine that the event
  -- may cause: a message of a kiosk begins a check-in at most, only a message of a trusted device
  -- completes one, and only a timer takes one back.
  pub step-Move :
      (e : Event) (s : Service)
      → IsConsistent (book s)
      → Ensures (Moves s (cause_of e s)) (step x st a e s)
  unfolding step cause_of handle_payload_read sender fault handle_verification_timeout
  step-Move (handshake ip h) s c =
      Ensures-map (Keeps s) (Moves s connection) _ (λ s' k. idle k) (handshake-Keeps ip h s)
  step-Move (size_read ip r) s c =
      Ensures-map (Keeps s) (Moves s connection) _ (λ s' k. idle k) (size_read-Keeps ip r s)
  step-Move (payload_read ip size (received bytes)) s c =
      Ensures-if (Moves s (cause_of_type (sender ip s))) (size == length bytes - 1) _ _
        (λ _. from_endpoint-Move ip bytes (lookup ip s.client_id_map) s c) (λ _. idle refl)
  step-Move (payload_read ip size disconnected) s c = idle refl
  step-Move (payload_read ip size other_error) s c = idle refl
  step-Move (timed_out v) s c = revert-Move v (lookup v s.voter_status_table) s refl
  step-Move (cleanup time threshold) s c = idle refl
