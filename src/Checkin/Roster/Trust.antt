-- ===== src/Checkin/Roster/Trust.antt =====
-- The members clients and trusted_clients across the events of CheckinService.
use pollbook_server.Prelude.{
  ◌≡◌, refl, sym, ap, subst, ◌∙◌, ◌-◌, ℕ, Bool, true, false, Option, none, some, List, arith, ◌==◌,
  nat_eq, Bool-cases, nat_beq_iff, inl, inr, Text, length, if◌then◌else◌,
}
use pollbook_server.Map.{Map, lookup, lookup-insert}
use pollbook_server.Run.{Run, or_throw, Ensures, Ensures-bind, Ensures-if, Ensures-map, Ensures-eq}
use pollbook_server.Text.{stoul}
use pollbook_server.External.{External}
use pollbook_server.Messages.Checkin.{checkin_request_from_json}
use pollbook_server.Checkin.State.{
  ClientType, ClientInfo, trusted_client, untrusted_client, VoterStatus, Service, Settings, Ambient,
  Endpoint, emit, fault,
}
use pollbook_server.Checkin.Requests.{handle_verification_timeout, revert}
use pollbook_server.Checkin.Network.{
  Event, handshake, size_read, payload_read, timed_out, cleanup, ReadResult, received, disconnected,
  other_error, Handshake, handshake_failed, no_certificate, certificate, client_id_of_name,
  contains, add_client, register, admit_key, add_verifier, admit, identify, handle_handshake,
  handle_size_read, handle_untrusted_client, dispatch, from_client, from_endpoint,
  handle_payload_read, step,
}
use pollbook_server.Checkin.Book.{type_of_info}
use pollbook_server.Checkin.Roster.Kiosk.{roster, Holds, handle_checkin_request-Holds}
use pollbook_server.Checkin.Roster.Device.{handle_trusted_client-Holds}

-- The trusted list is `trusted`, and a client known as a trusted device is on it.
pub record IsListed (trusted : List ℕ) (r : Map ℕ ClientInfo × List ℕ) : Type 0 where
  pub loaded : r.1 ≡ trusted
  pub listed :
      (id : ℕ) → type_of_info (lookup id r.0) ≡ some trusted_client → contains trusted id ≡ true

revert-Holds : (v : ℕ) (status : Option VoterStatus) (s : Service) → Holds s (revert v status s)
unfolding revert
revert-Holds v status s = ground arith

type_chosen :
    (b : Bool) (id : ℕ)
    → type_of_info
        (some (record { id = id; type = if b then trusted_client else untrusted_client }))
      ≡ some trusted_client
    → b ≡ true
unfolding type_of_info
type_chosen true id h = refl
type_chosen false id h = cc

register-IsListed :
    (trusted : List ℕ) (id : ℕ) (info : Option ClientInfo) (s : Service)
    → IsListed trusted (roster s)
    → IsListed trusted (roster (register id info s))
unfolding register add_client
register-IsListed trusted id (some info) s l = l
register-IsListed trusted id none s l =
    let new : ClientInfo = record {
      id = id;
      type = if contains s.trusted_clients id then trusted_client else untrusted_client;
    } in
    record {
      loaded = l.loaded;
      listed = λ j h.
          let found = ap type_of_info (sym (lookup-insert id j new s.clients)) ∙ h in
          elim (Bool-cases (id == j)) [
            | inl hit ↦
                let chosen = type_chosen (contains s.trusted_clients id) id (rw hit at found) in
                subst (λ k. contains trusted k ≡ true) ((nat_beq_iff id j).0 hit)
                  (subst (λ list. contains list id ≡ true) l.loaded chosen)
            | inr miss ↦ l.listed j (rw miss at found)
          ];
    }

module _ (x : External) (st : Settings) (a : Ambient) (trusted : List ℕ) where
  Keeps-IsListed :
      (s : Service) (m : Run Service)
      → IsListed trusted (roster s)
      → Ensures (Holds s) m
      → Ensures (λ s'. IsListed trusted (roster s')) m
  Keeps-IsListed s m l =
      Ensures-map (Holds s) (λ s'. IsListed trusted (roster s')) m
        (λ s' h. subst (IsListed trusted) (sym h) l)

  admit_key-Holds :
      (id : ℕ) (key : Text) (old : Option Text) (s : Service)
      → Holds s (admit_key x st a id key old s)
  unfolding admit_key add_verifier fault emit
  admit_key-Holds id key none s = refl
  admit_key-Holds id key (some k) s = ground arith

  admit-IsListed :
      (id : ℕ) (key : Option Text) (s : Service)
      → IsListed trusted (roster s)
      → IsListed trusted (roster (admit x st a id key s))
  unfolding admit
  admit-IsListed id none s l = l
  admit-IsListed id (some key) s l =
      register-IsListed trusted id _ (admit_key x st a id key (lookup id s.client_public_keys) s) (
        subst (IsListed trusted) (sym (admit_key-Holds id key (lookup id s.client_public_keys) s))
          l)

  handshake-IsListed :
      (ip : Endpoint) (h : Handshake) (s : Service)
      → IsListed trusted (roster s)
      → Ensures (λ s'. IsListed trusted (roster s')) (handle_handshake x st a ip h s)
  unfolding handle_handshake identify emit fault
  handshake-IsListed ip (handshake_failed message) s l = l
  handshake-IsListed ip no_certificate s l = l
  handshake-IsListed ip (certificate cn key) s l =
      let P : Service → Type 0 = λ s'. IsListed trusted (roster s') in
      Ensures-bind P (identify x st a ip cn key s) _ λ s1 h.
        Ensures-eq P _ s1 h
          (Ensures-bind P (client_id_of_name cn) _ λ id _. admit-IsListed id key _ l)

  size_read-Holds :
      (ip : Endpoint) (r : ReadResult) (s : Service)
      → Ensures (Holds s) (handle_size_read x st a ip r s)
  unfolding handle_size_read emit
  size_read-Holds ip (received bytes) s =
      Ensures-bind (Holds s) (or_throw (stoul bytes)) _ λ n _. refl
  size_read-Holds ip disconnected s = refl
  size_read-Holds ip other_error s = refl

  dispatch-Holds :
      (type : ClientType) (message : Text) (ip : Endpoint) (s : Service)
      → Ensures (Holds s) (dispatch x st a type message ip s)
  unfolding dispatch handle_untrusted_client
  dispatch-Holds trusted_client message ip s = handle_trusted_client-Holds x st a message ip s
  dispatch-Holds untrusted_client message ip s =
      Ensures-bind (Holds s) (checkin_request_from_json x _) _
        λ r _. handle_checkin_request-Holds x st a ip r s

  from_client-Holds :
      (ip : Endpoint) (message : Text) (id : ℕ) (info : Option ClientInfo) (s : Service)
      → Ensures (Holds s) (from_client x st a ip message id info s)
  unfolding from_client fault
  from_client-Holds ip message id none s = refl
  from_client-Holds ip message id (some info) s = dispatch-Holds info.type message ip s

  from_endpoint-Holds :
      (ip : Endpoint) (message : Text) (id : Option ℕ) (s : Service)
      → Ensures (Holds s) (from_endpoint x st a ip message id s)
  unfolding from_endpoint fault
  from_endpoint-Holds ip message none s = refl
  from_endpoint-Holds ip message (some id) s =
      from_client-Holds ip message id (lookup id s.clients) _

  pub step-IsListed :
      (e : Event) (s : Service)
      → IsListed trusted (roster s)
      → Ensures (λ s'. IsListed trusted (roster s')) (step x st a e s)
  unfolding step handle_payload_read fault handle_verification_timeout
  step-IsListed (handshake ip h) s l = handshake-IsListed ip h s l
  step-IsListed (size_read ip r) s l = Keeps-IsListed s _ l (size_read-Holds ip r s)
  step-IsListed (payload_read ip size (received bytes)) s l = Keeps-IsListed s _ l (
      Ensures-if (Holds s) (size == length bytes - 1) _ _
        (λ _. from_endpoint-Holds ip bytes (lookup ip s.client_id_map) s) (λ _. refl))
  step-IsListed (payload_read ip size disconnected) s l = l
  step-IsListed (payload_read ip size other_error) s l = l
  step-IsListed (timed_out v) s l =
      subst (IsListed trusted) (sym (revert-Holds v (lookup v s.voter_status_table) _)) l
  step-IsListed (cleanup time threshold) s l = l
