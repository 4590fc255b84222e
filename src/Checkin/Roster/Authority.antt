-- ===== src/Checkin/Roster/Authority.antt =====
-- CheckinService from its start on: who may check a voter in.
use pollbook_server.Prelude.{
  ◌≡◌, refl, sym, ap, subst, ◌≢◌, ℕ, true, Option, none, some, List, [], ◌∷◌, arith, nat_eq,
  text_eq, Text,
}
use pollbook_server.Map.{Map, lookup}
use pollbook_server.Run.{done, or_throw, Ensures-eq, >>=-eq-done, done-injective, or_throw-eq-done}
use pollbook_server.External.{External}
use pollbook_server.Checkin.State.{
  ClientType, ClientInfo, trusted_client, untrusted_client, VoterStatus, checked_in, Service,
  Settings, Ambient, Endpoint,
}
use pollbook_server.Checkin.Files.{load_trusted_clients, load_voter_list}
use pollbook_server.Checkin.Network.{
  Event, handshake, size_read, payload_read, timed_out, cleanup, received, disconnected,
  other_error, contains, step, run,
}
use pollbook_server.Checkin.Book.{
  Cause, device, cause_of, cause_of_type, sender, type_of_id, type_of_info,
}
use pollbook_server.Checkin.Startup.{
  Files, new_service, new_service-IsConsistent, load_client_public_keys, key_file_client,
}
use pollbook_server.Checkin.Safety.{Changes, step-Changes}
use pollbook_server.Checkin.Safety.Runs.{run-IsConsistent}
use pollbook_server.Checkin.Roster.Kiosk.{roster}
use pollbook_server.Checkin.Roster.Trust.{IsListed, step-IsListed}

load_keys-roster :
    (prefix : Text) (entries : List (Text × Option Text)) (s s' : Service)
    → load_client_public_keys prefix entries s ≡ done s'
    → roster s' ≡ roster s
unfolding load_client_public_keys
load_keys-roster prefix [] s s' e = ap roster (sym (done-injective s s' e))
load_keys-roster prefix ((name, none) ∷ entries) s s' e = ap roster (sym (done-injective s s' e))
load_keys-roster prefix ((name, some key) ∷ entries) s s' e =
    let (id, _, rest) = >>=-eq-done (key_file_client prefix name) _ e in
    load_keys-roster prefix entries _ s' rest

-- A service that starts knows no clients yet.
new_service-IsListed :
    (f : Files) (s : Service)
    → new_service f ≡ done s
    → (lines : List Text) × (f.trusted_clients_lines ≡ some lines)
      × IsListed (load_trusted_clients lines) (roster s)
unfolding new_service lookup type_of_info
new_service-IsListed f s e =
    let (table, loaded, e1) = >>=-eq-done (load_voter_list f.voter_list_lines) _ e in
    let (lines, opened, e2) = >>=-eq-done (or_throw f.trusted_clients_lines) _ e1 in
    let k = load_keys-roster f.client_key_file_prefix f.client_keys_folder _ s e2 in
    (
      lines,
      or_throw-eq-done f.trusted_clients_lines lines opened,
      subst (IsListed (load_trusted_clients lines)) (sym k)
          (record { loaded = refl; listed = λ id h. cc }),
    )

device_type : (t : Option ClientType) → cause_of_type t ≡ device → t ≡ some trusted_client
unfolding cause_of_type
device_type none h = cc
device_type (some trusted_client) h = refl
device_type (some untrusted_client) h = cc

found_id :
    (clients : Map ℕ ClientInfo) (o : Option ℕ)
    → type_of_id clients o ≡ some trusted_client
    → (id : ℕ) × (o ≡ some id) × (type_of_info (lookup id clients) ≡ some trusted_client)
unfolding type_of_id
found_id clients none h = cc
found_id clients (some id) h = (id, refl, h)

-- A message of a client that is known as a trusted device.
abbrev FromDevice : Event → Service → Type 0
FromDevice e s =
    (ip : Endpoint) × (size : ℕ) × (bytes : Text) × (id : ℕ) × (e
      ≡ payload_read ip size (received bytes))
    × (lookup ip s.client_id_map ≡ some id)
    × (type_of_info (lookup id s.clients) ≡ some trusted_client)

cause-FromDevice : (e : Event) (s : Service) → cause_of e s ≡ device → FromDevice e s
unfolding cause_of sender
cause-FromDevice (payload_read ip size (received bytes)) s h =
    let (id, known, trusted) = found_id s.clients (lookup ip s.client_id_map) (device_type _ h) in
    (ip, size, bytes, id, refl, known, trusted)
cause-FromDevice (payload_read ip size disconnected) s h = cc
cause-FromDevice (payload_read ip size other_error) s h = cc
cause-FromDevice (handshake ip o) s h = cc
cause-FromDevice (size_read ip r) s h = cc
cause-FromDevice (timed_out v) s h = cc
cause-FromDevice (cleanup time threshold) s h = cc

by_device :
    (cause : Cause) (v : ℕ) (before after : Option VoterStatus)
    → Changes cause v before after
    → before ≢ some checked_in
    → after ≡ some checked_in
    → cause ≡ device
by_device cause v before after h new i = ground arith

module _ (x : External) (st : Settings) where
  run-IsListed :
      (trusted : List ℕ) (events : List (Ambient × Event)) (s s' : Service)
      → IsListed trusted (roster s)
      → run x st events s ≡ done s'
      → IsListed trusted (roster s')
  unfolding run
  run-IsListed trusted [] s s' l h =
      subst (λ t. IsListed trusted (roster t)) (done-injective s s' h) l
  run-IsListed trusted ((a, e) ∷ events) s s' l h =
      let (t, k, rest) = >>=-eq-done (step x st a e s) (run x st events) h in
      run-IsListed trusted events t s' (Ensures-eq _ _ t k (step-IsListed x st a trusted e s l))
        rest

  -- From the start of the service on, in any run: an event that checks a voter in is a message on a
  -- connection that the service has recorded for a client on the list of trusted clients, as the
  -- service read it when it started.
  pub only_trusted_check_in :
      (f : Files) (events : List (Ambient × Event)) (s t t' : Service) (a : Ambient) (e : Event)
      (v : ℕ)
      → new_service f ≡ done s
      → run x st events s ≡ done t
      → step x st a e t ≡ done t'
      → lookup v t.voter_status_table ≢ some checked_in
      → lookup v t'.voter_status_table ≡ some checked_in
      → (ip : Endpoint) × (size : ℕ) × (bytes : Text) × (id : ℕ) × (lines : List Text) × (e
          ≡ payload_read ip size (received bytes))
        × (lookup ip t.client_id_map ≡ some id)
        × (f.trusted_clients_lines ≡ some lines)
        × (contains (load_trusted_clients lines) id ≡ true)
  only_trusted_check_in f events s t t' a e v starts runs steps new now =
      let (lines, opened, l) = new_service-IsListed f s starts in
      let c = run-IsConsistent x st events s t (new_service-IsConsistent f s v starts).0 runs in
      let changes = step-Changes x st a e t t' v c steps in
      let (ip, size, bytes, id, is_e, known, trusted) =
        cause-FromDevice e t (by_device _ v _ _ changes new now) in
      let listed = run-IsListed (load_trusted_clients lines) events s t l runs in
      (ip, size, bytes, id, lines, is_e, known, opened, listed.listed id trusted)
