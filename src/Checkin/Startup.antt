-- ===== src/Checkin/Startup.antt =====
-- The constructor of CheckinService, given the contents of the files that it opens.
use pollbook_server.Prelude.{
  inl, inr, Bool-cases, ℕ, Bool, false, ◌||◌, ◌∙◌, refl, Option, none, some, List, [], ◌∷◌, ◌==◌,
  nat_eq, text_eq, Text, if◌then◌else◌, ◌≡◌, subst, Bool-cases, arith, ap, codes, sym, inl,
}
use pollbook_server.Map.{Map, lookup, emplace, lookup-emplace}
use pollbook_server.Text.{to_u32, stoul, first_column}
use pollbook_server.Run.{Run, done, ◌>>=◌, or_throw, done-injective, >>=-eq-done, or_throw-eq-done}
use pollbook_server.Signature.{new_signer, new_verifier}
use pollbook_server.Checkin.State.{VoterStatus, Service, eligible}
use pollbook_server.Checkin.Files.{load_voter_list, load_trusted_clients, load_voters}
use pollbook_server.Checkin.Book.{Agree, book, IsConsistent}

-- s.substr(0, s.find_last_of(d)), if `d` occurs
unfoldable pub before_last? : ℕ → Text → Option Text
before_last? d [] = none
before_last? d (c ∷ cs) = elim (before_last? d cs) [
  | some r ↦ some (c ∷ r)
  | none ↦ if c == d then some [] else none
]

unfoldable pub before_last : ℕ → Text → Text
unfolding before_last?
before_last d s = elim (before_last? d s) [ some r ↦ r | none ↦ s ]

unfoldable pub strip : Text → Text → Option Text
strip [] s = some s
strip (p ∷ ps) [] = none
strip (p ∷ ps) (c ∷ cs) = let rest = strip ps cs in if c == p then rest else none

-- s.erase(s.find(p), p.size()), which throws where `p` does not occur
unfoldable pub erase_first : Text → Text → Option Text
unfolding strip
erase_first p [] = strip p []
erase_first p (c ∷ cs) = elim (strip p (c ∷ cs)) [
  | some r ↦ some r
  | none ↦ elim (erase_first p cs) [ some r ↦ some (c ∷ r) | none ↦ none ]
]

-- The client whose key a file of the key folder holds, by the file's name.
unfoldable pub key_file_client : Text → Text → Run ℕ
unfolding before_last erase_first
key_file_client prefix name = do
  digits ← or_throw (erase_first prefix (before_last b'.' name))
  id ← or_throw (stoul digits)
  done (to_u32 id)

-- load_client_public_keys, over the entries of the key folder. A key that OpenSSL cannot read ends
-- the loop; what was loaded before it stays.
unfoldable pub load_client_public_keys : Text → List (Text × Option Text) → Service → Run Service
unfolding key_file_client
load_client_public_keys prefix [] s = done s
load_client_public_keys prefix ((name, none) ∷ entries) s = done s
load_client_public_keys prefix ((name, some key) ∷ entries) s = do
  id ← key_file_client prefix name
  load_client_public_keys prefix entries (record s {
    client_verifiers = emplace id (new_verifier key) s.client_verifiers;
    client_public_keys = emplace id key s.client_public_keys;
  })

-- What the constructor reads.
pub record Files : Type 0 where
  pub id_service_public_key : Text
  pub local_private_key : Text
  pub voter_list_lines : List Text
  -- none if the file does not open
  pub trusted_clients_lines : Option (List Text)
  pub client_key_file_prefix : Text
  pub client_keys_folder : List (Text × Option Text)
  -- what earlier runs of the service wrote
  pub ticket_lines : List Text

unfoldable pub new_service : Files → Run Service
new_service f = do
  table ← load_voter_list f.voter_list_lines
  trusted ← or_throw f.trusted_clients_lines
  load_client_public_keys f.client_key_file_prefix f.client_keys_folder (record {
    clients = [];
    trusted_clients = load_trusted_clients trusted;
    client_id_map = [];
    client_verifiers = [];
    client_public_keys = [];
    id_service_verifier = new_verifier f.id_service_public_key;
    signer = new_signer f.local_private_key;
    client_tickets_map = [];
    voter_status_table = table;
    request_timers = [];
    client_id = 0;
    faults = [];
    ticket_file = f.ticket_lines;
    effects = [];
  })

abbrev names : ℕ → Option ℕ → Bool
names v none = false
names v (some n) = to_u32 n == v

-- Whether a line begins with the voter's number.
abbrev pub is_listed : ℕ → List Text → Bool
is_listed v [] = false
is_listed v (line ∷ lines) = names v (stoul (first_column line)) || is_listed v lines

-- The status of a voter by the lines of the list, the first of which is the header.
abbrev pub first_status : ℕ → List Text → Option VoterStatus
first_status v [] = none
first_status v (header ∷ lines) = if is_listed v lines then some eligible else none

-- A voter who is in the table already keeps the status.
abbrev status_after : Option VoterStatus → Bool → Option VoterStatus
status_after (some status) listed = some status
status_after none listed = if listed then some eligible else none

status_after-emplace :
    (n v : ℕ) (listed : Bool) (table : Map ℕ VoterStatus)
    → status_after (lookup v (emplace n eligible table)) listed
      ≡ status_after (lookup v table) (n == v || listed)
status_after-emplace n v listed table = rw (lookup-emplace n v eligible table) (ground arith)

lookup-load_voters :
    (lines : List Text) (table table' : Map ℕ VoterStatus) (v : ℕ)
    → load_voters lines table ≡ done table'
    → lookup v table' ≡ status_after (lookup v table) (is_listed v lines)
unfolding load_voters
lookup-load_voters [] table table' v e =
    ap (lookup v) (sym (done-injective table table' e)) ∙ ground arith
lookup-load_voters (line ∷ lines) table table' v e =
    let (uid, reads, rest) = >>=-eq-done (or_throw (stoul (first_column line))) _ e in
    lookup-load_voters lines _ table' v rest
    ∙ status_after-emplace (to_u32 uid) v (is_listed v lines) table
    ∙ ap (λ o. status_after (lookup v table) (names v o || is_listed v lines))
        (sym (or_throw-eq-done _ uid reads))

lookup-load_voter_list :
    (lines : List Text) (table : Map ℕ VoterStatus) (v : ℕ)
    → load_voter_list lines ≡ done table
    → lookup v table ≡ first_status v lines
unfolding load_voter_list lookup
lookup-load_voter_list [] table v e = cc
lookup-load_voter_list (header ∷ lines) table v e =
    elim (Bool-cases (first_column header == codes "UID")) [
      | inl ok ↦ lookup-load_voters lines [] table v (rw ok at e)
      | inr bad ↦ cc (bad, e)
    ]

load_keys-book :
    (prefix : Text) (entries : List (Text × Option Text)) (s s' : Service)
    → load_client_public_keys prefix entries s ≡ done s'
    → book s' ≡ book s
unfolding load_client_public_keys
load_keys-book prefix [] s s' e = ap book (sym (done-injective s s' e))
load_keys-book prefix ((name, none) ∷ entries) s s' e = ap book (sym (done-injective s s' e))
load_keys-book prefix ((name, some key) ∷ entries) s s' e =
    let (id, _, rest) = >>=-eq-done (key_file_client prefix name) _ e in
    load_keys-book prefix entries _ s' rest

first_status-Agree : (v : ℕ) (lines : List Text) → Agree none (first_status v lines)
first_status-Agree v [] = tt
first_status-Agree v (header ∷ lines) = ground arith

-- A service that starts has no timers, and its table has exactly the voters whose number begins a
-- line of the voter list after the header, each of them eligible; so the timers agree with the
-- statuses.
pub new_service-IsConsistent :
    (f : Files) (s : Service) (v : ℕ)
    → new_service f ≡ done s
    → IsConsistent (book s)
      × (lookup v s.voter_status_table ≡ first_status v f.voter_list_lines)
      × (lookup v s.request_timers ≡ none)
unfolding new_service lookup
new_service-IsConsistent f s v e =
    let (table, loaded, e1) = >>=-eq-done (load_voter_list f.voter_list_lines) _ e in
    let (trusted, _, e2) = >>=-eq-done (or_throw f.trusted_clients_lines) _ e1 in
    let b = load_keys-book f.client_key_file_prefix f.client_keys_folder _ s e2 in
    let all : (w : ℕ) → lookup w table ≡ first_status w f.voter_list_lines =
      λ w. lookup-load_voter_list f.voter_list_lines table w loaded in
    (
      subst IsConsistent (sym b)
          (record { timed = λ w. rw (all w) (first_status-Agree w f.voter_list_lines) }),
      subst (λ k. lookup v k.statuses ≡ first_status v f.voter_list_lines) (sym b) (all v),
      subst (λ k. lookup v k.timers ≡ none) (sym b) refl,
    )
