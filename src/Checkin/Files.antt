-- ===== src/Checkin/Files.antt =====
-- What the service reads from and writes to its files: the voter list, the list of trusted clients,
-- ticket_validation.csv; and the secrets that it draws.
use pollbook_server.Prelude.{
  zero, suc, ℕ, ◌+◌, ◌-◌, ◌/◌, ◌%◌, Option, none, some, List, [], ◌∷◌, ◌++◌, ltb, ◌==◌, nat_eq,
  text_eq, if◌then◌else◌, Text, codes, suc,
}
use pollbook_server.Map.{Map, insert, emplace}
use pollbook_server.Run.{Run, done, throws, ◌>>=◌, or_throw}
use pollbook_server.Text.{to_u32, to_string, stoul, extract_u32, getline, first_column}
use pollbook_server.Checkin.State.{VoterStatus, eligible, Service, Ambient}

abbrev comma : ℕ
comma = b','

abbrev newline : ℕ
newline = 10

unfoldable pub hex_digit : ℕ → ℕ
hex_digit n = if ltb n 10 then b'0' + n else b'a' + (n - 10)

-- std::hex, std::setw(2), std::setfill('0')
unfoldable pub hex : Text → Text
unfolding hex_digit
hex [] = []
hex (b ∷ bs) = hex_digit (b / 16) ∷ hex_digit (b % 16) ∷ hex bs

-- generate_secret, given what RAND_bytes fills the buffer with
unfoldable pub generate_secret : (ℕ → Option Text) → ℕ → Run Text
unfolding hex
generate_secret random_bytes size = do bytes ← or_throw (random_bytes size); done (hex bytes)

-- Three columns of a line of ticket_validation.csv: ticket, voter, secret.
unfoldable pub ticket_columns : Text → Option (Text × Text × Text)
unfolding getline
ticket_columns line = elim (getline comma line) [
  | none ↦ none
  | some (ticket, r) ↦ elim (getline comma r) [
    | none ↦ none
    | some (id_str, q) ↦ elim (getline newline q) [
      | none ↦ none
      | some (secret, e) ↦ some (ticket, id_str, secret)
    ]
  ]
]

unfoldable pub add_entry : Option ℕ → Text → Text → Map Text (ℕ × Text) → Map Text (ℕ × Text)
add_entry none ticket secret m = m
add_entry (some id) ticket secret m = insert ticket (to_u32 id, secret) m

-- one round of the loop of read_from_csv
unfoldable pub read_ticket_line : Text → Map Text (ℕ × Text) → Map Text (ℕ × Text)
unfolding ticket_columns add_entry
read_ticket_line line m = elim (ticket_columns line) [
  | none ↦ m
  | some (ticket, id_str, secret) ↦ add_entry (stoul id_str) ticket secret m
]

unfoldable pub read_ticket_lines : List Text → Map Text (ℕ × Text) → Map Text (ℕ × Text)
unfolding read_ticket_line
read_ticket_lines [] m = m
read_ticket_lines (line ∷ lines) m = read_ticket_lines lines (read_ticket_line line m)

unfoldable pub read_from_csv : Ambient → Service → Service
unfolding read_ticket_lines
read_from_csv a s =
    if a.ticket_file_opens
    then record s { client_tickets_map = read_ticket_lines s.ticket_file s.client_tickets_map }
    else s

unfoldable pub ticket_line : Text → Text → ℕ → Text
ticket_line ticket secret id = ticket ++ (comma ∷ (to_string id ++ (comma ∷ secret)))

unfoldable pub write_to_csv : Ambient → Text → Text → ℕ → Service → Service
unfolding ticket_line
write_to_csv a ticket secret id s =
    if a.ticket_file_opens
    then record s { ticket_file = s.ticket_file ++ ticket_line ticket secret id ∷ [] }
    else s

-- The entries of the map that find_voter returns; one that is missing reads as the empty text.
pub record VoterInfo : Type 0 where
  pub pin : Text
  pub last_name : Text
  pub first_name : Text
  pub middle_name : Text

abbrev pub no_voter : VoterInfo
no_voter = record { pin = []; last_name = []; first_name = []; middle_name = [] }

-- std::getline, once for each of `n` columns
unfoldable pub columns : ℕ → Text → Option (List Text)
unfolding getline
columns zero r = some []
columns (suc n) r = elim (getline (if n == 0 then newline else comma) r) [
  | none ↦ none
  | some (field, q) ↦ elim (columns n q) [ none ↦ none | some fields ↦ some (field ∷ fields) ]
]

-- A line of the voter list: its voter, if its nine columns are there.
unfoldable pub voter_line : Text → Option (Text × VoterInfo)
unfolding columns
voter_line line = elim (columns 9 line) [
  | some (uid ∷ pin ∷ last ∷ first ∷ middle ∷ addr ∷ city ∷ state ∷ zip ∷ []) ↦
      some (uid, record { pin = pin; last_name = last; first_name = first; middle_name = middle })
  | _ ↦ none
]

unfoldable pub find_voter : List Text → ℕ → VoterInfo
unfolding voter_line
find_voter [] id = no_voter
find_voter (line ∷ lines) id =
    let rest = find_voter lines id in
    elim (voter_line line) [
      | none ↦ rest
      | some (uid, info) ↦ if uid == to_string id then info else rest
    ]

-- the loop of load_voter_list
unfoldable pub load_voters : List Text → Map ℕ VoterStatus → Run (Map ℕ VoterStatus)
load_voters [] table = done table
load_voters (line ∷ lines) table = do
  uid ← or_throw (stoul (first_column line))
  load_voters lines (emplace (to_u32 uid) eligible table)

unfoldable pub load_voter_list : List Text → Run (Map ℕ VoterStatus)
unfolding load_voters
load_voter_list [] = throws
load_voter_list (header ∷ lines) =
    if first_column header == codes "UID" then load_voters lines [] else throws

-- load_trusted_clients; a line with no number is passed over
unfoldable pub load_trusted_clients : List Text → List ℕ
load_trusted_clients [] = []
load_trusted_clients (line ∷ lines) = elim (extract_u32 line) [
  | none ↦ load_trusted_clients lines
  | some id ↦ id ∷ load_trusted_clients lines
]

-- load_pin_mappings, after the header
unfoldable pub load_pin_mappings : List Text → Map Text Text → Map Text Text
unfolding voter_line
load_pin_mappings [] m = m
load_pin_mappings (line ∷ lines) m =
    load_pin_mappings lines
      (elim (voter_line line) [ none ↦ m | some (uid, info) ↦ insert info.pin uid m ])
