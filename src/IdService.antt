-- ===== src/IdService.antt =====
-- src/voter_id_service.cpp: the service that checks a presented ID and signs whom it shows.
pub mod Validation
pub mod Network
pub mod Statements
pub mod Accepted
pub mod Startup
use pollbook_server.Prelude.{
  ℕ, ◌+◌, ◌*◌, Bool, true, false, ◌&&◌, Option, none, some, List, [], ◌∷◌, ◌++◌, leb, ltb,
  if◌then◌else◌, nat_eq, ◌==◌, Text, length, get_elem?,
}
use pollbook_server.Map.{Map, lookup, insert, emplace}
use pollbook_server.Run.{Run, done, throws}
use pollbook_server.Text.{stoul, split, to_u32}
use pollbook_server.Signature.{Signer, Verifier, new_verifier}
use pollbook_server.Checkin.State.{Effect}

-- How opening a client's key file ends. Only the error of OpenSSL is caught.
pub data KeyFile : Type 0 where
  key : Text → KeyFile
  no_key no_file : KeyFile

pub record IdService : Type 0 where
  pub signer : Signer
  pub client_public_keys : Map ℕ Text
  pub client_verifiers : Map ℕ Verifier
  pub voter_id_name_map : Map ℕ Text
  pub voter_data : Map ℕ (List Text)
  -- newest first
  pub effects : List Effect

-- What one run of a handler reads from outside.
pub record IdAmbient : Type 0 where
  pub now : ℕ
  pub key_file : ℕ → KeyFile
  pub write_succeeds : Bool

-- data[i], which the callers reach for a line of eight columns or more only
unfoldable pub column : ℕ → List Text → Text
column i fields = elim (get_elem? fields i) [ none ↦ [] | some t ↦ t ]

unfoldable pub full_name : List Text → Text
unfolding column
full_name fields = column 2 fields ++ (b' ' ∷ (column 3 fields ++ (b' ' ∷ column 1 fields)))

-- A number that std::stoul refuses is logged, and its line left out.
unfoldable pub add_voter : Option ℕ → List Text → IdService → IdService
unfolding full_name
add_voter none fields s = s
add_voter (some n) fields s = record s {
  voter_data = insert (to_u32 n) fields s.voter_data;
  voter_id_name_map = insert (to_u32 n) (full_name fields) s.voter_id_name_map;
}

unfoldable pub load_voter_line : Text → IdService → IdService
unfolding add_voter column
load_voter_line line s =
    let fields = split b',' line in
    if ltb (length fields) 8 then s else add_voter (stoul (column 0 fields)) fields s

unfoldable pub load_voter_lines : List Text → IdService → IdService
unfolding load_voter_line
load_voter_lines [] s = s
load_voter_lines (line ∷ lines) s = load_voter_lines lines (load_voter_line line s)

-- The lines of the voter list, the header among them; none if it does not open.
unfoldable pub load_voter_data_from_csv : List Text → IdService → IdService
unfolding load_voter_lines
load_voter_data_from_csv [] s = s
load_voter_data_from_csv (header ∷ lines) s = load_voter_lines lines s

-- std::tolower in the C locale
unfoldable pub to_lower : ℕ → ℕ
to_lower c = if leb b'A' c && leb c b'Z' then c + 32 else c

unfoldable pub case_insensitive_equal : Text → Text → Bool
unfolding to_lower
case_insensitive_equal [] [] = true
case_insensitive_equal (c ∷ cs) (d ∷ ds) = to_lower c == to_lower d && case_insensitive_equal cs ds
case_insensitive_equal _ _ = false

unfoldable pub names_match : Text → Text → Text → Option (List Text) → Bool
unfolding case_insensitive_equal column
names_match first_name middle_name last_name none = false
names_match first_name middle_name last_name (some fields) =
    if ltb (length fields) 8
    then false
    else case_insensitive_equal first_name (column 2 fields)
      && (case_insensitive_equal middle_name (column 3 fields)
          && case_insensitive_equal last_name (column 1 fields))

unfoldable pub validate_voter_name : Text → Text → Text → ℕ → IdService → Bool
unfolding names_match
validate_voter_name first_name middle_name last_name voter_id s =
    names_match first_name middle_name last_name (lookup voter_id s.voter_data)

-- The first four bytes, on a little-endian machine. Fewer are undefined in C++; the model throws.
unfoldable pub validate_and_match_id_data : Text → Run ℕ
validate_and_match_id_data (a ∷ b ∷ c ∷ d ∷ rest) = done (a + 256 * (b + 256 * (c + 256 * d)))
validate_and_match_id_data _ = throws

unfoldable pub load_client_public_key : ℕ → KeyFile → IdService → Run (IdService × Bool)
load_client_public_key client_id (key k) s =
    done
      (record s { client_verifiers = emplace client_id (new_verifier k) s.client_verifiers }, true)
load_client_public_key client_id no_key s = done (s, false)
load_client_public_key client_id no_file s = throws

-- The client's verifier is in memory, or is loaded.
unfoldable pub ensure_verifier : IdAmbient → ℕ → IdService → Run (IdService × Bool)
unfolding load_client_public_key
ensure_verifier a client_id s = elim (lookup client_id s.client_verifiers) [
  | none ↦ load_client_public_key client_id (a.key_file client_id) s
  | some v ↦ done (s, true)
]
