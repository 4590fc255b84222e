-- ===== src/IdService/Startup.antt =====
-- The constructor of VoterIDService, given the contents of the files that it opens.
use pollbook_server.Prelude.{nat_eq, Option, none, some, List, [], ◌∷◌, Text}
use pollbook_server.Map.{emplace}
use pollbook_server.Run.{Run, done, ◌>>=◌}
use pollbook_server.Signature.{new_signer, new_verifier}
use pollbook_server.Checkin.Startup.{key_file_client}
use pollbook_server.IdService.{IdService, load_voter_data_from_csv}

-- A key that OpenSSL cannot read ends the loop; what was loaded before it stays.
unfoldable pub load_client_public_keys :
    Text → List (Text × Option Text) → IdService → Run IdService
unfolding key_file_client
load_client_public_keys prefix [] s = done s
load_client_public_keys prefix ((name, none) ∷ entries) s = done s
load_client_public_keys prefix ((name, some key) ∷ entries) s = do
  id ← key_file_client prefix name
  load_client_public_keys prefix entries (record s {
    client_verifiers = emplace id (new_verifier key) s.client_verifiers;
    client_public_keys = emplace id key s.client_public_keys;
  })

-- What the constructor reads.
pub record IdFiles : Type 0 where
  pub local_private_key : Text
  pub client_key_file_prefix : Text
  pub client_keys_folder : List (Text × Option Text)
  -- the header among them; none if the file does not open
  pub voter_lines : List Text

unfoldable pub new_id_service : IdFiles → Run IdService
unfolding load_client_public_keys load_voter_data_from_csv
new_id_service f = do
  s ← load_client_public_keys f.client_key_file_prefix f.client_keys_folder (record {
    signer = new_signer f.local_private_key;
    client_public_keys = [];
    client_verifiers = [];
    voter_id_name_map = [];
    voter_data = [];
    effects = [];
  })
  done (load_voter_data_from_csv f.voter_lines s)
