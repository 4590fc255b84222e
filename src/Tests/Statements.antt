-- ===== src/Tests/Statements.antt =====
-- The voter ID service.
use pollbook_server.Tests.{everything}
use pollbook_server.Prelude.{◌≡◌, refl, subst, ℕ, nat_eq, text_eq, true, [], ◌∷◌, codes, ◌++◌}
use pollbook_server.Run.{done, result_or}
use pollbook_server.External.{valid}
use pollbook_server.Signature.{Signer}
use pollbook_server.Checkin.State.{Service, write}
use pollbook_server.Checkin.Requests.{validate_id_signature, validate_claims}
use pollbook_server.IdService.{
  IdService, IdAmbient, key, column, full_name, add_voter, load_voter_line, load_voter_lines,
  load_voter_data_from_csv, to_lower, case_insensitive_equal, names_match, validate_voter_name,
  validate_and_match_id_data, load_client_public_key, ensure_verifier,
}
use pollbook_server.IdService.Validation.{
  handle_validation_request, check_name, verify_client, send_verified_id,
}
use pollbook_server.Messages.VoterId.{VerifiedVoterId, verified_voter_id_to_json}
use pollbook_server.IdService.Accepted.{carrying, statement_accepted}
use pollbook_server.IdService.Statements.{
  Identifies, Stated, statement_message, statement_sound, statement_complete,
}
use pollbook_server.Samples.Polls.{polls, settings, noon, id_request, kiosk_request, at_noon, blank}

-- A test computes with all that the ID service calls.
id_functions : ℕ
unfolding everything column full_name add_voter load_voter_line load_voter_lines
    load_voter_data_from_csv to_lower case_insensitive_equal names_match validate_voter_name
    validate_and_match_id_data load_client_public_key ensure_verifier handle_validation_request
    check_name verify_client send_verified_id
id_functions = 0

abbrev id_signer : Signer
id_signer = record { private_key = codes "id"; fed = [] }

abbrev id_blank : IdService
id_blank = record {
  signer = id_signer;
  client_public_keys = [];
  client_verifiers = [];
  voter_id_name_map = [];
  voter_data = [];
  effects = [];
}

abbrev registered : IdService
unfolding id_functions
registered =
    load_voter_data_from_csv
      (codes "UID,Last,First,Middle,Address,City,State,Zip"
        ∷ codes "100,DOE,Jo,X,1 Elm St,Salem,OR,97301"
        ∷ codes "101,short"
        ∷ [])
      id_blank

registered_names : registered.voter_id_name_map ≡ (100, codes "Jo X DOE") ∷ []
unfolding id_functions
registered_names = refl

abbrev with_keys : IdAmbient
with_keys = record { now = noon; key_file = λ id. key (codes "k7"); write_succeeds = true }

abbrev stated : IdService
unfolding id_functions
stated =
    result_or id_blank (handle_validation_request polls settings with_keys 3 id_request registered)

states : handle_validation_request polls settings with_keys 3 id_request registered ≡ done stated
unfolding id_functions
states = refl

statement_sound_example : Stated polls settings with_keys 3 id_request registered stated
unfolding id_functions
statement_sound_example =
    statement_sound polls settings with_keys 3 id_request registered stated states (λ p. cc)

id_request-Identifies : Identifies polls settings with_keys id_request registered 100
unfolding id_functions
id_request-Identifies = record {
  fresh = refl;
  matched = refl;
  is_voter = refl;
  named = refl;
  keyed = stated_key;
  has_key = refl;
  verifier = record { public_key = codes "k7"; fed = [] };
  is_verifier = refl;
  signed = refl;
}
  where
    stated_key : IdService
    stated_key = record registered {
      client_verifiers = (7, record { public_key = codes "k7"; fed = [] }) ∷ [];
    }

statement_complete_example :
    (s' : IdService) × (handle_validation_request polls settings with_keys 3 id_request registered
      ≡ done s')
    × (s'.effects
        ≡ write 3 (statement_message polls id_request 100 (codes "id")) ∷ registered.effects)
unfolding id_functions
statement_complete_example =
    statement_complete polls settings with_keys 3 id_request registered 100 (codes "id")
      id_request-Identifies refl refl

abbrev listening : Service
listening = record blank { id_service_verifier = record { public_key = codes "id"; fed = [] } }

statement_accepted_example :
    (v : VerifiedVoterId) × (stated.effects
      ≡ write 3 (polls.dump (verified_voter_id_to_json polls v) ++ 10 ∷ []) ∷ registered.effects)
    × (validate_id_signature polls settings at_noon (carrying polls v kiosk_request) listening
        ≡ done (validate_claims polls settings at_noon (carrying polls v kiosk_request) listening))
unfolding id_functions
statement_accepted_example =
    statement_accepted polls settings with_keys 3 id_request registered stated at_noon listening
      kiosk_request
      (λ t sig h.
        let e : codes "id" ≡ sig = cc in
        subst (λ u. polls.digest_verify (codes "id") t u ≡ valid) e refl)
      states (λ p. cc)
