-- ===== src/Messages/VoterId.antt =====
-- include/epollbook/voter_id_request.hpp
use pollbook_server.Prelude.{ℕ, [], ◌∷◌, Text, codes}
use pollbook_server.Run.{Run, done, ◌>>=◌}
use pollbook_server.External.{External, at, get_u64, get_u32, get_text, get_bytes}

pub record VoterIdBody : Type 0 where
  pub client_id_num : ℕ
  pub timestamp : ℕ
  pub last_name : Text
  pub middle_name : Text
  pub first_name : Text
  pub voter_id_data : Text

pub record VoterIdRequest : Type 0 where
  pub body : VoterIdBody
  pub client_signature : Text

pub record VerifiedVoterId : Type 0 where
  pub presented_id : VoterIdRequest
  pub voter_unique_id : ℕ
  pub id_service_signature : Text

module _ (x : External) where
  open x use {Json, object, of_nat, of_text, base64_encode}

  unfoldable pub voter_id_body_to_json : VoterIdBody → Json
  voter_id_body_to_json b = object (
      (codes "client_id_num", of_nat b.client_id_num)
      ∷ (codes "timestamp", of_nat b.timestamp)
      ∷ (codes "last_name", of_text b.last_name)
      ∷ (codes "middle_name", of_text b.middle_name)
      ∷ (codes "first_name", of_text b.first_name)
      ∷ (codes "voter_id_data", of_text (base64_encode b.voter_id_data))
      ∷ [])

  unfoldable pub voter_id_request_to_json : VoterIdRequest → Json
  voter_id_request_to_json r = object (
      (codes "body", voter_id_body_to_json r.body)
      ∷ (codes "client_signature", of_text (base64_encode r.client_signature))
      ∷ [])

  unfoldable pub voter_id_request_from_json : Json → Run VoterIdRequest
  voter_id_request_from_json json = do
    body ← at x json "body"
    voter_id ← get_bytes x body "voter_id_data"
    client_id_num ← get_u32 x body "client_id_num"
    timestamp ← get_u64 x body "timestamp"
    last_name ← get_text x body "last_name"
    middle_name ← get_text x body "middle_name"
    first_name ← get_text x body "first_name"
    client_signature ← get_bytes x json "client_signature"
    done (record {
      body = record {
        client_id_num = client_id_num;
        timestamp = timestamp;
        last_name = last_name;
        middle_name = middle_name;
        first_name = first_name;
        voter_id_data = voter_id;
      };
      client_signature = client_signature;
    })

  -- What the ID service signs, and what its clients check its signature on.
  unfoldable pub id_statement : VoterIdRequest → ℕ → Json
  id_statement presented_id voter_unique_id = object (
      (codes "presented_id", voter_id_request_to_json presented_id)
      ∷ (codes "voter_unique_id", of_nat voter_unique_id)
      ∷ [])

  unfoldable pub verified_voter_id_to_json : VerifiedVoterId → Json
  verified_voter_id_to_json v = object (
      (codes "presented_id", voter_id_request_to_json v.presented_id)
      ∷ (codes "voter_unique_id", of_nat v.voter_unique_id)
      ∷ (codes "id_service_signature", of_text (base64_encode v.id_service_signature))
      ∷ [])

  unfoldable pub verified_voter_id_from_json : Json → Run VerifiedVoterId
  verified_voter_id_from_json json = do
    presented ← at x json "presented_id"
    presented_id ← voter_id_request_from_json presented
    voter_unique_id ← get_u32 x json "voter_unique_id"
    id_service_signature ← get_bytes x json "id_service_signature"
    done (record {
      presented_id = presented_id;
      voter_unique_id = voter_unique_id;
      id_service_signature = id_service_signature;
    })
