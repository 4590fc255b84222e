-- ===== src/Messages/Checkin.antt =====
-- include/epollbook/checkin_request.hpp
use pollbook_server.Prelude.{ℕ, Bool, [], ◌∷◌, Text, codes}
use pollbook_server.Run.{Run, done, ◌>>=◌}
use pollbook_server.External.{External, at, get_u64, get_u32, get_text, get_bool, get_bytes}
use pollbook_server.Messages.VoterId.{
  VerifiedVoterId, verified_voter_id_to_json, verified_voter_id_from_json,
}

pub record CheckinBody : Type 0 where
  pub client_id_num : ℕ
  pub timestamp : ℕ
  pub last_name : Text
  pub first_name : Text
  pub middle_name : Text
  pub voter_unique_id : ℕ
  pub verified_id_message : VerifiedVoterId

pub record CheckinRequest : Type 0 where
  pub body : CheckinBody
  pub client_signature : Text

pub record CheckinResponseBody : Type 0 where
  pub approved : Bool
  pub requesting_client_id : ℕ
  pub timestamp : ℕ
  pub last_name : Text
  pub first_name : Text
  pub middle_name : Text
  pub voter_unique_id : ℕ
  pub ticket : Text

pub record CheckinResponse : Type 0 where
  pub body : CheckinResponseBody
  pub checkin_service_signature : Text

module _ (x : External) where
  open x use {Json, object, of_nat, of_text, of_bool, base64_encode}

  unfoldable pub checkin_body_to_json : CheckinBody → Json
  checkin_body_to_json b = object (
      (codes "client_id_num", of_nat b.client_id_num)
      ∷ (codes "timestamp", of_nat b.timestamp)
      ∷ (codes "last_name", of_text b.last_name)
      ∷ (codes "first_name", of_text b.first_name)
      ∷ (codes "middle_name", of_text b.middle_name)
      ∷ (codes "voter_unique_id", of_nat b.voter_unique_id)
      ∷ (codes "verified_id_message", verified_voter_id_to_json x b.verified_id_message)
      ∷ [])

  unfoldable pub checkin_request_to_json : CheckinRequest → Json
  checkin_request_to_json r = object (
      (codes "body", checkin_body_to_json r.body)
      ∷ (codes "client_signature", of_text (base64_encode r.client_signature))
      ∷ [])

  unfoldable pub checkin_request_from_json : Json → Run CheckinRequest
  checkin_request_from_json json = do
    body ← at x json "body"
    client_id_num ← get_u32 x body "client_id_num"
    timestamp ← get_u64 x body "timestamp"
    last_name ← get_text x body "last_name"
    first_name ← get_text x body "first_name"
    middle_name ← get_text x body "middle_name"
    voter_unique_id ← get_u32 x body "voter_unique_id"
    verified ← at x body "verified_id_message"
    verified_id_message ← verified_voter_id_from_json x verified
    client_signature ← get_bytes x json "client_signature"
    done (record {
      body = record {
        client_id_num = client_id_num;
        timestamp = timestamp;
        last_name = last_name;
        first_name = first_name;
        middle_name = middle_name;
        voter_unique_id = voter_unique_id;
        verified_id_message = verified_id_message;
      };
      client_signature = client_signature;
    })

  unfoldable pub checkin_response_body_to_json : CheckinResponseBody → Json
  checkin_response_body_to_json b = object (
      (codes "approved", of_bool b.approved)
      ∷ (codes "requesting_client_id", of_nat b.requesting_client_id)
      ∷ (codes "timestamp", of_nat b.timestamp)
      ∷ (codes "last_name", of_text b.last_name)
      ∷ (codes "first_name", of_text b.first_name)
      ∷ (codes "middle_name", of_text b.middle_name)
      ∷ (codes "voter_unique_id", of_nat b.voter_unique_id)
      ∷ (codes "ticket", of_text b.ticket)
      ∷ [])

  unfoldable pub checkin_response_to_json : CheckinResponse → Json
  checkin_response_to_json r = object (
      (codes "body", checkin_response_body_to_json r.body)
      ∷ (codes "checkin_service_signature", of_text (base64_encode r.checkin_service_signature))
      ∷ [])

  unfoldable pub checkin_response_from_json : Json → Run CheckinResponse
  checkin_response_from_json json = do
    body ← at x json "body"
    approved ← get_bool x body "approved"
    requesting_client_id ← get_u32 x body "requesting_client_id"
    timestamp ← get_u64 x body "timestamp"
    last_name ← get_text x body "last_name"
    first_name ← get_text x body "first_name"
    middle_name ← get_text x body "middle_name"
    voter_unique_id ← get_u32 x body "voter_unique_id"
    ticket ← get_text x body "ticket"
    signature ← get_bytes x json "checkin_service_signature"
    done (record {
      body = record {
        approved = approved;
        requesting_client_id = requesting_client_id;
        timestamp = timestamp;
        last_name = last_name;
        first_name = first_name;
        middle_name = middle_name;
        voter_unique_id = voter_unique_id;
        ticket = ticket;
      };
      checkin_service_signature = signature;
    })
