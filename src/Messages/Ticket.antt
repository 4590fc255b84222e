-- ===== src/Messages/Ticket.antt =====
-- include/epollbook/trusted_client_request.hpp
use pollbook_server.Prelude.{
  ℕ, Bool, true, false, not, ◌&&◌, ◌||◌, [], ◌∷◌, String, Option, none, some, Text, codes,
  if◌then◌else◌,
}
use pollbook_server.Run.{Run, done, throws, ◌>>=◌}
use pollbook_server.External.{External, at, get_u64, get_u32, get_text, get_bool, get_bytes}

pub record TicketBody : Type 0 where
  pub client_id : ℕ
  pub timestamp : ℕ
  pub ticket : Text
  pub pin : ℕ

pub record TicketRequest : Type 0 where
  pub body : TicketBody
  pub signature : Text

pub record TicketResponseBody : Type 0 where
  pub approved : Bool
  pub last_name : Text
  pub first_name : Text
  pub middle_name : Text
  pub voter_unique_id : ℕ
  pub secret : Text
  pub pin : ℕ

pub record TicketResponse : Type 0 where
  pub body : TicketResponseBody
  pub signature : Text

abbrev is_done {ℓ} : {A : Type ℓ} → Run A → Bool
is_done (done a) = true
is_done throws = false

abbrev is_some {ℓ} : {A : Type ℓ} → Option A → Bool
is_some none = false
is_some (some a) = true

module _ (x : External) where
  open x use {Json, object, member, is_object, of_nat, of_text, of_bool, base64_encode}

  unfoldable pub ticket_body_to_json : TicketBody → Json
  ticket_body_to_json b = object (
      (codes "client_id", of_nat b.client_id)
      ∷ (codes "timestamp", of_nat b.timestamp)
      ∷ (codes "ticket", of_text b.ticket)
      ∷ (codes "pin", of_nat b.pin)
      ∷ [])

  unfoldable pub ticket_request_to_json : TicketRequest → Json
  ticket_request_to_json r = object (
      (codes "body", ticket_body_to_json r.body)
      ∷ (codes "signature", of_text (base64_encode r.signature))
      ∷ [])

  unfoldable pub contains : Json → String → Bool
  contains j key = is_some (member j (codes key))

  -- what the second test of FromJson wants of the body
  unfoldable pub is_complete : Json → Bool
  unfolding contains
  is_complete body =
      is_object body
      && contains body "client_id"
      && contains body "timestamp"
      && contains body "ticket"
      && contains body "pin"

  ticket_fields_from_json : Json → Json → Run TicketRequest
  ticket_fields_from_json json body = do
    client_id ← get_u32 x body "client_id"
    timestamp ← get_u64 x body "timestamp"
    ticket ← get_text x body "ticket"
    pin ← get_u32 x body "pin"
    signature ← get_bytes x json "signature"
    done (record {
      body = record { client_id = client_id; timestamp = timestamp; ticket = ticket; pin = pin };
      signature = signature;
    })

  checked_fields_from_json : Json → Json → Run TicketRequest
  unfolding ticket_fields_from_json is_complete
  checked_fields_from_json json body =
      if is_complete body then ticket_fields_from_json json body else throws

  -- Both tests throw std::runtime_error.
  unfoldable pub ticket_request_from_json : Json → Run TicketRequest
  unfolding contains checked_fields_from_json
  ticket_request_from_json json =
      if contains json "body" && contains json "signature"
      then (do body ← at x json "body"; checked_fields_from_json json body)
      else throws

  -- The source assigns "pin" twice.
  unfoldable pub ticket_response_body_to_json : TicketResponseBody → Json
  ticket_response_body_to_json b = object (
      (codes "approved", of_bool b.approved)
      ∷ (codes "last_name", of_text b.last_name)
      ∷ (codes "first_name", of_text b.first_name)
      ∷ (codes "middle_name", of_text b.middle_name)
      ∷ (codes "voter_unique_id", of_nat b.voter_unique_id)
      ∷ (codes "pin", of_nat b.pin)
      ∷ (codes "secret", of_text b.secret)
      ∷ (codes "pin", of_nat b.pin)
      ∷ [])

  unfoldable pub ticket_response_to_json : TicketResponse → Json
  ticket_response_to_json r = object (
      (codes "body", ticket_response_body_to_json r.body)
      ∷ (codes "signature", of_text (base64_encode r.signature))
      ∷ [])

  response_body_from_json : Json → Run TicketResponseBody
  response_body_from_json body = do
    approved ← get_bool x body "approved"
    last_name ← get_text x body "last_name"
    first_name ← get_text x body "first_name"
    middle_name ← get_text x body "middle_name"
    voter_unique_id ← get_u32 x body "voter_unique_id"
    secret ← get_text x body "secret"
    pin ← get_u32 x body "pin"
    done (record {
      approved = approved;
      last_name = last_name;
      first_name = first_name;
      middle_name = middle_name;
      voter_unique_id = voter_unique_id;
      secret = secret;
      pin = pin;
    })

  unfoldable pub ticket_response_from_json : Json → Run TicketResponse
  unfolding response_body_from_json
  ticket_response_from_json json = do
    object ← at x json "body"
    body ← response_body_from_json object
    signature ← get_bytes x json "signature"
    done (record { body = body; signature = signature })

  has_response_fields : Json → Bool
  unfolding contains
  has_response_fields body =
      contains body "approved"
      && contains body "last_name"
      && contains body "first_name"
      && contains body "middle_name"
      && contains body "voter_unique_id"
      && contains body "secret"
      && contains body "pin"

  lacks_field : Option Json → Json → Bool
  unfolding contains has_response_fields response_body_from_json
  lacks_field none json = true
  lacks_field (some body) json =
      (is_object body && not (has_response_fields body))
      || (is_done (response_body_from_json body) && not (contains json "signature"))

  -- TicketResponse::FromJson of a JSON object that lacks a key which it reads. The json is const, so
  -- operator[] throws nothing then, as it does for what is no object: an assertion fails, and the
  -- process ends. The order in which the fields of the body are read is unspecified.
  unfoldable pub lacks_key : Json → Bool
  unfolding ticket_response_from_json lacks_field
  lacks_key json =
      not (is_done (ticket_response_from_json json))
      && is_object json
      && lacks_field (member json (codes "body")) json
