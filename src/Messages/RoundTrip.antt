-- ===== src/Messages/RoundTrip.antt =====
-- ToJson and FromJson of voter_id_request.hpp and checkin_request.hpp together.
use pollbook_server.Prelude.{text_beq, ℕ, ◌<◌, ◌≡◌, refl, Bool, some, List, String, Text, codes}
use pollbook_server.Text.{u64_mod, u32_mod}
use pollbook_server.Run.{done}
use pollbook_server.External.{
  External, ExternalLaws, assigned, at, get_u64, get_u32, get_text, get_bool, get_bytes,
}
use pollbook_server.Messages.VoterId.{
  VoterIdRequest, VerifiedVoterId, voter_id_body_to_json, voter_id_request_to_json,
  voter_id_request_from_json, verified_voter_id_from_json, verified_voter_id_to_json,
}
use pollbook_server.Messages.Checkin.{
  CheckinRequest, CheckinResponse, checkin_request_from_json, checkin_response_from_json,
  checkin_request_to_json, checkin_response_to_json, checkin_body_to_json,
  checkin_response_body_to_json,
}

abbrev pub IsVoterIdRequest : VoterIdRequest → Type 0
IsVoterIdRequest r = (r.body.client_id_num < u32_mod) × (r.body.timestamp < u64_mod)

abbrev pub IsVerifiedVoterId : VerifiedVoterId → Type 0
IsVerifiedVoterId v = IsVoterIdRequest v.presented_id × (v.voter_unique_id < u32_mod)

abbrev pub IsCheckinRequest : CheckinRequest → Type 0
IsCheckinRequest r =
    (r.body.client_id_num < u32_mod)
    × (r.body.timestamp < u64_mod)
    × (r.body.voter_unique_id < u32_mod)
    × IsVerifiedVoterId r.body.verified_id_message

abbrev pub IsCheckinResponse : CheckinResponse → Type 0
IsCheckinResponse r =
    (r.body.requesting_client_id < u32_mod)
    × (r.body.timestamp < u64_mod)
    × (r.body.voter_unique_id < u32_mod)

module _ (x : External) (laws : ExternalLaws x) where
  open x use {Json, object, of_nat, of_text, of_bool, base64_encode}

  pub get_u64-of_nat :
      (fs : List (Text × Json)) (key : String) (n : ℕ)
      → assigned (codes key) fs ≡ some (of_nat n)
      → n < u64_mod
      → get_u64 x (object fs) key ≡ done n
  unfolding get_u64
  get_u64-of_nat fs key n e h = rw (laws.member-object fs (codes key), e, laws.as_u64-of_nat n h)

  pub get_u32-of_nat :
      (fs : List (Text × Json)) (key : String) (n : ℕ)
      → assigned (codes key) fs ≡ some (of_nat n)
      → n < u32_mod
      → get_u32 x (object fs) key ≡ done n
  unfolding get_u32
  get_u32-of_nat fs key n e h = rw (laws.member-object fs (codes key), e, laws.as_u32-of_nat n h)

  pub get_text-of_text :
      (fs : List (Text × Json)) (key : String) (s : Text)
      → assigned (codes key) fs ≡ some (of_text s)
      → get_text x (object fs) key ≡ done s
  unfolding get_text
  get_text-of_text fs key s e = rw (laws.member-object fs (codes key), e, laws.as_text-of_text s)

  pub get_bool-of_bool :
      (fs : List (Text × Json)) (key : String) (b : Bool)
      → assigned (codes key) fs ≡ some (of_bool b)
      → get_bool x (object fs) key ≡ done b
  unfolding get_bool
  get_bool-of_bool fs key b e = rw (laws.member-object fs (codes key), e, laws.as_bool-of_bool b)

  pub get_bytes-encode :
      (fs : List (Text × Json)) (key : String) (s : Text)
      → assigned (codes key) fs ≡ some (of_text (base64_encode s))
      → get_bytes x (object fs) key ≡ done s
  unfolding get_bytes
  get_bytes-encode fs key s e = rw (
    laws.member-object fs (codes key),
    e,
    laws.as_text-of_text (base64_encode s),
    laws.decode-encode s,
  )

  pub at-object :
      (fs : List (Text × Json)) (key : String) (j : Json)
      → assigned (codes key) fs ≡ some j
      → at x (object fs) key ≡ done j
  unfolding at
  at-object fs key j e = rw (laws.member-object fs (codes key), e)

  -- A voter ID request comes back from its JSON.
  pub voter_id_request_round_trip :
      (r : VoterIdRequest)
      → IsVoterIdRequest r
      → voter_id_request_from_json x (voter_id_request_to_json x r) ≡ done r
  unfolding voter_id_request_from_json voter_id_request_to_json voter_id_body_to_json assigned
      text_beq
  voter_id_request_round_trip r h = rw (
    at-object _ "body" _ refl,
    get_bytes-encode _ "voter_id_data" _ refl,
    get_u32-of_nat _ "client_id_num" _ refl h.0,
    get_u64-of_nat _ "timestamp" _ refl h.1,
    get_text-of_text _ "last_name" _ refl,
    get_text-of_text _ "middle_name" _ refl,
    get_text-of_text _ "first_name" _ refl,
    get_bytes-encode _ "client_signature" _ refl,
  )

  -- So does a verified voter ID.
  pub verified_voter_id_round_trip :
      (v : VerifiedVoterId)
      → IsVerifiedVoterId v
      → verified_voter_id_from_json x (verified_voter_id_to_json x v) ≡ done v
  unfolding verified_voter_id_from_json verified_voter_id_to_json assigned text_beq
  verified_voter_id_round_trip v h = rw (
    at-object _ "presented_id" _ refl,
    voter_id_request_round_trip v.presented_id h.0,
    get_u32-of_nat _ "voter_unique_id" _ refl h.1,
    get_bytes-encode _ "id_service_signature" _ refl,
  )

  -- A check-in request whose numbers fit their types comes back whole from the JSON that is sent,
  -- so the service checks the signature on the body that the client signed.
  pub checkin_request_round_trip :
      (r : CheckinRequest)
      → IsCheckinRequest r
      → checkin_request_from_json x (checkin_request_to_json x r) ≡ done r
  unfolding checkin_request_from_json checkin_request_to_json checkin_body_to_json assigned text_beq
  checkin_request_round_trip r h = rw (
    at-object _ "body" _ refl,
    get_u32-of_nat _ "client_id_num" _ refl h.0,
    get_u64-of_nat _ "timestamp" _ refl h.1,
    get_text-of_text _ "last_name" _ refl,
    get_text-of_text _ "first_name" _ refl,
    get_text-of_text _ "middle_name" _ refl,
    get_u32-of_nat _ "voter_unique_id" _ refl h.2,
    at-object _ "verified_id_message" _ refl,
    verified_voter_id_round_trip r.body.verified_id_message h.3,
    get_bytes-encode _ "client_signature" _ refl,
  )

  -- The same for the response to a check-in request.
  pub checkin_response_round_trip :
      (r : CheckinResponse)
      → IsCheckinResponse r
      → checkin_response_from_json x (checkin_response_to_json x r) ≡ done r
  unfolding checkin_response_from_json checkin_response_to_json checkin_response_body_to_json
      assigned text_beq
  checkin_response_round_trip r h = rw (
    at-object _ "body" _ refl,
    get_bool-of_bool _ "approved" _ refl,
    get_u32-of_nat _ "requesting_client_id" _ refl h.0,
    get_u64-of_nat _ "timestamp" _ refl h.1,
    get_text-of_text _ "last_name" _ refl,
    get_text-of_text _ "first_name" _ refl,
    get_text-of_text _ "middle_name" _ refl,
    get_u32-of_nat _ "voter_unique_id" _ refl h.2,
    get_text-of_text _ "ticket" _ refl,
    get_bytes-encode _ "checkin_service_signature" _ refl,
  )
