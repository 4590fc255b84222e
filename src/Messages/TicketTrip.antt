-- ===== src/Messages/TicketTrip.antt =====
-- ToJson and FromJson of trusted_client_request.hpp together.
use pollbook_server.Prelude.{
  text_beq, ◌<◌, ◌≡◌, refl, true, some, List, String, Text, text_eq, codes,
}
use pollbook_server.Text.{u64_mod, u32_mod}
use pollbook_server.Run.{done}
use pollbook_server.External.{External, ExternalLaws, assigned}
use pollbook_server.Messages.Ticket.{
  TicketRequest, TicketResponse, contains, is_complete, ticket_request_from_json,
  ticket_request_to_json, ticket_body_to_json, ticket_response_from_json, ticket_response_to_json,
  ticket_response_body_to_json,
}
use pollbook_server.Messages.RoundTrip.{
  get_u64-of_nat, get_u32-of_nat, get_text-of_text, get_bool-of_bool, get_bytes-encode, at-object,
}

abbrev pub IsTicketRequest : TicketRequest → Type 0
IsTicketRequest r =
    (r.body.client_id < u32_mod) × (r.body.timestamp < u64_mod) × (r.body.pin < u32_mod)

abbrev pub IsTicketResponse : TicketResponse → Type 0
IsTicketResponse r = (r.body.voter_unique_id < u32_mod) × (r.body.pin < u32_mod)

module _ (x : External) (laws : ExternalLaws x) where
  open x use {Json, object}

  contains-object :
      (fs : List (Text × Json)) (key : String) (j : Json)
      → assigned (codes key) fs ≡ some j
      → contains x (object fs) key ≡ true
  unfolding contains
  contains-object fs key j e = rw (laws.member-object fs (codes key), e) refl

  complete-body : (r : TicketRequest) → is_complete x (ticket_body_to_json x r.body) ≡ true
  unfolding is_complete ticket_body_to_json assigned text_beq
  complete-body r = rw (
    laws.is_object-object _ _,
    contains-object _ "client_id" _ refl,
    contains-object _ "timestamp" _ refl,
    contains-object _ "ticket" _ refl,
    contains-object _ "pin" _ refl,
  )

  -- A ticket request whose numbers fit their types passes the tests of FromJson and comes back
  -- whole from the JSON that is sent.
  pub ticket_request_round_trip :
      (r : TicketRequest)
      → IsTicketRequest r
      → ticket_request_from_json x (ticket_request_to_json x r) ≡ done r
  unfolding ticket_request_from_json ticket_request_to_json ticket_body_to_json assigned text_beq
  ticket_request_round_trip r h = rw (
    contains-object _ "body" _ refl,
    contains-object _ "signature" _ refl,
    at-object x laws _ "body" _ refl,
    complete-body r,
    get_u32-of_nat x laws _ "client_id" _ refl h.0,
    get_u64-of_nat x laws _ "timestamp" _ refl h.1,
    get_text-of_text x laws _ "ticket" _ refl,
    get_u32-of_nat x laws _ "pin" _ refl h.2,
    get_bytes-encode x laws _ "signature" _ refl,
  )

  -- The same for the response to a ticket request.
  pub ticket_response_round_trip :
      (r : TicketResponse)
      → IsTicketResponse r
      → ticket_response_from_json x (ticket_response_to_json x r) ≡ done r
  unfolding ticket_response_from_json ticket_response_to_json ticket_response_body_to_json assigned
      text_beq
  ticket_response_round_trip r h = rw (
    at-object x laws _ "body" _ refl,
    get_bool-of_bool x laws _ "approved" _ refl,
    get_text-of_text x laws _ "last_name" _ refl,
    get_text-of_text x laws _ "first_name" _ refl,
    get_text-of_text x laws _ "middle_name" _ refl,
    get_u32-of_nat x laws _ "voter_unique_id" _ refl h.0,
    get_text-of_text x laws _ "secret" _ refl,
    get_u32-of_nat x laws _ "pin" _ refl h.1,
    get_bytes-encode x laws _ "signature" _ refl,
  )
