-- ===== src/Client/Backing.antt =====
-- What PollbookClient reports as a success: the completion handlers, one by one.
use pollbook_server.Prelude.{
  ◌≡◌, refl, sym, ap, inl, inr, ◌∙◌, Bool, true, false, Option, Option-cases, some, Text,
}
use pollbook_server.Run.{
  Run, done, throws, ◌>>=◌, Ensures, Ensures-bind, Ensures-if, or_throw, or_throw-eq-done,
}
use pollbook_server.External.{External, at, get_bool, get_text}
use pollbook_server.Signature.{Verifier, sign_text, verify_text}
use pollbook_server.Messages.VoterId.{VerifiedVoterId, verified_voter_id_from_json}
use pollbook_server.Messages.Checkin.{
  CheckinResponse, checkin_response_from_json, checkin_response_body_to_json,
}
use pollbook_server.Messages.Ticket.{
  TicketResponse, ticket_response_body_to_json, ticket_response_from_json,
}
use pollbook_server.Checkin.Network.{ReadResult, received, disconnected, other_error}
use pollbook_server.Client.{
  CheckinResult, PollbookClient, ClientAmbient, set_value, set_promise, start, send, extract_size,
}
use pollbook_server.Client.Requests.{
  id_message_read, handle_id_response, start_checkin_request_write, size_message_read,
  start_checkin_response_read, response_message_read, handle_checkin_response, report_response,
}
use pollbook_server.Client.Tickets.{
  is_undefined, ticket_response_read, report_ticket, read_ticket_response, ticket_result,
}

-- The bytes of an approval that the key of the check-in service signed: a CheckinResponse, or a
-- TicketResponse.
pub data IsApproval (x : External) (v : Verifier) (bytes : Text) : Type 0 where
  of_checkin :
      (json : x.Json) (response : CheckinResponse)
      → x.parse bytes ≡ some json
      → checkin_response_from_json x json ≡ done response
      → verify_text x
          (x.dump (checkin_response_body_to_json x response.body))
          response.checkin_service_signature
          v
        ≡ done true
      → response.body.approved ≡ true
      → IsApproval x v bytes
  of_ticket :
      (json body : x.Json) (response : TicketResponse)
      → x.parse bytes ≡ some json
      → ticket_response_from_json x json ≡ done response
      → verify_text x (x.dump (ticket_response_body_to_json x response.body)) response.signature v
        ≡ done true
      → at x json "body" ≡ done body
      → get_bool x body "approved" ≡ done true
      → IsApproval x v bytes

-- The verifier is `v`, and a success that has been reported is backed by `A`.
abbrev pub Backed : Type 0 → Option Verifier → PollbookClient → Type 0
Backed A v c =
    (c.checkin_service_verifier ≡ v)
    × ((r : CheckinResult) → c.current_request_promise ≡ some r → r.success ≡ true → A)

module _ (A : Type 0) (v : Option Verifier) where
  pub set_value-Backed :
      (success : Bool) (reason : Text) (c : PollbookClient)
      → c.checkin_service_verifier ≡ v
      → (success ≡ true → A)
      → Ensures (Backed A v) (set_value success reason c)
  unfolding set_value set_promise
  set_value-Backed success reason c k f = elim (Option-cases c.current_request_promise) [
    | inl e ↦ rw e (k, λ r p s. f (cc))
    | inr (old, e) ↦ rw e tt
  ]

  pub told :
      (reason : Text) (c : PollbookClient)
      → Backed A v c
      → Ensures (Backed A v) (set_value false reason c)
  told reason c h = set_value-Backed false reason c h.0 (λ p. cc)

module _ (x : External) (a : ClientAmbient) (A : Type 0) (v : Option Verifier) where
  -- What an approval among the bytes read would give.
  abbrev pub Licensed : ReadResult → Type 0
  Licensed r =
      (bytes : Text) (verifier : Verifier)
      → r ≡ received bytes
      → v ≡ some verifier
      → IsApproval x verifier bytes
      → A

  id_response-Backed :
      (response : VerifiedVoterId) (c : PollbookClient)
      → Backed A v c
      → Ensures (Backed A v) (handle_id_response x a response c)
  unfolding handle_id_response start_checkin_request_write send start
  id_response-Backed response c h =
      Ensures-bind (Backed A v) (or_throw c.id_service_verifier) _ λ verifier _.
        Ensures-bind (Backed A v) (verify_text x _ response.id_service_signature verifier) _ λ ok _.
          Ensures-if (Backed A v) ok _ _
            (λ _. Ensures-bind (Backed A v) (sign_text x _ c.private_key_signer) _ λ signature _. h)
            (λ _. told A v _ c h)

  pub id_read-Backed :
      (r : ReadResult) (c : PollbookClient)
      → Backed A v c
      → Ensures (Backed A v) (id_message_read x a r c)
  unfolding id_message_read
  id_read-Backed (received bytes) c h =
      Ensures-bind (Backed A v) (or_throw (x.parse bytes)) _ λ json _.
        Ensures-bind (Backed A v) (verified_voter_id_from_json x json) _
          λ response _. id_response-Backed response c h
  id_read-Backed disconnected c h = told A v _ c h
  id_read-Backed other_error c h = told A v _ c h

  pub size_read-Backed :
      (r : ReadResult) (c : PollbookClient)
      → Backed A v c
      → Ensures (Backed A v) (size_message_read x a r c)
  unfolding size_message_read start_checkin_response_read start
  size_read-Backed (received bytes) c h =
      Ensures-if (Backed A v) (a.can_allocate (extract_size bytes)) _ _ (λ _. h) (λ _. tt)
  size_read-Backed disconnected c h = told A v _ c h
  size_read-Backed other_error c h = told A v _ c h

  report-Backed :
      (verified approved : Bool) (c : PollbookClient)
      → Backed A v c
      → (verified ≡ true → approved ≡ true → A)
      → Ensures (Backed A v) (report_response x a verified approved c)
  unfolding report_response
  report-Backed false approved c h f = told A v _ c h
  report-Backed true true c h f = set_value-Backed A v true _ c h.0 (λ _. f refl refl)
  report-Backed true false c h f = told A v _ c h

  pub response_read-Backed :
      (r : ReadResult) (c : PollbookClient)
      → Backed A v c
      → Licensed r
      → Ensures (Backed A v) (response_message_read x a r c)
  unfolding response_message_read handle_checkin_response
  response_read-Backed (received bytes) c h f =
      let P : PollbookClient → Type 0 = Backed A v in
      Ensures-bind P (or_throw (x.parse bytes)) _ λ json parses.
        Ensures-bind P (checkin_response_from_json x json) _ λ response reads.
          Ensures-bind P (or_throw c.checkin_service_verifier) _ λ verifier known.
            Ensures-bind P (verify_text x _ response.checkin_service_signature verifier) _
              λ verified verifies. report-Backed verified response.body.approved c h λ ok approved.
                f bytes verifier refl (sym h.0 ∙ or_throw-eq-done _ verifier known) (
                  IsApproval.of_checkin json response (or_throw-eq-done _ json parses) reads
                    (verifies ∙ ap done ok) approved)
  response_read-Backed disconnected c h f = told A v _ c h
  response_read-Backed other_error c h f = told A v _ c h

  ticket_result-Backed :
      (ok approved : Bool) (secret : Text) (c : PollbookClient)
      → Backed A v c
      → (ok ≡ true → approved ≡ true → A)
      → Ensures (Backed A v) (report_ticket x a (done (ticket_result x a ok approved secret)) c)
  unfolding report_ticket ticket_result
  ticket_result-Backed true approved secret c h f =
      set_value-Backed A v approved secret c h.0 (f refl)
  ticket_result-Backed false approved secret c h f = told A v _ c h

  -- `report_ticket` of a chain that may throw.
  report-bind :
      {B : Type 0} (m : Run B) (k : B → Run CheckinResult) (c : PollbookClient)
      → Backed A v c
      → ((b : B) → m ≡ done b → Ensures (Backed A v) (report_ticket x a (k b) c))
      → Ensures (Backed A v) (report_ticket x a (m >>= k) c)
  unfolding report_ticket
  report-bind (done b) k c h f = f b refl
  report-bind throws k c h f = told A v _ c h

  pub ticket_read-Backed :
      (r : ReadResult) (c : PollbookClient)
      → Backed A v c
      → Licensed r
      → Ensures (Backed A v) (ticket_response_read x a r c)
  unfolding ticket_response_read read_ticket_response
  ticket_read-Backed (received bytes) c h f =
      Ensures-if (Backed A v) (is_undefined x a (x.parse bytes)) _ _ (λ _. tt)
        λ _. report-bind (or_throw (x.parse bytes)) _ c h λ json parses.
          report-bind (ticket_response_from_json x json) _ c h λ response reads.
            report-bind (or_throw c.checkin_service_verifier) _ c h λ verifier known.
              report-bind (verify_text x _ response.signature verifier) _ c h λ ok verifies.
                report-bind (at x json "body") _ c h λ body has_body.
                  report-bind (get_bool x body "approved") _ c h λ approved says.
                    report-bind (get_text x body "secret") _ c h λ secret _.
                      report-bind (get_text x body "first_name") _ c h λ first _.
                        report-bind (get_text x body "middle_name") _ c h λ middle _.
                          report-bind (get_text x body "last_name") _ c h λ last _.
                            ticket_result-Backed ok approved secret c h λ is_ok yes_.
                              f bytes verifier refl (sym h.0 ∙ or_throw-eq-done _ verifier known) (
                                IsApproval.of_ticket json body response
                                  (or_throw-eq-done _ json parses) reads (verifies ∙ ap done is_ok)
                                  has_body (says ∙ ap done yes_))
  ticket_read-Backed disconnected c h f = told A v _ c h
  ticket_read-Backed other_error c h f = told A v _ c h
