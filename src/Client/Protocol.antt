-- ===== src/Client/Protocol.antt =====
-- The completion handlers of PollbookClient together: one request, from its start to its answer.
use pollbook_server.Prelude.{
  ◌≡◌, refl, ap, ◌⊎◌, inl, inr, ℕ, ◌≤◌, Bool, true, false, none, some, List, [], ◌∷◌, arith, Text,
}
use pollbook_server.Run.{
  Run, done, throws, Ensures, Ensures-bind, Ensures-if, Ensures-map, or_throw,
}
use pollbook_server.External.{External}
use pollbook_server.Signature.{sign_text, verify_text}
use pollbook_server.Messages.VoterId.{VerifiedVoterId, verified_voter_id_from_json}
use pollbook_server.Messages.Checkin.{checkin_response_from_json}
use pollbook_server.Checkin.Network.{ReadResult, received, disconnected, other_error}
use pollbook_server.Client.{
  CheckinResult, Operation, id_write, id_read, checkin_write, size_read, response_read,
  ticket_write, ticket_read, PollbookClient, ClientAmbient, set_value, set_promise, start, send,
  extract_size,
}
use pollbook_server.Client.Requests.{
  id_written, id_message_read, handle_id_response, start_checkin_request_write, checkin_written,
  size_message_read, start_checkin_response_read, response_message_read, handle_checkin_response,
  report_response,
}
use pollbook_server.Client.Tickets.{
  ticket_written, ticket_response_read, report_ticket, is_undefined,
}

-- How the operation in flight ends: what it wrote, or what it read.
pub record Completion : Type 0 where
  pub wrote : Bool
  pub read : ReadResult

module _ (x : External) (a : ClientAmbient) where
  -- The completion handler of an operation.
  unfoldable pub handle : Operation → Completion → PollbookClient → Run PollbookClient
  handle id_write e c = id_written x a e.wrote c
  handle id_read e c = id_message_read x a e.read c
  handle checkin_write e c = checkin_written x a e.wrote c
  handle size_read e c = size_message_read x a e.read c
  handle response_read e c = response_message_read x a e.read c
  handle ticket_write e c = ticket_written x a e.wrote c
  handle ticket_read e c = ticket_response_read x a e.read c

  -- The operation that was started last completes. There is one at most, since the caller waits
  -- for the answer to a request before the next one.
  unfoldable pub complete : Completion → List Operation → PollbookClient → Run PollbookClient
  unfolding handle
  complete e [] c = done c
  complete e (op ∷ ops) c = handle op e (record c { in_flight = ops })

-- How many completions an operation may still be away from the answer.
abbrev pub stages : Operation → ℕ
stages id_write = 5
stages id_read = 4
stages checkin_write = 3
stages size_read = 2
stages response_read = 1
stages ticket_write = 2
stages ticket_read = 1

-- Nothing is in flight, and the promise has its value.
abbrev pub IsAnswered : PollbookClient → Type 0
IsAnswered c = (c.in_flight ≡ []) × ((r : CheckinResult) × (c.current_request_promise ≡ some r))

-- One operation is in flight, within `n` completions of the answer, and the promise has no value.
abbrev pub IsWaiting : ℕ → PollbookClient → Type 0
IsWaiting n c =
    (op : Operation) × (c.in_flight ≡ op ∷ [])
    × (stages op ≤ n)
    × (c.current_request_promise ≡ none)

pub stages-pos : (op : Operation) → stages op ≤ 0 → ⊥
stages-pos id_write h = omega arith
stages-pos id_read h = omega arith
stages-pos checkin_write h = omega arith
stages-pos size_read h = omega arith
stages-pos response_read h = omega arith
stages-pos ticket_write h = omega arith
stages-pos ticket_read h = omega arith

-- The state of a request, `n` completions from its answer at most.
abbrev pub IsInProgress : ℕ → PollbookClient → Type 0
IsInProgress n c = IsAnswered c ⊎ IsWaiting n c

module _ (x : External) (a : ClientAmbient) where
  pub set_value-IsAnswered :
      (success : Bool) (reason : Text) (c : PollbookClient)
      → c.in_flight ≡ []
      → c.current_request_promise ≡ none
      → Ensures IsAnswered (set_value success reason c)
  unfolding set_value set_promise
  set_value-IsAnswered success reason c f p = rw p (f, (_, refl))

  -- Where a handler ends with set_value, or starts one more operation.
  told :
      (n : ℕ) (success : Bool) (reason : Text) (c : PollbookClient)
      → c.in_flight ≡ []
      → c.current_request_promise ≡ none
      → Ensures (IsInProgress n) (set_value success reason c)
  told n success reason c f p =
      Ensures-map IsAnswered (IsInProgress n) _ (λ c' h. inl h)
        (set_value-IsAnswered success reason c f p)

  started :
      (n : ℕ) (op : Operation) (c : PollbookClient)
      → stages op ≤ n
      → c.in_flight ≡ []
      → c.current_request_promise ≡ none
      → IsInProgress n (start op c)
  unfolding start
  started n op c le f p = inr (op, ap (λ ops. op ∷ ops) f, le, p)

  id_response-IsInProgress :
      (v : VerifiedVoterId) (c : PollbookClient)
      → c.in_flight ≡ []
      → c.current_request_promise ≡ none
      → Ensures (IsInProgress 3) (handle_id_response x a v c)
  unfolding handle_id_response start_checkin_request_write send start
  id_response-IsInProgress v c f p =
      Ensures-bind (IsInProgress 3) (or_throw c.id_service_verifier) _ λ verifier _.
        Ensures-bind (IsInProgress 3) (verify_text x _ v.id_service_signature verifier) _ λ ok _.
          Ensures-if (IsInProgress 3) ok _ _
            (λ _.
              Ensures-bind (IsInProgress 3) (sign_text x _ c.private_key_signer) _ λ signature _.
                inr (checkin_write, ap (λ ops. checkin_write ∷ ops) f, omega arith, p))
            (λ _. told 3 false _ c f p)

  report-IsInProgress :
      (verified approved : Bool) (c : PollbookClient)
      → c.in_flight ≡ []
      → c.current_request_promise ≡ none
      → Ensures (IsInProgress 0) (report_response x a verified approved c)
  unfolding report_response
  report-IsInProgress false approved c f p = told 0 false _ c f p
  report-IsInProgress true true c f p = told 0 true _ c f p
  report-IsInProgress true false c f p = told 0 false _ c f p

  ticket-IsInProgress :
      (r : Run CheckinResult) (c : PollbookClient)
      → c.in_flight ≡ []
      → c.current_request_promise ≡ none
      → Ensures (IsInProgress 0) (report_ticket x a r c)
  unfolding report_ticket
  ticket-IsInProgress (done r) c f p = told 0 r.success _ c f p
  ticket-IsInProgress throws c f p = told 0 false _ c f p

  pub id_written-IsInProgress :
      (wrote : Bool) (c : PollbookClient)
      → c.in_flight ≡ []
      → c.current_request_promise ≡ none
      → Ensures (IsInProgress 4) (id_written x a wrote c)
  unfolding id_written
  id_written-IsInProgress true c f p = started 4 id_read c (omega arith) f p
  id_written-IsInProgress false c f p = told 4 false _ c f p

  pub id_read-IsInProgress :
      (r : ReadResult) (c : PollbookClient)
      → c.in_flight ≡ []
      → c.current_request_promise ≡ none
      → Ensures (IsInProgress 3) (id_message_read x a r c)
  unfolding id_message_read
  id_read-IsInProgress (received bytes) c f p =
      Ensures-bind (IsInProgress 3) (or_throw (x.parse bytes)) _ λ json _.
        Ensures-bind (IsInProgress 3) (verified_voter_id_from_json x json) _
          λ v _. id_response-IsInProgress v c f p
  id_read-IsInProgress disconnected c f p = told 3 false _ c f p
  id_read-IsInProgress other_error c f p = told 3 false _ c f p

  pub checkin_written-IsInProgress :
      (wrote : Bool) (c : PollbookClient)
      → c.in_flight ≡ []
      → c.current_request_promise ≡ none
      → Ensures (IsInProgress 2) (checkin_written x a wrote c)
  unfolding checkin_written
  checkin_written-IsInProgress true c f p = started 2 size_read c (omega arith) f p
  checkin_written-IsInProgress false c f p = told 2 false _ c f p

  pub size_read-IsInProgress :
      (r : ReadResult) (c : PollbookClient)
      → c.in_flight ≡ []
      → c.current_request_promise ≡ none
      → Ensures (IsInProgress 1) (size_message_read x a r c)
  unfolding size_message_read start_checkin_response_read
  size_read-IsInProgress (received bytes) c f p =
      Ensures-if (IsInProgress 1) (a.can_allocate (extract_size bytes)) _ _
        (λ _. started 1 response_read c (omega arith) f p) (λ _. tt)
  size_read-IsInProgress disconnected c f p = told 1 false _ c f p
  size_read-IsInProgress other_error c f p = told 1 false _ c f p

  pub response_read-IsInProgress :
      (r : ReadResult) (c : PollbookClient)
      → c.in_flight ≡ []
      → c.current_request_promise ≡ none
      → Ensures (IsInProgress 0) (response_message_read x a r c)
  unfolding response_message_read handle_checkin_response
  response_read-IsInProgress (received bytes) c f p =
      let P : PollbookClient → Type 0 = IsInProgress 0 in
      Ensures-bind P (or_throw (x.parse bytes)) _ λ json _.
        Ensures-bind P (checkin_response_from_json x json) _ λ response _.
          Ensures-bind P (or_throw c.checkin_service_verifier) _ λ verifier _.
            Ensures-bind P (verify_text x _ response.checkin_service_signature verifier) _
              λ verified _. report-IsInProgress verified response.body.approved c f p
  response_read-IsInProgress disconnected c f p = told 0 false _ c f p
  response_read-IsInProgress other_error c f p = told 0 false _ c f p

  pub ticket_written-IsInProgress :
      (wrote : Bool) (c : PollbookClient)
      → c.in_flight ≡ []
      → c.current_request_promise ≡ none
      → Ensures (IsInProgress 1) (ticket_written x a wrote c)
  unfolding ticket_written
  ticket_written-IsInProgress true c f p = started 1 ticket_read c (omega arith) f p
  ticket_written-IsInProgress false c f p = told 1 false _ c f p

  pub ticket_read-IsInProgress :
      (r : ReadResult) (c : PollbookClient)
      → c.in_flight ≡ []
      → c.current_request_promise ≡ none
      → Ensures (IsInProgress 0) (ticket_response_read x a r c)
  unfolding ticket_response_read
  ticket_read-IsInProgress (received bytes) c f p =
      Ensures-if (IsInProgress 0) (is_undefined x a (x.parse bytes)) _ _ (λ _. tt)
        (λ _. ticket-IsInProgress _ c f p)
  ticket_read-IsInProgress disconnected c f p = told 0 false _ c f p
  ticket_read-IsInProgress other_error c f p = told 0 false _ c f p
