-- ===== src/Client/Redeeming.antt =====
-- PollbookClient::verify_ticket and the completion handlers that it leads to, in a run.
use pollbook_server.Prelude.{
  ◌≡◌, refl, ap, ◌∙◌, codes, ℕ, Bool, true, false, none, List, [], ◌∷◌, Text, codes,
}
use pollbook_server.Run.{Run, done, throws, ◌>>=◌, Ensures, Ensures-bind, Ensures-if, Ensures-eq}
use pollbook_server.External.{External}
use pollbook_server.Signature.{sign_text}
use pollbook_server.Checkin.Network.{ReadResult, received, disconnected, other_error}
use pollbook_server.Client.{
  CheckinResult, Operation, ticket_write, PollbookClient, ClientAmbient, set_value, set_promise,
  start, send,
}
use pollbook_server.Client.Tickets.{
  verify_ticket, ticket_written, ticket_response_read, report_ticket, read_ticket_response,
  is_undefined,
}
use pollbook_server.Client.Protocol.{Completion, handle, complete, IsAnswered}
use pollbook_server.Client.Progress.{drive}

module _ (x : External) where
  complete-idle :
      (a : ClientAmbient) (e : Completion) (ops : List Operation) (c : PollbookClient)
      → ops ≡ []
      → complete x a e ops c ≡ done c
  unfolding complete
  complete-idle a e [] c f = refl
  complete-idle a e (op ∷ ops) c f = cc

  drive-idle :
      (completions : List (ClientAmbient × Completion)) (c : PollbookClient)
      → c.in_flight ≡ []
      → drive x completions c ≡ done c
  unfolding drive
  drive-idle [] c f = refl
  drive-idle ((a, e) ∷ completions) c f =
      rw (complete-idle a e c.in_flight c f) (drive-idle completions c f)

  -- The promise is set, and nothing is in flight.
  abbrev Settles : Run PollbookClient → Type 0
  Settles m = (c : PollbookClient) × (m ≡ done c) × IsAnswered c

  set_value-Settles :
      (success : Bool) (reason : Text) (c : PollbookClient)
      → c.in_flight ≡ []
      → c.current_request_promise ≡ none
      → Settles (set_value success reason c)
  unfolding set_value set_promise
  set_value-Settles success reason c f p = rw p (_, refl, (f, (_, refl)))

  -- The bytes are no JSON object that lacks a key of a response.
  abbrev pub IsDefined : ClientAmbient → ReadResult → Type 0
  IsDefined a (received bytes) = is_undefined x a (x.parse bytes) ≡ false
  IsDefined a _ = Unit

  ticket_read-Settles :
      (a : ClientAmbient) (r : ReadResult) (c : PollbookClient)
      → IsDefined a r
      → c.in_flight ≡ []
      → c.current_request_promise ≡ none
      → Settles (ticket_response_read x a r c)
  unfolding ticket_response_read report_ticket
  ticket_read-Settles a (received bytes) c d f p =
      rw d (report-Settles (read_ticket_response x a bytes c))
    where
      report-Settles : (m : Run CheckinResult) → Settles (report_ticket x a m c)
      report-Settles (done r) = set_value-Settles r.success r.failure_reason c f p
      report-Settles throws = set_value-Settles false _ c f p
  ticket_read-Settles a disconnected c d f p = set_value-Settles false _ c f p
  ticket_read-Settles a other_error c d f p = set_value-Settles false _ c f p

  -- From the state with the request of `verify_ticket` in flight.
  written-Settles :
      (a1 a2 : ClientAmbient) (wrote : Bool) (e : Completion) (c : PollbookClient)
      (completions : List (ClientAmbient × Completion))
      → IsDefined a2 e.read
      → c.in_flight ≡ []
      → c.current_request_promise ≡ none
      → Settles (ticket_written x a1 wrote c >>= drive x ((a2, e) ∷ completions))
  unfolding drive complete handle ticket_written start
  written-Settles a1 a2 true e c completions d f p =
      let (c2, reads, answered) =
        ticket_read-Settles a2 e.read (record c { in_flight = [] }) d refl p in
      (c2, rw (f, complete, reads) (drive-idle completions c2 answered.0), answered)
  written-Settles a1 a2 false e c completions d f p =
      let (c2, tells, answered) =
        set_value-Settles false
          (codes
            "Network error: I/O error when sending a verify_ticket request to the check-in service")
          c f p in
      (c2, rw tells (drive-idle ((a2, e) ∷ completions) c2 answered.0), answered)

  requested :
      (ticket : Text) (pin : ℕ) (a : ClientAmbient) (c : PollbookClient)
      → Ensures
          (λ c1. (c1.in_flight ≡ ticket_write ∷ c.in_flight) × (c1.current_request_promise ≡ none))
          (verify_ticket x a ticket pin c)
  unfolding verify_ticket start send
  requested ticket pin a c =
      let P : PollbookClient → Type 0 =
        λ c1. (c1.in_flight ≡ ticket_write ∷ c.in_flight) × (c1.current_request_promise ≡ none) in
      Ensures-if P c.checkin_connected _ _
        (λ _. Ensures-bind P (sign_text x _ c.private_key_signer) _ λ signature _. (refl, refl))
        (λ _. tt)

  complete-one :
      (a : ClientAmbient) (e : Completion) (op : Operation) (ops : List Operation)
      (c : PollbookClient)
      → ops ≡ op ∷ []
      → complete x a e ops c ≡ handle x a op e (record c { in_flight = [] })
  unfolding complete
  complete-one a e op ops c f = rw (f, complete)

  -- A ticket that is sent while nothing is in flight is answered after two completions, whatever
  -- the service sends and whichever of the two fails, unless it sends a JSON object that lacks a key
  -- of a response, which is undefined: no handler throws, then or later, nothing is in flight at the
  -- end, and the promise has a value.
  pub ticket_always-IsAnswered :
      (ticket : Text) (pin : ℕ) (a a1 a2 : ClientAmbient) (e1 e2 : Completion)
      (c c1 : PollbookClient) (completions : List (ClientAmbient × Completion))
      → IsDefined a2 e2.read
      → c.in_flight ≡ []
      → verify_ticket x a ticket pin c ≡ done c1
      → (c2 : PollbookClient) × (drive x ((a1, e1) ∷ (a2, e2) ∷ completions) c1 ≡ done c2)
        × IsAnswered c2
  unfolding drive handle
  ticket_always-IsAnswered ticket pin a a1 a2 e1 e2 c c1 completions d f sends =
      let (f1, p1) = Ensures-eq _ _ c1 sends (requested ticket pin a c) in
      rw (complete-one a1 e1 ticket_write c1.in_flight c1 (f1 ∙ ap (λ ops. ticket_write ∷ ops) f))
        (written-Settles a1 a2 e1.wrote e2 (record c1 { in_flight = [] }) completions d refl p1)
