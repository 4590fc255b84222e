-- ===== src/Client/Answers.antt =====
-- What PollbookClient reports as a success, in a run of the completion handlers.
use pollbook_server.Prelude.{
  ◌≡◌, refl, ◌⊎◌, inl, inr, Bool, true, false, Option, none, some, List, [], ◌∷◌, Text,
}
use pollbook_server.Run.{done, Ensures, Ensures-bind, Ensures-eq}
use pollbook_server.External.{External}
use pollbook_server.Signature.{Verifier}
use pollbook_server.Checkin.Network.{received}
use pollbook_server.Client.{
  CheckinResult, Operation, id_write, id_read, checkin_write, size_read, response_read,
  ticket_write, ticket_read, PollbookClient, ClientAmbient, start,
}
use pollbook_server.Client.Requests.{id_written, checkin_written}
use pollbook_server.Client.Tickets.{ticket_written}
use pollbook_server.Client.Protocol.{Completion, handle, complete}
use pollbook_server.Client.Progress.{drive}
use pollbook_server.Client.Backing.{
  IsApproval, Backed, Licensed, told, id_read-Backed, size_read-Backed, response_read-Backed,
  ticket_read-Backed,
}

-- One of the completions is a read of these bytes.
abbrev pub IsRead : Text → List (ClientAmbient × Completion) → Type 0
IsRead bytes [] = ⊥
IsRead bytes ((a, e) ∷ completions) = (e.read ≡ received bytes) ⊎ IsRead bytes completions

module _ (x : External) (a : ClientAmbient) (A : Type 0) (v : Option Verifier) where
  handle-Backed :
      (op : Operation) (e : Completion) (c : PollbookClient)
      → Backed A v c
      → Licensed x a A v e.read
      → Ensures (Backed A v) (handle x a op e c)
  unfolding handle id_written checkin_written ticket_written start
  handle-Backed id_write e c h f = written-Backed e.wrote
    where
      written-Backed : (wrote : Bool) → Ensures (Backed A v) (id_written x a wrote c)
      written-Backed true = h
      written-Backed false = told A v _ c h
  handle-Backed id_read e c h f = id_read-Backed x a A v e.read c h
  handle-Backed checkin_write e c h f = written-Backed e.wrote
    where
      written-Backed : (wrote : Bool) → Ensures (Backed A v) (checkin_written x a wrote c)
      written-Backed true = h
      written-Backed false = told A v _ c h
  handle-Backed size_read e c h f = size_read-Backed x a A v e.read c h
  handle-Backed response_read e c h f = response_read-Backed x a A v e.read c h f
  handle-Backed ticket_write e c h f = written-Backed e.wrote
    where
      written-Backed : (wrote : Bool) → Ensures (Backed A v) (ticket_written x a wrote c)
      written-Backed true = h
      written-Backed false = told A v _ c h
  handle-Backed ticket_read e c h f = ticket_read-Backed x a A v e.read c h f

  complete-Backed :
      (e : Completion) (ops : List Operation) (c : PollbookClient)
      → Backed A v c
      → Licensed x a A v e.read
      → Ensures (Backed A v) (complete x a e ops c)
  unfolding complete
  complete-Backed e [] c h f = h
  complete-Backed e (op ∷ ops) c h f = handle-Backed op e (record c { in_flight = ops }) h f

module _ (x : External) (v : Option Verifier) where
  -- What backs a success in a run of these completions.
  abbrev pub Shown : List (ClientAmbient × Completion) → Type 0
  Shown completions =
      (bytes : Text) × (verifier : Verifier) × IsRead bytes completions
      × (v ≡ some verifier)
      × IsApproval x verifier bytes

  drive-Backed :
      (A : Type 0) (completions : List (ClientAmbient × Completion)) (c : PollbookClient)
      → Backed A v c
      → (Shown completions → A)
      → Ensures (Backed A v) (drive x completions c)
  unfolding drive
  drive-Backed A [] c h f = h
  drive-Backed A ((a, e) ∷ completions) c h f =
      Ensures-bind (Backed A v) (complete x a e c.in_flight c) _ λ c' completes.
        drive-Backed A completions c'
          (Ensures-eq (Backed A v) _ c' completes (
            complete-Backed x a A v e c.in_flight c h (λ bytes verifier reads known approves.
              f (bytes, verifier, inl reads, known, approves))))
          (λ (bytes, verifier, is_read, known, approves).
            f (bytes, verifier, inr is_read, known, approves))

module _ (x : External) where
  -- A success that a run of the client reports for the request in flight, of whichever kind, is
  -- backed by bytes that the run has read: an approval, with a signature that the key of the
  -- check-in service, as it was at the handshake, verifies.
  pub success_sound :
      (completions : List (ClientAmbient × Completion)) (c c' : PollbookClient) (r : CheckinResult)
      → c.current_request_promise ≡ none
      → drive x completions c ≡ done c'
      → c'.current_request_promise ≡ some r
      → r.success ≡ true
      → Shown x c.checkin_service_verifier completions
  success_sound completions c c' r fresh drives answers succeeds =
      let (_, backed) = Ensures-eq _ _ c' drives (
        drive-Backed x c.checkin_service_verifier (Shown x c.checkin_service_verifier completions)
          completions c (refl, λ q p s. cc) (λ h. h)) in
      backed r answers succeeds
