-- ===== src/Checkin/Refines/Phase1.antt =====
-- CheckinService::handle_checkin_request against the abstract machine of Book.
use pollbook_server.Prelude.{
  ◌≡◌, refl, sym, ◌∙◌, ℕ, Bool, true, false, Option, none, some, arith, ◌==◌, nat_eq, text_eq,
  Option-cases, inl, inr, Text, subst,
}
use pollbook_server.Map.{lookup}
use pollbook_server.Run.{or_throw, Ensures, Ensures-bind, Ensures-if, Ensures-map, Ensures-eq}
use pollbook_server.External.{External}
use pollbook_server.Signature.{sign_text, verify_text}
use pollbook_server.Messages.Checkin.{CheckinRequest, CheckinResponseBody}
use pollbook_server.Checkin.State.{
  VoterStatus, eligible, pending, checked_in, Service, Settings, Ambient, Endpoint, emit, fault,
  id_of, touch_id, ensure_verifier,
}
use pollbook_server.Checkin.Files.{generate_secret, write_to_csv}
use pollbook_server.Checkin.Requests.{
  validate_client_request, mark_pending, send_checkin_response, answer, handle_checkin_request,
  issue_ticket, validate_claims, validate_id_signature, mark, consider, checkin_identified,
  start_timer,
}
use pollbook_server.Checkin.Book.{book, Move, kiosk, idle, begin}

-- The book is as it was in `s`.
abbrev pub Keeps : Service → Service → Type 0
Keeps s s' = book s' ≡ book s

pub ensure_verifier-Keeps :
    (a : Ambient) (id : ℕ) (s s' : Service) → ensure_verifier a id s ≡ some s' → Keeps s s'
unfolding ensure_verifier
ensure_verifier-Keeps a id s s' h = ground arith

write_to_csv-Keeps :
    (a : Ambient) (ticket secret : Text) (id : ℕ) (s : Service)
    → Keeps s (write_to_csv a ticket secret id s)
unfolding write_to_csv
write_to_csv-Keeps a ticket secret id s = ground arith

module _ (x : External) (st : Settings) (a : Ambient) where
  send-Keeps :
      (ip : Endpoint) (body : CheckinResponseBody) (s : Service)
      → Ensures (Keeps s) (send_checkin_response x st a ip body s)
  unfolding send_checkin_response emit
  send-Keeps ip body s =
      Ensures-bind (Keeps s) (sign_text x _ s.signer) _
        λ signature _. Ensures-if (Keeps s) a.write_succeeds _ _ (λ _. refl) (λ _. tt)

  issue_ticket-Keeps :
      (ip : Endpoint) (r : CheckinRequest) (s : Service)
      → Ensures (Keeps s) (issue_ticket x st a ip r s)
  unfolding issue_ticket
  issue_ticket-Keeps ip r s =
      Ensures-bind (Keeps s) (generate_secret a.ticket_bytes 16) _ λ ticket _.
        Ensures-bind (Keeps s) (generate_secret a.secret_bytes 32) _ λ secret _.
          Ensures-map _ (Keeps s) (send_checkin_response x st a ip _ _)
            (λ s' h. h ∙ write_to_csv-Keeps a ticket secret r.body.voter_unique_id _)
            (send-Keeps ip _ _)

  pub answer-Keeps :
      (ip : Endpoint) (r : CheckinRequest) (accept : Bool) (s : Service)
      → Ensures (Keeps s) (answer x st a ip r accept s)
  unfolding answer
  answer-Keeps ip r true s = issue_ticket-Keeps ip r s
  answer-Keeps ip r false s = send-Keeps ip _ s

  validate_claims-Keeps :
      (r : CheckinRequest) (s : Service) → Keeps s (validate_claims x st a r s).0
  unfolding validate_claims fault
  validate_claims-Keeps r s = ground arith

  validate_id_signature-Keeps :
      (r : CheckinRequest) (s : Service)
      → Ensures (λ p. Keeps s p.0) (validate_id_signature x st a r s)
  unfolding validate_id_signature
  validate_id_signature-Keeps r s =
      Ensures-bind (λ p. Keeps s p.0) (verify_text x _ _ s.id_service_verifier) _
        λ ok _. Ensures-if (λ p. Keeps s p.0) ok _ _ (λ _. validate_claims-Keeps r s) (λ _. refl)

  pub validate-Keeps :
      (r : CheckinRequest) (s : Service)
      → Ensures (λ p. Keeps s p.0) (validate_client_request x st a r s)
  unfolding validate_client_request fault
  validate-Keeps r s =
      Ensures-bind (λ p. Keeps s p.0) (or_throw (lookup r.body.client_id_num s.client_verifiers)) _
        λ verifier _.
          Ensures-bind (λ p. Keeps s p.0) (verify_text x _ r.client_signature verifier) _
            λ ok _.
              Ensures-if (λ p. Keeps s p.0) ok _ _ (λ _. validate_id_signature-Keeps r s)
                (λ _. refl)

  mark-Move :
      (v : ℕ) (status : Option VoterStatus) (s : Service)
      → lookup v s.voter_status_table ≡ status
      → Move (book s) (book (mark x st a v status s).0) kiosk
  unfolding mark start_timer
  mark-Move v (some eligible) s e = begin v _ e refl
  mark-Move v (some pending) s e = idle refl
  mark-Move v (some checked_in) s e = idle refl
  mark-Move v none s e = idle refl

  pub mark_pending-Move :
      (v : ℕ) (s : Service) → Move (book s) (book (mark_pending x st a v s).0) kiosk
  unfolding mark_pending
  mark_pending-Move v s = mark-Move v _ s refl

  consider-Move :
      (ip : Endpoint) (r : CheckinRequest) (s : Service) (ok : Bool)
      → Ensures (λ s'. Move (book s) (book s') kiosk) (consider x st a ip r (s, ok))
  unfolding consider
  consider-Move ip r s true =
      let marked = mark_pending x st a r.body.voter_unique_id s in
      Ensures-map (Keeps marked.0) (λ s'. Move (book s) (book s') kiosk) _
        (λ s' h.
          subst (λ b. Move (book s) b kiosk) (sym h) (mark_pending-Move r.body.voter_unique_id s))
        (answer-Keeps ip r marked.1 marked.0)
  consider-Move ip r s false =
      Ensures-map (Keeps s) (λ s'. Move (book s) (book s') kiosk) _ (λ s' h. idle h)
        (answer-Keeps ip r false s)

  checkin_identified-Move :
      (ip : Endpoint) (r : CheckinRequest) (s : Service)
      → Ensures (λ s'. Move (book s) (book s') kiosk) (checkin_identified x st a ip r s)
  unfolding checkin_identified
  checkin_identified-Move ip r s = elim (Option-cases (ensure_verifier a r.body.client_id_num s)) [
    | inl e ↦ rw (e, checkin_identified, Ensures) (idle refl)
    | inr (s1, e) ↦
        rw (e, checkin_identified, Ensures)
          (Ensures-bind (λ s'. Move (book s) (book s') kiosk) (validate_client_request x st a r s1)
            _
            λ p h.
              subst (λ b. Ensures (λ s'. Move b (book s') kiosk) (consider x st a ip r p))
                (Ensures-eq (λ q. Keeps s1 q.0) _ p h (validate-Keeps r s1)
                  ∙ ensure_verifier-Keeps a r.body.client_id_num s s1 e)
                (consider-Move ip r p.0 p.1))
  ]

  pub handle_checkin_request-Move :
      (ip : Endpoint) (r : CheckinRequest) (s : Service)
      → Ensures (λ s'. Move (book s) (book s') kiosk) (handle_checkin_request x st a ip r s)
  unfolding handle_checkin_request touch_id fault
  handle_checkin_request-Move ip r s =
      Ensures-if (λ s'. Move (book s) (book s') kiosk) (r.body.client_id_num == id_of ip s) _ _
        (λ _. checkin_identified-Move ip r (touch_id ip s))
        (λ _.
          Ensures-map (Keeps s) (λ s'. Move (book s) (book s') kiosk) _ (λ s' h. idle h)
            (answer-Keeps ip r false _))
