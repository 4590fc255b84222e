-- ===== src/Checkin/Roster/Kiosk.antt =====
-- The members clients and trusted_clients across CheckinService::handle_checkin_request.
use pollbook_server.Prelude.{
  ◌≡◌, refl, ◌∙◌, ℕ, Bool, true, false, Option, none, some, List, arith, ◌==◌, nat_eq, text_eq,
  Option-cases, inl, inr, Text,
}
use pollbook_server.Map.{Map, lookup}
use pollbook_server.Run.{or_throw, Ensures, Ensures-bind, Ensures-if, Ensures-map, Ensures-eq}
use pollbook_server.External.{External}
use pollbook_server.Signature.{sign_text, verify_text}
use pollbook_server.Messages.Checkin.{CheckinRequest, CheckinResponseBody}
use pollbook_server.Checkin.State.{
  VoterStatus, eligible, pending, checked_in, ClientInfo, Service, Settings, Ambient, Endpoint,
  emit, fault, id_of, touch_id, ensure_verifier,
}
use pollbook_server.Checkin.Files.{generate_secret, write_to_csv}
use pollbook_server.Checkin.Requests.{
  validate_client_request, mark_pending, send_checkin_response, answer, handle_checkin_request,
  issue_ticket, validate_claims, validate_id_signature, mark, consider, checkin_identified,
  start_timer,
}

-- The clients that the service knows, and the list of trusted ones.
abbrev pub roster : Service → Map ℕ ClientInfo × List ℕ
roster s = (s.clients, s.trusted_clients)

abbrev pub Holds : Service → Service → Type 0
Holds s s' = roster s' ≡ roster s

pub ensure_verifier-Holds :
    (a : Ambient) (id : ℕ) (s s' : Service) → ensure_verifier a id s ≡ some s' → Holds s s'
unfolding ensure_verifier
ensure_verifier-Holds a id s s' h = ground arith

write_to_csv-Holds :
    (a : Ambient) (ticket secret : Text) (id : ℕ) (s : Service)
    → Holds s (write_to_csv a ticket secret id s)
unfolding write_to_csv
write_to_csv-Holds a ticket secret id s = ground arith

module _ (x : External) (st : Settings) (a : Ambient) where
  send-Holds :
      (ip : Endpoint) (body : CheckinResponseBody) (s : Service)
      → Ensures (Holds s) (send_checkin_response x st a ip body s)
  unfolding send_checkin_response emit
  send-Holds ip body s =
      Ensures-bind (Holds s) (sign_text x _ s.signer) _
        λ signature _. Ensures-if (Holds s) a.write_succeeds _ _ (λ _. refl) (λ _. tt)

  answer-Holds :
      (ip : Endpoint) (r : CheckinRequest) (accept : Bool) (s : Service)
      → Ensures (Holds s) (answer x st a ip r accept s)
  unfolding answer issue_ticket
  answer-Holds ip r true s =
      Ensures-bind (Holds s) (generate_secret a.ticket_bytes 16) _ λ ticket _.
        Ensures-bind (Holds s) (generate_secret a.secret_bytes 32) _ λ secret _.
          Ensures-map _ (Holds s) (send_checkin_response x st a ip _ _)
            (λ s' h. h ∙ write_to_csv-Holds a ticket secret r.body.voter_unique_id _)
            (send-Holds ip _ _)
  answer-Holds ip r false s = send-Holds ip _ s

  claims-Holds : (r : CheckinRequest) (s : Service) → Holds s (validate_claims x st a r s).0
  unfolding validate_claims fault
  claims-Holds r s = ground arith

  validate-Holds :
      (r : CheckinRequest) (s : Service)
      → Ensures (λ p. Holds s p.0) (validate_client_request x st a r s)
  unfolding validate_client_request validate_id_signature fault
  validate-Holds r s =
      Ensures-bind (λ p. Holds s p.0) (or_throw (lookup r.body.client_id_num s.client_verifiers)) _
        λ verifier _.
          Ensures-bind (λ p. Holds s p.0) (verify_text x _ r.client_signature verifier) _
            λ ok _.
              Ensures-if (λ p. Holds s p.0) ok _ _
                (λ _.
                  Ensures-bind (λ p. Holds s p.0) (verify_text x _ _ s.id_service_verifier) _
                    λ id_ok _.
                      Ensures-if (λ p. Holds s p.0) id_ok _ _ (λ _. claims-Holds r s) (λ _. refl))
                (λ _. refl)

  mark-Holds :
      (v : ℕ) (status : Option VoterStatus) (s : Service) → Holds s (mark x st a v status s).0
  unfolding mark start_timer emit
  mark-Holds v (some eligible) s = refl
  mark-Holds v (some pending) s = refl
  mark-Holds v (some checked_in) s = refl
  mark-Holds v none s = refl

  consider-Holds :
      (ip : Endpoint) (r : CheckinRequest) (s : Service) (ok : Bool)
      → Ensures (Holds s) (consider x st a ip r (s, ok))
  unfolding consider mark_pending
  consider-Holds ip r s true =
      let marked = mark_pending x st a r.body.voter_unique_id s in
      Ensures-map (Holds marked.0) (Holds s) _ (λ s' h. h ∙ mark-Holds r.body.voter_unique_id _ s)
        (answer-Holds ip r marked.1 marked.0)
  consider-Holds ip r s false = answer-Holds ip r false s

  checkin_identified-Holds :
      (ip : Endpoint) (r : CheckinRequest) (s : Service)
      → Ensures (Holds s) (checkin_identified x st a ip r s)
  unfolding checkin_identified
  checkin_identified-Holds ip r s = elim (Option-cases (ensure_verifier a r.body.client_id_num s)) [
    | inl e ↦ rw (e, checkin_identified, Ensures) refl
    | inr (s1, e) ↦
        let k = ensure_verifier-Holds a r.body.client_id_num s s1 e in
        rw (e, checkin_identified, Ensures)
          (Ensures-bind (Holds s) (validate_client_request x st a r s1) _ λ p h.
            Ensures-map (Holds p.0) (Holds s) _
              (λ s' g. g ∙ (Ensures-eq (λ q. Holds s1 q.0) _ p h (validate-Holds r s1) ∙ k))
              (consider-Holds ip r p.0 p.1))
  ]

  pub handle_checkin_request-Holds :
      (ip : Endpoint) (r : CheckinRequest) (s : Service)
      → Ensures (Holds s) (handle_checkin_request x st a ip r s)
  unfolding handle_checkin_request touch_id fault
  handle_checkin_request-Holds ip r s =
      Ensures-if (Holds s) (r.body.client_id_num == id_of ip s) _ _
        (λ _. checkin_identified-Holds ip r (touch_id ip s)) (λ _. answer-Holds ip r false _)
