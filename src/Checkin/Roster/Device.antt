-- ===== src/Checkin/Roster/Device.antt =====
-- The members clients and trusted_clients across CheckinService::handle_trusted_client.
use pollbook_server.Prelude.{
  refl, ◌∙◌, ℕ, Option, none, some, arith, ◌==◌, nat_eq, text_eq, Option-cases, inl, inr, Text,
}
use pollbook_server.Map.{lookup}
use pollbook_server.Run.{
  Run, done, throws, or_throw, Ensures, Ensures-bind, Ensures-if, Ensures-map, Ensures-eq,
}
use pollbook_server.Text.{to_string}
use pollbook_server.Freshness.{is_stale}
use pollbook_server.External.{External}
use pollbook_server.Signature.{sign_text, verify_text}
use pollbook_server.Messages.Ticket.{TicketRequest, TicketResponseBody, ticket_request_from_json}
use pollbook_server.Checkin.State.{
  VoterStatus, eligible, pending, checked_in, Timer, Service, Settings, Ambient, Endpoint, emit,
  fault, id_of, touch_id, ensure_verifier,
}
use pollbook_server.Checkin.Files.{VoterInfo, find_voter, read_from_csv}
use pollbook_server.Checkin.Tickets.{
  TimerCheck, no_timer, outside_window, inside_window, take, take_timer, send_ticket_response,
  confirm, grant, deny, report_used, settle, redeem, authenticate, with_ticket,
  handle_ticket_request, read_ticket_request, handle_trusted_client,
}
use pollbook_server.Checkin.Roster.Kiosk.{Holds, ensure_verifier-Holds}

read_from_csv-Holds : (a : Ambient) (s : Service) → Holds s (read_from_csv a s)
unfolding read_from_csv
read_from_csv-Holds a s = ground arith

module _ (x : External) (st : Settings) (a : Ambient) where
  send-Holds :
      (ip : Endpoint) (body : TicketResponseBody) (s : Service)
      → Ensures (Holds s) (send_ticket_response x st a ip body s)
  unfolding send_ticket_response emit
  send-Holds ip body s = Ensures-bind (Holds s) (sign_text x _ s.signer) _ λ signature _. refl

  confirm-Holds :
      (v : ℕ) (status : Option VoterStatus) (s : Service) → Holds s (confirm x st a v status s)
  unfolding confirm
  confirm-Holds v (some eligible) s = refl
  confirm-Holds v (some pending) s = refl
  confirm-Holds v (some checked_in) s = refl
  confirm-Holds v none s = refl

  report_used-Holds :
      (id : ℕ) (check : TimerCheck) (s : Service) → Holds s (report_used x st a id check s)
  unfolding report_used fault
  report_used-Holds id no_timer s = refl
  report_used-Holds id outside_window s = refl
  report_used-Holds id inside_window s = refl

  grant-Holds :
      (ip : Endpoint) (r : TicketRequest) (v : ℕ) (info : VoterInfo) (secret : Text) (s : Service)
      → Ensures (Holds s) (grant x st a ip r v info secret s)
  unfolding grant emit
  grant-Holds ip r v info secret s =
      Ensures-map (Holds (confirm x st a v (lookup v s.voter_status_table) s)) (Holds s) _
        (λ s' h. h ∙ confirm-Holds v _ s) (send-Holds ip _ _)

  deny-Holds :
      (ip : Endpoint) (id : ℕ) (r : TicketRequest) (v : ℕ) (info : VoterInfo) (check : TimerCheck)
      (s : Service)
      → Ensures (Holds s) (deny x st a ip id r v info check s)
  unfolding deny fault
  deny-Holds ip id r v info check s =
      Ensures-bind (Holds s) (send_ticket_response x st a ip _ s) _
        λ s' h. report_used-Holds id check s' ∙ Ensures-eq (Holds s) _ s' h (send-Holds ip _ s)

  settle-Holds :
      (ip : Endpoint) (id : ℕ) (r : TicketRequest) (v : ℕ) (info : VoterInfo) (secret : Text)
      (s : Service) (check : TimerCheck)
      → Ensures (Holds s) (settle x st a ip id r v info secret (s, check))
  unfolding settle
  settle-Holds ip id r v info secret s inside_window = grant-Holds ip r v info secret s
  settle-Holds ip id r v info secret s outside_window = deny-Holds ip id r v info outside_window s
  settle-Holds ip id r v info secret s no_timer = deny-Holds ip id r v info no_timer s

  take-Holds :
      (id v : ℕ) (timer : Option Timer) (s : Service) → Holds s (take x st a id v timer s).0
  unfolding take fault
  take-Holds id v none s = refl
  take-Holds id v (some t) s = ground arith

  redeem-Holds :
      (ip : Endpoint) (id : ℕ) (r : TicketRequest) (v : ℕ) (secret : Text) (s : Service)
      → Ensures (Holds s) (redeem x st a ip id r v secret s)
  unfolding redeem take_timer
  redeem-Holds ip id r v secret s =
      let taken = take x st a id v (lookup v s.request_timers) s in
      Ensures-if (Holds s) (to_string r.body.pin == (find_voter a.voter_list v).pin) _ _
        (λ _.
          Ensures-map (Holds taken.0) (Holds s) _ (λ s' h. h ∙ take-Holds id v _ s)
            (settle-Holds ip id r v (find_voter a.voter_list v) secret taken.0 taken.1))
        (λ _. send-Holds ip _ s)

  authenticate-Holds :
      (ip : Endpoint) (id : ℕ) (r : TicketRequest) (v : ℕ) (secret : Text) (s : Service)
      → Ensures (Holds s) (authenticate x st a ip id r v secret s)
  unfolding authenticate fault
  authenticate-Holds ip id r v secret s =
      Ensures-bind (Holds s) (or_throw (lookup r.body.client_id s.client_verifiers)) _ λ verifier _.
        Ensures-bind (Holds s) (verify_text x _ r.signature verifier) _ λ ok _.
          Ensures-if (Holds s) ok _ _
            (λ _.
              Ensures-if (Holds s) (is_stale a.now r.body.timestamp st.request_freshness_interval) _
                _ (λ _. refl) (λ _. redeem-Holds ip id r v secret s))
            (λ _. refl)

  with_ticket-Holds :
      (ip : Endpoint) (id : ℕ) (r : TicketRequest) (v : ℕ) (secret : Text) (s : Service)
      → Ensures (Holds s) (with_ticket x st a ip id r v secret s)
  unfolding with_ticket fault
  with_ticket-Holds ip id r v secret s =
      elim (Option-cases (ensure_verifier a r.body.client_id s)) [
        | inl e ↦ rw (e, with_ticket, Ensures) refl
        | inr (s1, e) ↦
            rw (e, with_ticket, Ensures)
              (Ensures-map (Holds s1) (Holds s) _
                (λ s' h. h ∙ ensure_verifier-Holds a r.body.client_id s s1 e)
                (authenticate-Holds ip id r v secret s1))
      ]

  handle_ticket_request-Holds :
      (ip : Endpoint) (r : TicketRequest) (s : Service)
      → Ensures (Holds s) (handle_ticket_request x st a ip r s)
  unfolding handle_ticket_request fault touch_id
  handle_ticket_request-Holds ip r s =
      Ensures-if (Holds s) (r.body.client_id == id_of ip s) _ _
        (λ _. elim (Option-cases (lookup r.body.ticket s.client_tickets_map)) [
          | inl e ↦ rw e refl
          | inr ((v, secret), e) ↦
              rw e (with_ticket-Holds ip (id_of ip s) r v secret (touch_id ip s))
        ])
        (λ _. refl)

  read_ticket_request-Holds :
      (ip : Endpoint) (request : Run TicketRequest) (s : Service)
      → Ensures (Holds s) (read_ticket_request x st a ip request s)
  unfolding read_ticket_request fault
  read_ticket_request-Holds ip throws s = refl
  read_ticket_request-Holds ip (done r) s = handle_ticket_request-Holds ip r s

  pub handle_trusted_client-Holds :
      (message : Text) (ip : Endpoint) (s : Service)
      → Ensures (Holds s) (handle_trusted_client x st a message ip s)
  unfolding handle_trusted_client
  handle_trusted_client-Holds message ip s = elim (Option-cases (x.parse message)) [
    | inl e ↦ rw (e, handle_trusted_client, Ensures) (read_from_csv-Holds a s)
    | inr (json, e) ↦
        rw (e, handle_trusted_client, Ensures)
          (Ensures-map (Holds (read_from_csv a s)) (Holds s) _ (λ s' h. h ∙ read_from_csv-Holds a s)
            (read_ticket_request-Holds ip (ticket_request_from_json x json) (read_from_csv a s)))
  ]
