-- ===== src/Checkin/Refines/Cases.antt =====
-- CheckinService::handle_trusted_client: the ways in which the handling of a ticket request can end.
use pollbook_server.Prelude.{
  ◌≡◌, refl, sym, subst, ◌∙◌, ℕ, true, false, Option, none, some, ◌==◌, nat_eq, text_eq,
  Option-cases, inl, inr, Text, Bool-cases, codes, ap,
}
use pollbook_server.Map.{lookup, erase}
use pollbook_server.Text.{to_string}
use pollbook_server.Freshness.{is_stale}
use pollbook_server.Run.{
  Run, done, or_throw, Ensures, Ensures-bind, Ensures-if, Ensures-map, Ensures-eq, or_throw-eq-done,
}
use pollbook_server.External.{External}
use pollbook_server.Signature.{sign_text, verify_text, Verifier}
use pollbook_server.Messages.Ticket.{TicketRequest, TicketResponseBody, ticket_body_to_json}
use pollbook_server.Checkin.State.{
  Timer, Service, Settings, Ambient, Endpoint, emit, fault, id_of, touch_id, ensure_verifier,
}
use pollbook_server.Checkin.Files.{VoterInfo, find_voter}
use pollbook_server.Checkin.Tickets.{
  TimerCheck, no_timer, outside_window, inside_window, in_window, take, take_timer,
  send_ticket_response, grant, deny, report_used, settle, redeem, authenticate, with_ticket,
  handle_ticket_request,
}
use pollbook_server.Checkin.Refines.Phase1.{Keeps, ensure_verifier-Keeps}

-- Every condition that a ticket request has to meet. `t` is the timer of the voter `v`.
pub record Redeems (x : External) (st : Settings) (a : Ambient) (ip : Endpoint) (r : TicketRequest)
    (s : Service) (v : ℕ) (secret : Text) (t : Timer) : Type 0 where
  -- the device is who its certificate says
  pub named : r.body.client_id ≡ id_of ip s
  -- the ticket was issued, for this voter and with this secret
  pub issued : lookup r.body.ticket s.client_tickets_map ≡ some (v, secret)
  -- the device's key is in memory or can be loaded, and verifies the signature on the body
  pub keyed : Service
  pub has_key : ensure_verifier a r.body.client_id (touch_id ip s) ≡ some keyed
  pub verifier : Verifier
  pub is_verifier : lookup r.body.client_id keyed.client_verifiers ≡ some verifier
  pub signed :
      verify_text x (x.dump (ticket_body_to_json x r.body)) r.signature verifier ≡ done true
  pub fresh : is_stale a.now r.body.timestamp st.request_freshness_interval ≡ false
  pub pin_matches : (to_string r.body.pin == (find_voter a.voter_list v).pin) ≡ true
  -- the voter's check-in was begun, and its time is not over
  pub timer : lookup v s.request_timers ≡ some t
  pub in_time : in_window x st a t ≡ true

module _ (x : External) (st : Settings) (a : Ambient) where
  pub send-Keeps :
      (ip : Endpoint) (body : TicketResponseBody) (s : Service)
      → Ensures (Keeps s) (send_ticket_response x st a ip body s)
  unfolding send_ticket_response emit
  send-Keeps ip body s = Ensures-bind (Keeps s) (sign_text x _ s.signer) _ λ signature _. refl

  report_used-Keeps :
      (id : ℕ) (check : TimerCheck) (s : Service) → Keeps s (report_used x st a id check s)
  unfolding report_used fault
  report_used-Keeps id no_timer s = refl
  report_used-Keeps id outside_window s = refl
  report_used-Keeps id inside_window s = refl

  deny-Keeps :
      (ip : Endpoint) (id : ℕ) (r : TicketRequest) (v : ℕ) (info : VoterInfo) (check : TimerCheck)
      (s : Service)
      → Ensures (Keeps s) (deny x st a ip id r v info check s)
  unfolding deny fault
  deny-Keeps ip id r v info check s =
      Ensures-bind (Keeps s) (send_ticket_response x st a ip _ s) _
        λ s' h. report_used-Keeps id check s' ∙ Ensures-eq (Keeps s) _ s' h (send-Keeps ip _ s)

  pub take_inside :
      (id v : ℕ) (t : Timer) (s : Service)
      → in_window x st a t ≡ true
      → take x st a id v (some t) s
        ≡ (record s { request_timers = erase v s.request_timers }, inside_window)
  unfolding take
  take_inside id v t s e = rw e

  take_outside :
      (id v : ℕ) (t : Timer) (s : Service)
      → in_window x st a t ≡ false
      → take x st a id v (some t) s
        ≡ (fault a id (codes "Request outside valid time window") s, outside_window)
  unfolding take
  take_outside id v t s e = rw e

module _ (x : External) (st : Settings) (a : Ambient) (ip : Endpoint) (r : TicketRequest)
    (s : Service) (P : Service → Type 0) (keep : (s' : Service) → Keeps s s' → P s')
    (granted : (v : ℕ) (secret : Text) (t : Timer) (s1 : Service)
      → Redeems x st a ip r s v secret t
      → Keeps s s1
      → Ensures P (
          grant x st a ip r v
            (find_voter a.voter_list v)
            secret
            (record s1 { request_timers = erase v s1.request_timers }))) where
  kept : (m : Run Service) (s1 : Service) → Keeps s s1 → Ensures (Keeps s1) m → Ensures P m
  kept m s1 k = Ensures-map (Keeps s1) P m (λ s' h. keep s' (h ∙ k))

  settle_cases :
      (id v : ℕ) (secret : Text) (timer : Option Timer) (s1 : Service)
      → Keeps s s1
      → lookup v s1.request_timers ≡ timer
      → ((t : Timer)
          → timer ≡ some t
          → in_window x st a t ≡ true
          → Redeems x st a ip r s v secret t)
      → Ensures P
          (settle x st a ip id r v (find_voter a.voter_list v) secret (take x st a id v timer s1))
  unfolding settle take fault
  settle_cases id v secret none s1 k e redeems =
      kept _ s1 k (deny-Keeps x st a ip id r v (find_voter a.voter_list v) no_timer _)
  settle_cases id v secret (some t) s1 k e redeems =
      let goal : Service × TimerCheck → Type 0 =
        λ p. Ensures P (settle x st a ip id r v (find_voter a.voter_list v) secret p) in
      elim (Bool-cases (in_window x st a t)) [
        | inl inside ↦
            subst goal (sym (take_inside x st a id v t s1 inside))
              (granted v secret t s1 (redeems t refl inside) k)
        | inr outside ↦
            subst goal (sym (take_outside x st a id v t s1 outside)) (
              kept _ s1 k
                (deny-Keeps x st a ip id r v (find_voter a.voter_list v) outside_window _))
      ]

  redeem_cases :
      (id v : ℕ) (secret : Text) (s1 : Service)
      → Keeps s s1
      → ((to_string r.body.pin == (find_voter a.voter_list v).pin) ≡ true
          → (t : Timer) → lookup v s.request_timers ≡ some t
          → in_window x st a t ≡ true
          → Redeems x st a ip r s v secret t)
      → Ensures P (redeem x st a ip id r v secret s1)
  unfolding redeem take_timer
  redeem_cases id v secret s1 k redeems =
      Ensures-if P (to_string r.body.pin == (find_voter a.voter_list v).pin) _ _
        (λ right.
          settle_cases id v secret (lookup v s1.request_timers) s1 k refl
            (λ t e. redeems right t (ap (λ b. lookup v b.timers) (sym k) ∙ e)))
        (λ wrong. kept _ s1 k (send-Keeps x st a ip _ s1))

  authenticate_cases :
      (id v : ℕ) (secret : Text) (s1 : Service)
      → Keeps s s1
      → ((verifier : Verifier)
          → lookup r.body.client_id s1.client_verifiers ≡ some verifier
          → verify_text x (x.dump (ticket_body_to_json x r.body)) r.signature verifier ≡ done true
          → is_stale a.now r.body.timestamp st.request_freshness_interval ≡ false
          → (to_string r.body.pin == (find_voter a.voter_list v).pin) ≡ true
          → (t : Timer) → lookup v s.request_timers ≡ some t
          → in_window x st a t ≡ true
          → Redeems x st a ip r s v secret t)
      → Ensures P (authenticate x st a ip id r v secret s1)
  unfolding authenticate fault
  authenticate_cases id v secret s1 k redeems =
      Ensures-bind P (or_throw (lookup r.body.client_id s1.client_verifiers)) _ λ verifier found.
        Ensures-bind P (verify_text x _ r.signature verifier) _ λ ok verified.
          Ensures-if P ok _ _
            (λ is_ok.
              Ensures-if P (is_stale a.now r.body.timestamp st.request_freshness_interval) _ _
                (λ _. keep _ k)
                (λ fresh. redeem_cases id v secret s1 k (
                  redeems verifier (or_throw-eq-done _ verifier found) (verified ∙ ap done is_ok)
                    fresh)))
            (λ _. keep _ k)

  with_ticket_cases :
      (v : ℕ) (secret : Text)
      → r.body.client_id ≡ id_of ip s
      → lookup r.body.ticket s.client_tickets_map ≡ some (v, secret)
      → Ensures P (with_ticket x st a ip (id_of ip s) r v secret (touch_id ip s))
  unfolding with_ticket fault touch_id
  with_ticket_cases v secret named issued =
      elim (Option-cases (ensure_verifier a r.body.client_id (touch_id ip s))) [
        | inl e ↦ rw (e, with_ticket, Ensures) (keep _ refl)
        | inr (s1, e) ↦
            rw (e, with_ticket, Ensures)
              (authenticate_cases (id_of ip s) v secret s1
                (ensure_verifier-Keeps a r.body.client_id (touch_id ip s) s1 e)
                (λ verifier is_verifier signed fresh pin_matches t timer in_time. record {
                  named = named;
                  issued = issued;
                  keyed = s1;
                  has_key = e;
                  verifier = verifier;
                  is_verifier = is_verifier;
                  signed = signed;
                  fresh = fresh;
                  pin_matches = pin_matches;
                  timer = timer;
                  in_time = in_time;
                }))
      ]

  pub handle_ticket_request_cases : Ensures P (handle_ticket_request x st a ip r s)
  unfolding handle_ticket_request fault touch_id
  handle_ticket_request_cases =
      Ensures-if P (r.body.client_id == id_of ip s) _ _
        (λ named. elim (Option-cases (lookup r.body.ticket s.client_tickets_map)) [
          | inl e ↦ rw e (keep _ refl)
          | inr ((v, secret), e) ↦ rw e (
              with_ticket_cases v secret ((nat_eq.beq_iff r.body.client_id (id_of ip s)).0 named) e)
        ])
        (λ _. keep _ refl)
