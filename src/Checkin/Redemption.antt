-- ===== src/Checkin/Redemption.antt =====
-- CheckinService::handle_trusted_client: the conditions that a ticket request meets where it checks
-- its voter in, and what it does then.
use pollbook_server.Prelude.{
  ◌≡◌, refl, subst, ap, ◌∙◌, ◌≢◌, ◌⊎◌, inl, inr, ℕ, true, false, Option, none, some, [], ◌∷◌, ◌++◌,
  arith, ◌==◌, nat_eq, text_eq, Text, Bool-cases, nat_beq_iff,
}
use pollbook_server.Map.{lookup, erase, insert, lookup-insert, lookup-erase, beq_refl}
use pollbook_server.Text.{to_string}
use pollbook_server.Freshness.{is_stale}
use pollbook_server.Run.{done, Ensures, Ensures-eq, Ensures-map, Ensures-always}
use pollbook_server.External.{External}
use pollbook_server.Signature.{sign_text, Verifier, verify_text}
use pollbook_server.Messages.Ticket.{
  TicketRequest, ticket_response_body_to_json, ticket_response_to_json, ticket_body_to_json,
}
use pollbook_server.Checkin.State.{
  VoterStatus, eligible, pending, checked_in, Timer, Service, Settings, Ambient, Endpoint, write,
  emit, cancel_timer, id_of, touch_id, ensure_verifier,
}
use pollbook_server.Checkin.Files.{find_voter}
use pollbook_server.Checkin.Tickets.{
  grant, confirm, ticket_response, send_ticket_response, handle_ticket_request, with_ticket,
  authenticate, redeem, settle, take_timer, inside_window, in_window,
}
use pollbook_server.Checkin.Book.{book, IsConsistent}
use pollbook_server.Checkin.Refines.Phase1.{Keeps, ensure_verifier-Keeps}
use pollbook_server.Checkin.Refines.Cases.{
  take_inside, Redeems, handle_ticket_request_cases, send-Keeps,
}
use pollbook_server.Checkin.Refines.Phase2.{pending_of_timer}

-- Loading a key leaves the voters and the signer alone, and starts nothing.
keyed_frame :
    (a : Ambient) (id : ℕ) (ip : Endpoint) (s s' : Service)
    → ensure_verifier a id (touch_id ip s) ≡ some s'
    → Keeps s s' × (s'.signer ≡ s.signer) × (s'.effects ≡ s.effects)
unfolding ensure_verifier touch_id
keyed_frame a id ip s s' h = ground arith

module _ (x : External) (st : Settings) (a : Ambient) where
  -- Some voter's ticket is presented, in a request that meets every condition.
  abbrev pub Redeemed : Endpoint → TicketRequest → Service → ℕ → Type 0
  Redeemed ip r s v = (secret : Text) × (t : Timer) × Redeems x st a ip r s v secret t

  confirm_others :
      (v w : ℕ) (status : Option VoterStatus) (s : Service)
      → (w == v) ≡ false
      → lookup v (confirm x st a w status s).voter_status_table ≡ lookup v s.voter_status_table
  unfolding confirm
  confirm_others v w (some pending) s miss =
      lookup-insert w v checked_in s.voter_status_table ∙ rw miss
  confirm_others v w (some eligible) s miss = refl
  confirm_others v w (some checked_in) s miss = refl
  confirm_others v w none s miss = refl

  grant_others :
      (ip : Endpoint) (r : TicketRequest) (v w : ℕ) (secret : Text) (s : Service)
      → (w == v) ≡ false
      → Ensures
          (λ s'. lookup v s'.voter_status_table ≡ lookup v s.voter_status_table)
          (grant x st a ip r w (find_voter a.voter_list w) secret s)
  unfolding grant emit
  grant_others ip r v w secret s miss =
      let confirmed : Service = confirm x st a w (lookup w s.voter_status_table) s in
      Ensures-map (Keeps confirmed)
        (λ s'. lookup v s'.voter_status_table ≡ lookup v s.voter_status_table) _
        (λ s' h. ap (λ b. lookup v b.statuses) h ∙ confirm_others v w _ s miss)
        (send-Keeps x st a ip _ _)

  -- A ticket request changes a voter's status only if the ticket that it presents was issued for
  -- this voter, and the request meets every condition: the device is who its certificate says, its
  -- signature on the body is valid, the time stamp is fresh, the PIN is the voter's, and the
  -- voter's timer is running.
  pub ticket_sound :
      (ip : Endpoint) (r : TicketRequest) (s s' : Service) (v : ℕ)
      → handle_ticket_request x st a ip r s ≡ done s'
      → lookup v s'.voter_status_table ≢ lookup v s.voter_status_table
      → Redeemed ip r s v
  ticket_sound ip r s s' v h changed =
      let P : Service → Type 0 =
        λ t. (lookup v t.voter_status_table ≡ lookup v s.voter_status_table) ⊎ Redeemed ip r s v in
      let result : P s' = Ensures-eq P _ s' h (
        handle_ticket_request_cases x st a ip r s P (λ t k. inl (ap (λ b. lookup v b.statuses) k))
          (λ w secret t s1 redeems k. elim (Bool-cases (w == v)) [
            | inl hit ↦
                let e = (nat_beq_iff w v).0 hit in
                Ensures-always P _
                  (λ s2. inr (secret, t, subst (λ u. Redeems x st a ip r s u secret t) e redeems))
            | inr miss ↦
                Ensures-map (λ s2. lookup v s2.voter_status_table ≡ lookup v s1.voter_status_table)
                  P _ (λ s2 g. inl (g ∙ ap (λ b. lookup v b.statuses) k))
                  (grant_others ip r v w secret _ miss)
          ])) in
      elim result [ inl same ↦ absurd (changed same) | inr found ↦ found ]

  take_timer_inside :
      (id v : ℕ) (s : Service) (t : Timer)
      → lookup v s.request_timers ≡ some t
      → in_window x st a t ≡ true
      → take_timer x st a id v s
        ≡ (record s { request_timers = erase v s.request_timers }, inside_window)
  unfolding take_timer
  take_timer_inside id v s t timer in_time = rw timer (take_inside x st a id v t s in_time)

  redeem_grants :
      (ip : Endpoint) (id : ℕ) (r : TicketRequest) (s : Service) (v : ℕ) (secret : Text) (t : Timer)
      → (to_string r.body.pin == (find_voter a.voter_list v).pin) ≡ true
      → lookup v s.request_timers ≡ some t
      → in_window x st a t ≡ true
      → redeem x st a ip id r v secret s
        ≡ grant x st a ip r v
            (find_voter a.voter_list v)
            secret
            (record s { request_timers = erase v s.request_timers })
  unfolding redeem settle
  redeem_grants ip id r s v secret t pin timer in_time = rw pin (
      ap (settle x st a ip id r v (find_voter a.voter_list v) secret)
        (take_timer_inside id v s t timer in_time))

  authenticate_grants :
      (ip : Endpoint) (id : ℕ) (r : TicketRequest) (s : Service) (v : ℕ) (secret : Text)
      (verifier : Verifier)
      → lookup r.body.client_id s.client_verifiers ≡ some verifier
      → verify_text x (x.dump (ticket_body_to_json x r.body)) r.signature verifier ≡ done true
      → is_stale a.now r.body.timestamp st.request_freshness_interval ≡ false
      → authenticate x st a ip id r v secret s ≡ redeem x st a ip id r v secret s
  unfolding authenticate
  authenticate_grants ip id r s v secret verifier known signed fresh = rw (known, signed, fresh)

  -- The requests that meet every condition reach `grant`.
  Redeems-grant :
      (ip : Endpoint) (r : TicketRequest) (s : Service) (v : ℕ) (secret : Text) (t : Timer)
      (redeems : Redeems x st a ip r s v secret t)
      → handle_ticket_request x st a ip r s
        ≡ grant x st a ip r v
            (find_voter a.voter_list v)
            secret
            (record redeems.keyed { request_timers = erase v redeems.keyed.request_timers })
  unfolding handle_ticket_request with_ticket touch_id
  Redeems-grant ip r s v secret t h =
      let k = ensure_verifier-Keeps a r.body.client_id (touch_id ip s) h.keyed h.has_key in
      rw ((nat_beq_iff r.body.client_id (id_of ip s)).1 h.named, h.issued, h.has_key, with_ticket)
        (authenticate_grants ip (id_of ip s) r h.keyed v secret h.verifier h.is_verifier h.signed
            h.fresh
          ∙ redeem_grants ip (id_of ip s) r h.keyed v secret t h.pin_matches
              (ap (λ b. lookup v b.timers) k ∙ h.timer) h.in_time)

  confirm-pending :
      (v : ℕ) (status : Option VoterStatus) (s : Service)
      → status ≡ some pending
      → confirm x st a v status s
        ≡ record s { voter_status_table = insert v checked_in s.voter_status_table }
  unfolding confirm
  confirm-pending v (some pending) s p = refl
  confirm-pending v (some eligible) s p = cc
  confirm-pending v (some checked_in) s p = cc
  confirm-pending v none s p = cc

  grant_signed :
      (ip : Endpoint) (r : TicketRequest) (v : ℕ) (secret signature : Text) (s : Service)
      → lookup v s.voter_status_table ≡ some pending
      → let body = ticket_response x st a true r v (find_voter a.voter_list v) secret in
        sign_text x (x.dump (ticket_response_body_to_json x body)) s.signer ≡ done signature
        → grant x st a ip r v (find_voter a.voter_list v) secret s
          ≡ done (record s {
            voter_status_table = insert v checked_in s.voter_status_table;
            effects =
                write ip (
                  x.dump (ticket_response_to_json x (record { body = body; signature = signature }))
                  ++ 10 ∷ [])
                ∷ cancel_timer v
                ∷ s.effects;
          })
  unfolding grant send_ticket_response emit
  grant_signed ip r v secret signature s p signs = rw (confirm-pending v _ s p, signs)

  -- Conversely a request that meets every condition, of a pending voter, checks the voter in, uses
  -- up the timer, and sends the device an approval with the ticket's secret, if signing it works.
  pub ticket_complete :
      (ip : Endpoint) (r : TicketRequest) (s : Service) (v : ℕ) (secret signature : Text)
      (t : Timer)
      → IsConsistent (book s)
      → Redeems x st a ip r s v secret t
      → let body = ticket_response x st a true r v (find_voter a.voter_list v) secret in
        sign_text x (x.dump (ticket_response_body_to_json x body)) s.signer ≡ done signature
        → (s' : Service) × (handle_ticket_request x st a ip r s ≡ done s')
          × (lookup v s'.voter_status_table ≡ some checked_in)
          × (lookup v s'.request_timers ≡ none)
          × (s'.effects
              ≡ write ip (
                  x.dump (ticket_response_to_json x (record { body = body; signature = signature }))
                  ++ 10 ∷ [])
                ∷ cancel_timer v
                ∷ s.effects)
  ticket_complete ip r s v secret signature t c redeems signs =
      let keyed = redeems.keyed in
      let (k, same_signer, same_effects) =
        keyed_frame a r.body.client_id ip s keyed redeems.has_key in
      let p : lookup v keyed.voter_status_table ≡ some pending =
        ap (λ b. lookup v b.statuses) k ∙ pending_of_timer t _ _ (c.timed v) redeems.timer in
      (
        _,
        Redeems-grant ip r s v secret t redeems
            ∙ grant_signed ip r v secret signature
                (record keyed { request_timers = erase v keyed.request_timers }) p
                (rw same_signer signs),
        lookup-insert v v checked_in keyed.voter_status_table ∙ rw (beq_refl v),
        lookup-erase v v keyed.request_timers ∙ rw (beq_refl v),
        rw same_effects,
      )
