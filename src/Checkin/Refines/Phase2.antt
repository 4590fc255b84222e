-- ===== src/Checkin/Refines/Phase2.antt =====
-- CheckinService::handle_trusted_client against the abstract machine of Book.
use pollbook_server.Prelude.{
  ◌≡◌, refl, sym, subst, ◌∙◌, ℕ, Option, none, some, arith, nat_eq, text_eq, Option-cases, inl, inr,
  Text, ap,
}
use pollbook_server.Map.{lookup, erase}
use pollbook_server.Run.{Run, done, throws, Ensures, Ensures-map}
use pollbook_server.External.{External}
use pollbook_server.Messages.Ticket.{TicketRequest, ticket_request_from_json}
use pollbook_server.Checkin.State.{
  VoterStatus, eligible, pending, checked_in, Timer, Service, Settings, Ambient, Endpoint, emit,
  fault,
}
use pollbook_server.Checkin.Files.{VoterInfo, find_voter, read_from_csv}
use pollbook_server.Checkin.Tickets.{
  send_ticket_response, confirm, grant, handle_ticket_request, read_ticket_request,
  handle_trusted_client,
}
use pollbook_server.Checkin.Book.{book, Move, device, idle, complete, Agree, IsConsistent}
use pollbook_server.Checkin.Refines.Cases.{send-Keeps, handle_ticket_request_cases}
use pollbook_server.Checkin.Refines.Phase1.{Keeps}

read_from_csv-Keeps : (a : Ambient) (s : Service) → Keeps s (read_from_csv a s)
unfolding read_from_csv
read_from_csv-Keeps a s = ground arith

-- Only a pending voter has a timer.
pub pending_of_timer :
    (t : Timer) (timer : Option Timer) (status : Option VoterStatus)
    → Agree timer status
    → timer ≡ some t
    → status ≡ some pending
pending_of_timer t none status h e = cc
pending_of_timer t (some u) (some pending) h e = refl
pending_of_timer t (some u) (some eligible) h e = absurd h
pending_of_timer t (some u) (some checked_in) h e = absurd h
pending_of_timer t (some u) none h e = absurd h

module _ (x : External) (st : Settings) (a : Ambient) where
  confirm-Move :
      (v : ℕ) (t : Timer) (status : Option VoterStatus) (s : Service)
      → lookup v s.request_timers ≡ some t
      → lookup v s.voter_status_table ≡ status
      → status ≡ some pending
      → Move
          (book s)
          (book (confirm x st a v status (record s { request_timers = erase v s.request_timers })))
          device
  unfolding confirm
  confirm-Move v t (some pending) s e h p = complete v t e h refl
  confirm-Move v t (some eligible) s e h p = cc
  confirm-Move v t (some checked_in) s e h p = cc
  confirm-Move v t none s e h p = cc

  grant-Move :
      (ip : Endpoint) (r : TicketRequest) (v : ℕ) (info : VoterInfo) (secret : Text) (t : Timer)
      (s : Service)
      → IsConsistent (book s)
      → lookup v s.request_timers ≡ some t
      → Ensures
          (λ s'. Move (book s) (book s') device)
          (grant x st a ip r v info secret (record s { request_timers = erase v s.request_timers }))
  unfolding grant emit
  grant-Move ip r v info secret t s c e =
      let taken : Service = record s { request_timers = erase v s.request_timers } in
      let confirmed : Service = confirm x st a v (lookup v s.voter_status_table) taken in
      Ensures-map (Keeps confirmed) (λ s'. Move (book s) (book s') device)
        (send_ticket_response x st a ip _ _)
        (λ s' h.
          subst (λ b. Move (book s) b device) (sym h)
            (confirm-Move v t _ s e refl (pending_of_timer t _ _ (c.timed v) e)))
        (send-Keeps x st a ip _ _)

  handle_ticket_request-Move :
      (ip : Endpoint) (r : TicketRequest) (s : Service)
      → IsConsistent (book s)
      → Ensures (λ s'. Move (book s) (book s') device) (handle_ticket_request x st a ip r s)
  handle_ticket_request-Move ip r s c =
      handle_ticket_request_cases x st a ip r s (λ s'. Move (book s) (book s') device)
        (λ s' h. idle h)
        (λ v secret t s1 redeems k.
          subst
            (λ b.
              Ensures (λ s'. Move b (book s') device)
                (grant x st a ip r v (find_voter a.voter_list v) secret
                  (record s1 { request_timers = erase v s1.request_timers })))
            k
            (grant-Move ip r v (find_voter a.voter_list v) secret t s1
              (subst IsConsistent (sym k) c) (ap (λ b. lookup v b.timers) k ∙ redeems.timer)))

  read_ticket_request-Move :
      (ip : Endpoint) (request : Run TicketRequest) (s : Service)
      → IsConsistent (book s)
      → Ensures (λ s'. Move (book s) (book s') device) (read_ticket_request x st a ip request s)
  unfolding read_ticket_request fault
  read_ticket_request-Move ip throws s c = idle refl
  read_ticket_request-Move ip (done r) s c = handle_ticket_request-Move ip r s c

  pub handle_trusted_client-Move :
      (message : Text) (ip : Endpoint) (s : Service)
      → IsConsistent (book s)
      → Ensures (λ s'. Move (book s) (book s') device) (handle_trusted_client x st a message ip s)
  unfolding handle_trusted_client
  handle_trusted_client-Move message ip s c = elim (Option-cases (x.parse message)) [
    | inl e ↦ rw (e, handle_trusted_client, Ensures) (idle (read_from_csv-Keeps a s))
    | inr (json, e) ↦
        rw (e, handle_trusted_client, Ensures)
          (let k = read_from_csv-Keeps a s in
            subst
              (λ b.
                Ensures (λ s'. Move b (book s') device)
                  (read_ticket_request x st a ip (ticket_request_from_json x json)
                    (read_from_csv a s)))
              k
              (read_ticket_request-Move ip (ticket_request_from_json x json) (read_from_csv a s)
                (subst IsConsistent (sym k) c)))
  ]
