-- ===== src/Checkin/Approval.antt =====
-- CheckinService::handle_checkin_request on a request that meets every condition of Admits.
use pollbook_server.Prelude.{
  ◌≡◌, ◌∙◌, ℕ, true, some, arith, ◌∷◌, ◌+◌, ◌*◌, nat_eq, text_eq, Text, nat_beq_iff,
}
use pollbook_server.Map.{lookup, insert, lookup-insert, beq_refl}
use pollbook_server.Run.{done}
use pollbook_server.External.{External}
use pollbook_server.Signature.{sign_text}
use pollbook_server.Messages.Checkin.{
  CheckinRequest, checkin_response_body_to_json, checkin_response_to_json,
}
use pollbook_server.Checkin.State.{
  eligible, pending, Service, Settings, Ambient, Endpoint, minute, write, read_size, wait_for_timer,
  emit, id_of, touch_id, ensure_verifier,
}
use pollbook_server.Checkin.Files.{generate_secret, write_to_csv}
use pollbook_server.Checkin.Requests.{
  frame, start_timer, validate_claims, validate_id_signature, validate_client_request, mark,
  mark_pending, response_body, send_checkin_response, issue_ticket, answer, consider,
  checkin_identified, handle_checkin_request,
}
use pollbook_server.Checkin.Admission.{Admits, IsValid}

-- Writing the ticket file leaves all but the file alone.
write_to_csv_frame :
    (a : Ambient) (ticket secret : Text) (id : ℕ) (s : Service)
    → let s' = write_to_csv a ticket secret id s in
      (s'.voter_status_table ≡ s.voter_status_table)
      × (s'.request_timers ≡ s.request_timers)
      × (s'.client_tickets_map ≡ s.client_tickets_map)
      × (s'.signer ≡ s.signer)
      × (s'.effects ≡ s.effects)
unfolding write_to_csv
write_to_csv_frame a ticket secret id s =
    (ground arith, ground arith, ground arith, ground arith, ground arith)

-- So does loading a key, which starts nothing.
keyed_frame :
    (a : Ambient) (id : ℕ) (ip : Endpoint) (s s' : Service)
    → ensure_verifier a id (touch_id ip s) ≡ some s'
    → (s'.voter_status_table ≡ s.voter_status_table)
      × (s'.signer ≡ s.signer)
      × (s'.effects ≡ s.effects)
unfolding ensure_verifier touch_id
keyed_frame a id ip s s' h = (ground arith, ground arith, ground arith)

module _ (x : External) (st : Settings) (a : Ambient) where
  validate_valid :
      (r : CheckinRequest) (s : Service)
      → IsValid x st a r s
      → validate_client_request x st a r s ≡ done (s, true)
  unfolding validate_client_request validate_id_signature validate_claims
  validate_valid r s h = rw (h.is_verifier, h.signed, h.id_signed, h.same_voter, h.fresh)

  mark_eligible :
      (v : ℕ) (s : Service)
      → lookup v s.voter_status_table ≡ some eligible
      → mark_pending x st a v s ≡ (
        start_timer st a v
            (record s { voter_status_table = insert v pending s.voter_status_table }),
        true,
      )
  unfolding mark_pending mark
  mark_eligible v s i = rw i

  Admits-answer :
      (ip : Endpoint) (r : CheckinRequest) (s : Service) (admits : Admits x st a ip r s)
      → let v = r.body.voter_unique_id in
        handle_checkin_request x st a ip r s
        ≡ issue_ticket x st a ip r (
            start_timer st a v (record admits.keyed {
              voter_status_table = insert v pending admits.keyed.voter_status_table;
            }))
  unfolding handle_checkin_request checkin_identified consider answer
  Admits-answer ip r s h =
      let (same, _, _) = keyed_frame a r.body.client_id_num ip s h.keyed h.has_key in
      let marked = mark_eligible r.body.voter_unique_id h.keyed (rw same h.is_eligible) in
      rw (
        (nat_beq_iff r.body.client_id_num (id_of ip s)).1 h.named,
        h.has_key,
        checkin_identified,
        validate_valid r h.keyed h.valid,
        marked,
      )

  issue_ticket_done :
      (ip : Endpoint) (r : CheckinRequest) (s : Service) (ticket secret signature : Text)
      → generate_secret a.ticket_bytes 16 ≡ done ticket
      → generate_secret a.secret_bytes 32 ≡ done secret
      → sign_text x
          (x.dump (checkin_response_body_to_json x (response_body x st a r true ticket)))
          s.signer
        ≡ done signature
      → a.write_succeeds ≡ true
      → let v = r.body.voter_unique_id in
        let stored = record s {
          client_tickets_map = insert ticket (v, secret) s.client_tickets_map;
        } in
        issue_ticket x st a ip r s
        ≡ done (
            emit (read_size ip) (
              emit
                (write ip (
                  frame (
                    x.dump (
                      checkin_response_to_json x (record {
                        body = response_body x st a r true ticket;
                        checkin_service_signature = signature;
                      })))))
                (write_to_csv a ticket secret v stored)))
  unfolding issue_ticket send_checkin_response
  issue_ticket_done ip r s ticket secret signature t u signs writes =
      let v : ℕ = r.body.voter_unique_id in
      let stored : Service = record s {
        client_tickets_map = insert ticket (v, secret) s.client_tickets_map;
      } in
      let (_, _, _, same, _) = write_to_csv_frame a ticket secret v stored in
      rw (t, u, same, signs, writes)

  -- Conversely a request that meets every condition makes its voter pending under a timer that runs
  -- from now for the timeout interval, keeps the ticket with its secret, and answers with an
  -- approval that carries the ticket and waits for the kiosk's next request, if the random bytes
  -- are to be had, and signing and writing work.
  pub checkin_complete :
      (ip : Endpoint) (r : CheckinRequest) (s : Service) (ticket secret signature : Text)
      → Admits x st a ip r s
      → generate_secret a.ticket_bytes 16 ≡ done ticket
      → generate_secret a.secret_bytes 32 ≡ done secret
      → sign_text x
          (x.dump (checkin_response_body_to_json x (response_body x st a r true ticket)))
          s.signer
        ≡ done signature
      → a.write_succeeds ≡ true
      → (s' : Service) × (handle_checkin_request x st a ip r s ≡ done s')
        × (lookup r.body.voter_unique_id s'.voter_status_table ≡ some pending)
        × (lookup r.body.voter_unique_id s'.request_timers
            ≡ some (record {
              expiry = a.steady_now + st.timeout_interval * minute;
              voter_id = r.body.voter_unique_id;
            }))
        × (lookup ticket s'.client_tickets_map ≡ some (r.body.voter_unique_id, secret))
        × (s'.effects
            ≡ read_size ip
              ∷ write ip (
                  frame (
                    x.dump (
                      checkin_response_to_json x (record {
                        body = response_body x st a r true ticket;
                        checkin_service_signature = signature;
                      }))))
              ∷ wait_for_timer r.body.voter_unique_id
              ∷ s.effects)
  unfolding start_timer emit
  checkin_complete ip r s ticket secret signature admits t u signs writes =
      let v : ℕ = r.body.voter_unique_id in
      let k : Service = admits.keyed in
      let (_, same_signer, same_effects) =
        keyed_frame a r.body.client_id_num ip s k admits.has_key in
      let marked : Service =
        start_timer st a v
          (record k { voter_status_table = insert v pending k.voter_status_table }) in
      let stored : Service = record marked {
        client_tickets_map = insert ticket (v, secret) marked.client_tickets_map;
      } in
      let (statuses, timers, tickets, _, effects) = write_to_csv_frame a ticket secret v stored in
      (
        _,
        Admits-answer ip r s admits
            ∙ issue_ticket_done ip r marked ticket secret signature t u (rw same_signer signs)
                writes,
        rw statuses (lookup-insert v v pending k.voter_status_table ∙ rw (beq_refl v)),
        rw timers (lookup-insert v v _ k.request_timers ∙ rw (beq_refl v)),
        rw tickets (lookup-insert ticket ticket _ k.client_tickets_map ∙ rw (beq_refl ticket)),
        rw (effects, same_effects),
      )
