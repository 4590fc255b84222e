-- ===== src/Checkin/Tickets.antt =====
-- Phase 2: a ticket that a trusted device presents.
use pollbook_server.Prelude.{
  ℕ, ◌+◌, ◌*◌, Bool, true, false, ◌&&◌, Option, none, some, [], ◌∷◌, ◌++◌, leb, ◌==◌, nat_eq,
  text_eq, if◌then◌else◌, Text, codes,
}
use pollbook_server.Map.{lookup, insert, erase}
use pollbook_server.Run.{Run, done, throws, ◌>>=◌, or_throw}
use pollbook_server.Text.{to_string}
use pollbook_server.Freshness.{is_stale}
use pollbook_server.External.{External}
use pollbook_server.Signature.{sign_text, verify_text}
use pollbook_server.Messages.Ticket.{
  TicketRequest, TicketResponseBody, ticket_body_to_json, ticket_request_from_json,
  ticket_response_body_to_json, ticket_response_to_json,
}
use pollbook_server.Checkin.State.{
  VoterStatus, pending, checked_in, Timer, Endpoint, write, cancel_timer, Service, Settings,
  Ambient, minute, emit, fault, id_of, touch_id, ensure_verifier,
}
use pollbook_server.Checkin.Files.{VoterInfo, find_voter, read_from_csv}

-- What the block under the mutex finds of a voter's timer.
pub data TimerCheck : Type 0 where
  no_timer outside_window inside_window : TimerCheck

module _ (x : External) (st : Settings) (a : Ambient) where
  -- now >= expiry - interval && now <= expiry
  unfoldable pub in_window : Timer → Bool
  in_window t =
      leb t.expiry (a.steady_now + st.timeout_interval * minute) && leb a.steady_now t.expiry

  unfoldable pub take : ℕ → ℕ → Option Timer → Service → Service × TimerCheck
  unfolding in_window
  take client_id voter_id none s =
      (fault a client_id (codes "No timer found for voter ID") s, no_timer)
  take client_id voter_id (some t) s =
      if in_window t
      then (record s { request_timers = erase voter_id s.request_timers }, inside_window)
      else (fault a client_id (codes "Request outside valid time window") s, outside_window)

  unfoldable pub take_timer : ℕ → ℕ → Service → Service × TimerCheck
  unfolding take
  take_timer client_id voter_id s = take client_id voter_id (lookup voter_id s.request_timers) s

  -- Responses to a trusted device have no size line; an error of the write is logged only.
  unfoldable pub send_ticket_response : Endpoint → TicketResponseBody → Service → Run Service
  send_ticket_response client_ip body s = do
    signature ← sign_text x (x.dump (ticket_response_body_to_json x body)) s.signer
    let message = x.dump (ticket_response_to_json x (record { body = body; signature = signature }))
    done (emit (write client_ip (message ++ 10 ∷ [])) s)

  unfoldable pub ticket_response : Bool → TicketRequest → ℕ → VoterInfo → Text → TicketResponseBody
  ticket_response approved r voter_id info secret = record {
    approved = approved;
    last_name = info.last_name;
    first_name = info.first_name;
    middle_name = info.middle_name;
    voter_unique_id = voter_id;
    secret = secret;
    pin = r.body.pin;
  }

  unfoldable pub confirm : ℕ → Option VoterStatus → Service → Service
  confirm voter_id (some pending) s = record s {
    voter_status_table = insert voter_id checked_in s.voter_status_table;
  }
  confirm voter_id _ s = s

  -- The voter, if pending, is checked in; the device gets the secret, and the timer is cancelled.
  unfoldable pub grant : Endpoint → TicketRequest → ℕ → VoterInfo → Text → Service → Run Service
  unfolding confirm send_ticket_response ticket_response
  grant client_ip r voter_id info secret s =
      send_ticket_response client_ip (ticket_response true r voter_id info secret)
        (emit (cancel_timer voter_id) (confirm voter_id (lookup voter_id s.voter_status_table) s))

  unfoldable pub report_used : ℕ → TimerCheck → Service → Service
  report_used client_id no_timer s =
      fault a client_id
        (codes "No pending ticket for voter (already used, expired, or never issued)") s
  report_used client_id _ s = s

  unfoldable pub deny :
      Endpoint → ℕ → TicketRequest → ℕ → VoterInfo → TimerCheck → Service → Run Service
  unfolding send_ticket_response ticket_response report_used
  deny client_ip client_id r voter_id info check s = do
    s' ← send_ticket_response client_ip (ticket_response false r voter_id info []) s
    done (fault a client_id (codes "Invalid ticket") (report_used client_id check s'))

  unfoldable pub settle :
      Endpoint → ℕ → TicketRequest → ℕ → VoterInfo → Text → Service × TimerCheck → Run Service
  unfolding grant deny
  settle client_ip client_id r voter_id info secret (s, inside_window) =
      grant client_ip r voter_id info secret s
  settle client_ip client_id r voter_id info secret (s, check) =
      deny client_ip client_id r voter_id info check s

  -- From the PIN on. `voter_id` and `secret` are what the ticket stands for.
  unfoldable pub redeem : Endpoint → ℕ → TicketRequest → ℕ → Text → Service → Run Service
  unfolding take_timer settle send_ticket_response ticket_response
  redeem client_ip client_id r voter_id secret s =
      let info = find_voter a.voter_list voter_id in
      if to_string r.body.pin == info.pin
      then settle client_ip client_id r voter_id info secret (take_timer client_id voter_id s)
      else send_ticket_response client_ip (ticket_response false r voter_id info []) s

  -- From the signature on.
  unfoldable pub authenticate : Endpoint → ℕ → TicketRequest → ℕ → Text → Service → Run Service
  unfolding redeem
  authenticate client_ip client_id r voter_id secret s = do
    verifier ← or_throw (lookup r.body.client_id s.client_verifiers)
    ok ← verify_text x (x.dump (ticket_body_to_json x r.body)) r.signature verifier
    if ok
        then (if is_stale a.now r.body.timestamp st.request_freshness_interval
            then done
                (fault a client_id (codes "Ticket request timestamp outside freshness interval") s)
            else redeem client_ip client_id r voter_id secret s)
        else done (fault a client_id (codes "Invalid client signature on ticket request") s)

  unfoldable pub with_ticket : Endpoint → ℕ → TicketRequest → ℕ → Text → Service → Run Service
  unfolding authenticate
  with_ticket client_ip client_id r voter_id secret s =
      elim (ensure_verifier a r.body.client_id s) [
        | none ↦ done (
            fault a client_id
              (codes
                "Could not load the public key for client. Ignoring a voter ID validation request.")
              s)
        | some s' ↦ authenticate client_ip client_id r voter_id secret s'
      ]

  -- A ticket request that could be read.
  unfoldable pub handle_ticket_request : Endpoint → TicketRequest → Service → Run Service
  unfolding with_ticket
  handle_ticket_request client_ip r s =
      let client_id = id_of client_ip s in
      let s' = touch_id client_ip s in
      if r.body.client_id == client_id
      then (elim (lookup r.body.ticket s'.client_tickets_map) [
        | none ↦
            done (fault a client_id (codes "Ticket in the message was not found on the server") s')
        | some (voter_id, secret) ↦ with_ticket client_ip client_id r voter_id secret s'
      ])
      else done (
          fault a client_id
            (codes
              "Client ID in the message does not match the client ID from the client's certificate!")
            s')

  unfoldable pub read_ticket_request : Endpoint → Run TicketRequest → Service → Run Service
  unfolding handle_ticket_request
  read_ticket_request client_ip throws s = done (fault a s.client_id a.what s)
  read_ticket_request client_ip (done r) s = handle_ticket_request client_ip r s

  -- The exceptions of the parser and of FromJson are caught here.
  unfoldable pub handle_trusted_client : Text → Endpoint → Service → Run Service
  unfolding read_ticket_request
  handle_trusted_client msg_string client_ip s =
      let s' = read_from_csv a s in
      elim (x.parse msg_string) [
        | none ↦ done s'
        | some json ↦ read_ticket_request client_ip (ticket_request_from_json x json) s'
      ]
