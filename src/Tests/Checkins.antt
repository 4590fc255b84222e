-- ===== src/Tests/Checkins.antt =====
-- The check-in service.
use pollbook_server.Tests.{everything}
use pollbook_server.Prelude.{
  ◌≡◌, ◌≤◌, refl, nat_eq, text_eq, some, none, List, [], ◌∷◌, ◌++◌, Text, codes, true,
}
use pollbook_server.Map.{lookup}
use pollbook_server.Run.{done, result_or, Ensures}
use pollbook_server.Signature.{sign_text}
use pollbook_server.Messages.Ticket.{
  TicketResponseBody, ticket_response_body_to_json, ticket_response_to_json,
}
use pollbook_server.Checkin.State.{
  Service, Ambient, Timer, eligible, pending, checked_in, write, cancel_timer,
}
use pollbook_server.Checkin.Files.{find_voter}
use pollbook_server.Checkin.Tickets.{handle_ticket_request, ticket_response}
use pollbook_server.Checkin.Network.{Event, step, run}
use pollbook_server.Checkin.Startup.{new_service, new_service-IsConsistent, first_status}
use pollbook_server.Checkin.Book.{book, IsConsistent, cause_of, sender, kiosk}
use pollbook_server.Checkin.Refines.{Moves, step-Move}
use pollbook_server.Checkin.Refines.Cases.{Redeems}
use pollbook_server.Checkin.Redemption.{Redeemed, ticket_sound, ticket_complete}
use pollbook_server.Checkin.Safety.{Changes, step-Changes}
use pollbook_server.Checkin.Safety.Runs.{
  check_ins, check_ins-le-one, run-IsConsistent, run_checked_in,
}
use pollbook_server.Samples.Polls.{
  polls, settings, at_noon, files, polling_day, kiosk_arrives, device_arrives, kiosk_asks,
  device_asks, time_is_up, device_request, blank,
}

-- The service as it starts, with both clients connected, with the voter pending, and checked in.
abbrev pub opened : Service
unfolding everything
opened = result_or blank (new_service files)

abbrev pub connected : Service
unfolding everything
connected = result_or blank (run polls settings (kiosk_arrives ∷ device_arrives ∷ []) opened)

abbrev pub waiting : Service
unfolding everything
waiting = result_or blank (run polls settings (kiosk_asks ∷ []) connected)

abbrev pub finished : Service
unfolding everything
finished = result_or blank (run polls settings (device_asks ∷ []) waiting)

pub opens : new_service files ≡ done opened
unfolding everything
opens = refl

pub waiting_status : lookup 100 waiting.voter_status_table ≡ some pending
unfolding everything
waiting_status = refl

pub finished_status : lookup 100 finished.voter_status_table ≡ some checked_in
unfolding everything
finished_status = refl

-- The timer takes the voter back.
reverts :
    lookup 100 (result_or blank (run polls settings (time_is_up ∷ []) waiting)).voter_status_table
    ≡ some eligible
unfolding everything
reverts = refl

opened-IsConsistent : IsConsistent (book opened)
opened-IsConsistent = (new_service-IsConsistent files opened 100 opens).0

new_service-IsConsistent_example :
    IsConsistent (book opened)
    × (lookup 100 opened.voter_status_table ≡ first_status 100 files.voter_list_lines)
    × (lookup 100 opened.request_timers ≡ none)
new_service-IsConsistent_example = new_service-IsConsistent files opened 100 opens

pub opened_runs :
    run polls settings (kiosk_arrives ∷ device_arrives ∷ kiosk_asks ∷ []) opened ≡ done waiting
unfolding everything
opened_runs = refl

pub waiting-IsConsistent : IsConsistent (book waiting)
waiting-IsConsistent =
    run-IsConsistent polls settings (kiosk_arrives ∷ device_arrives ∷ kiosk_asks ∷ []) opened
      waiting opened-IsConsistent opened_runs

run-IsConsistent_example : IsConsistent (book waiting)
run-IsConsistent_example =
    run-IsConsistent polls settings (kiosk_arrives ∷ device_arrives ∷ kiosk_asks ∷ []) opened
      waiting opened-IsConsistent opened_runs

check_ins-le-one_example : check_ins polls settings 100 polling_day opened ≤ 1
check_ins-le-one_example =
    check_ins-le-one polls settings 100 polling_day opened opened-IsConsistent

one_check_in : check_ins polls settings 100 polling_day opened ≡ 1
unfolding everything
one_check_in = refl

connected-IsConsistent : IsConsistent (book connected)
unfolding everything
connected-IsConsistent =
    run-IsConsistent polls settings (kiosk_arrives ∷ device_arrives ∷ []) opened connected
      opened-IsConsistent refl

step-Move_example :
    Ensures
      (Moves connected (cause_of kiosk_asks.1 connected))
      (step polls settings at_noon kiosk_asks.1 connected)
step-Move_example = step-Move polls settings at_noon kiosk_asks.1 connected connected-IsConsistent

step-Changes_example : Changes kiosk 100 (some eligible) (some pending)
unfolding everything cause_of sender
step-Changes_example =
    step-Changes polls settings at_noon kiosk_asks.1 connected waiting 100 connected-IsConsistent
      refl

finishes : run polls settings (device_asks ∷ []) waiting ≡ done finished
unfolding everything
finishes = refl

finished-IsConsistent : IsConsistent (book finished)
finished-IsConsistent =
    run-IsConsistent polls settings (device_asks ∷ []) waiting finished waiting-IsConsistent
      finishes

-- A timer that fires late.
abbrev later : List (Ambient × Event)
later = time_is_up ∷ []

abbrev finished_later : Service
unfolding everything
finished_later = result_or blank (run polls settings later finished)

runs_later : run polls settings later finished ≡ done finished_later
unfolding everything
runs_later = refl

run_checked_in_example : lookup 100 finished_later.voter_status_table ≡ some checked_in
run_checked_in_example =
    run_checked_in polls settings later finished finished_later 100 finished-IsConsistent
      finished_status runs_later

-- The device's request, once it is read.
abbrev granted : Service
unfolding everything
granted = result_or blank (handle_ticket_request polls settings at_noon 2 device_request waiting)

ticket_sound_example : Redeemed polls settings at_noon 2 device_request waiting 100
unfolding everything
ticket_sound_example =
    ticket_sound polls settings at_noon 2 device_request waiting granted 100 refl (λ p. cc)

abbrev sample_timer : Timer
sample_timer = record { expiry = 3600000000000; voter_id = 100 }

device_request-Redeems :
    Redeems polls settings at_noon 2 device_request waiting 100 (codes "ff") sample_timer
unfolding everything
device_request-Redeems = record {
  named = refl;
  issued = refl;
  keyed = waiting;
  has_key = refl;
  verifier = record { public_key = codes "k9"; fed = [] };
  is_verifier = refl;
  signed = refl;
  fresh = refl;
  pin_matches = refl;
  timer = refl;
  in_time = refl;
}

abbrev granted_body : TicketResponseBody
granted_body =
    ticket_response polls settings at_noon true device_request 100
      (find_voter at_noon.voter_list 100) (codes "ff")

abbrev granted_signature : Text
granted_signature =
    result_or [] (
      sign_text polls (polls.dump (ticket_response_body_to_json polls granted_body)) waiting.signer)

ticket_complete_example :
    (s' : Service) × (handle_ticket_request polls settings at_noon 2 device_request waiting
      ≡ done s')
    × (lookup 100 s'.voter_status_table ≡ some checked_in)
    × (lookup 100 s'.request_timers ≡ none)
    × (s'.effects
        ≡ write 2 (
            polls.dump (
              ticket_response_to_json polls
                (record { body = granted_body; signature = granted_signature }))
            ++ 10 ∷ [])
          ∷ cancel_timer 100
          ∷ waiting.effects)
unfolding everything
ticket_complete_example =
    ticket_complete polls settings at_noon 2 device_request waiting 100 (codes "ff")
      granted_signature sample_timer waiting-IsConsistent device_request-Redeems refl
