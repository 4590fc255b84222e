-- ===== src/Client/Failures.antt =====
-- The error branches of PollbookClient's completion handlers.
use pollbook_server.Prelude.{◌≡◌, Bool, true, false, none, some, List, ◌∷◌, Text}
use pollbook_server.Run.{Run, done}
use pollbook_server.External.{External}
use pollbook_server.Checkin.Network.{ReadResult, received, disconnected, other_error}
use pollbook_server.Client.{
  Operation, id_write, id_read, checkin_write, size_read, response_read, ticket_write, ticket_read,
  PollbookClient, ClientAmbient, set_value, set_promise,
}
use pollbook_server.Client.Requests.{
  id_written, id_message_read, checkin_written, size_message_read, response_message_read,
}
use pollbook_server.Client.Tickets.{ticket_written, ticket_response_read}
use pollbook_server.Client.Protocol.{Completion, handle, complete}

abbrev pub IsFailedRead : ReadResult → Type 0
IsFailedRead (received bytes) = ⊥
IsFailedRead disconnected = Unit
IsFailedRead other_error = Unit

-- The operation did not do what it was started for.
abbrev pub IsFailure : Operation → Completion → Type 0
IsFailure id_write e = e.wrote ≡ false
IsFailure id_read e = IsFailedRead e.read
IsFailure checkin_write e = e.wrote ≡ false
IsFailure size_read e = IsFailedRead e.read
IsFailure response_read e = IsFailedRead e.read
IsFailure ticket_write e = e.wrote ≡ false
IsFailure ticket_read e = IsFailedRead e.read

-- All that a call does is to tell the waiting caller that the request failed.
abbrev pub Refuses : Run PollbookClient → PollbookClient → Type 0
Refuses m c =
    (reason : Text) × (m
      ≡ done (record c {
        current_request_promise = some (record { success = false; failure_reason = reason });
      }))

module _ (x : External) (a : ClientAmbient) (c : PollbookClient)
    (waiting : c.current_request_promise ≡ none) where
  set_value-Refuses : (reason : Text) → Refuses (set_value false reason c) c
  unfolding set_value set_promise
  set_value-Refuses reason = (reason, rw (waiting, set_promise))

  write-Refuses :
      (wrote : Bool)
      → wrote ≡ false
      → Refuses (id_written x a wrote c) c
        × Refuses (checkin_written x a wrote c) c
        × Refuses (ticket_written x a wrote c) c
  unfolding id_written checkin_written ticket_written
  write-Refuses true e = cc
  write-Refuses false e = (set_value-Refuses _, set_value-Refuses _, set_value-Refuses _)

  read-Refuses :
      (r : ReadResult)
      → IsFailedRead r
      → Refuses (id_message_read x a r c) c
        × Refuses (size_message_read x a r c) c
        × Refuses (response_message_read x a r c) c
        × Refuses (ticket_response_read x a r c) c
  unfolding id_message_read size_message_read response_message_read ticket_response_read
  read-Refuses (received bytes) h = absurd h
  read-Refuses disconnected h =
      (set_value-Refuses _, set_value-Refuses _, set_value-Refuses _, set_value-Refuses _)
  read-Refuses other_error h =
      (set_value-Refuses _, set_value-Refuses _, set_value-Refuses _, set_value-Refuses _)

  handle-Refuses :
      (op : Operation) (e : Completion) → IsFailure op e → Refuses (handle x a op e c) c
  unfolding handle
  handle-Refuses id_write e h = (write-Refuses e.wrote h).0
  handle-Refuses id_read e h = (read-Refuses e.read h).0
  handle-Refuses checkin_write e h = (write-Refuses e.wrote h).1
  handle-Refuses size_read e h = (read-Refuses e.read h).1
  handle-Refuses response_read e h = (read-Refuses e.read h).2
  handle-Refuses ticket_write e h = (write-Refuses e.wrote h).2
  handle-Refuses ticket_read e h = (read-Refuses e.read h).3

module _ (x : External) (a : ClientAmbient) where
  -- Wherever a request stands, the failure of its write or read is told to the waiting caller, as a
  -- result that is no success: no exception leaves the handler, nothing more is sent or started,
  -- and the operation is no longer in flight.
  pub failure_reported :
      (op : Operation) (ops : List Operation) (e : Completion) (c : PollbookClient)
      → c.current_request_promise ≡ none
      → IsFailure op e
      → Refuses (complete x a e (op ∷ ops) c) (record c { in_flight = ops })
  unfolding complete
  failure_reported op ops e c waiting fails =
      handle-Refuses x a (record c { in_flight = ops }) waiting op e fails
