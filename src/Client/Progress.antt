-- ===== src/Client/Progress.antt =====
-- The steps of one request of PollbookClient, from its start to its answer.
use pollbook_server.Prelude.{
  ◌≡◌, refl, ap, length, inl, inr, ℕ, suc, ◌+◌, ◌≤◌, ◌&&◌, none, List, [], ◌∷◌, arith, Text,
}
use pollbook_server.Run.{
  Run, done, ◌>>=◌, Ensures, Ensures-bind, Ensures-if, Ensures-map, Ensures-eq,
}
use pollbook_server.External.{External}
use pollbook_server.Signature.{sign_text}
use pollbook_server.Client.{
  Operation, id_write, id_read, checkin_write, size_read, response_read, ticket_write, ticket_read,
  VoterName, PollbookClient, ClientAmbient, start, send,
}
use pollbook_server.Client.Requests.{check_in_with_data, check_in_voter, start_id_request_write}
use pollbook_server.Client.Protocol.{
  Completion, handle, complete, stages, IsAnswered, IsInProgress, stages-pos,
  id_written-IsInProgress, id_read-IsInProgress, checkin_written-IsInProgress,
  size_read-IsInProgress, response_read-IsInProgress, ticket_written-IsInProgress,
  ticket_read-IsInProgress,
}

abbrev pub rest : Operation → ℕ
rest id_write = 4
rest id_read = 3
rest checkin_write = 2
rest size_read = 1
rest response_read = 0
rest ticket_write = 1
rest ticket_read = 0

rest-le : (op : Operation) (n : ℕ) → stages op ≤ suc n → rest op ≤ n
rest-le id_write n h = omega arith
rest-le id_read n h = omega arith
rest-le checkin_write n h = omega arith
rest-le size_read n h = omega arith
rest-le response_read n h = omega arith
rest-le ticket_write n h = omega arith
rest-le ticket_read n h = omega arith

IsInProgress-le : (m n : ℕ) (c : PollbookClient) → m ≤ n → IsInProgress m c → IsInProgress n c
IsInProgress-le m n c le (inl h) = inl h
IsInProgress-le m n c le (inr (op, f, s, p)) = inr (op, f, omega (arith, s, le), p)

module _ (x : External) where
  handle-IsInProgress :
      (a : ClientAmbient) (op : Operation) (e : Completion) (c : PollbookClient)
      → c.in_flight ≡ []
      → c.current_request_promise ≡ none
      → Ensures (IsInProgress (rest op)) (handle x a op e c)
  unfolding handle
  handle-IsInProgress a id_write e c f p = id_written-IsInProgress x a e.wrote c f p
  handle-IsInProgress a id_read e c f p = id_read-IsInProgress x a e.read c f p
  handle-IsInProgress a checkin_write e c f p = checkin_written-IsInProgress x a e.wrote c f p
  handle-IsInProgress a size_read e c f p = size_read-IsInProgress x a e.read c f p
  handle-IsInProgress a response_read e c f p = response_read-IsInProgress x a e.read c f p
  handle-IsInProgress a ticket_write e c f p = ticket_written-IsInProgress x a e.wrote c f p
  handle-IsInProgress a ticket_read e c f p = ticket_read-IsInProgress x a e.read c f p

  complete-IsInProgress :
      (a : ClientAmbient) (e : Completion) (n : ℕ) (c : PollbookClient)
      → IsInProgress (suc n) c
      → Ensures (IsInProgress n) (complete x a e c.in_flight c)
  unfolding complete
  complete-IsInProgress a e n c (inl (f, v)) = rw (f, complete, Ensures) (inl (refl, v))
  complete-IsInProgress a e n c (inr (op, f, s, p)) =
      rw (f, complete, Ensures)
        (Ensures-map (IsInProgress (rest op)) (IsInProgress n) _
          (λ c' h. IsInProgress-le (rest op) n c' (rest-le op n s) h)
          (handle-IsInProgress a op e (record c { in_flight = [] }) refl p))

  -- Completions, one after the other.
  unfoldable pub drive : List (ClientAmbient × Completion) → PollbookClient → Run PollbookClient
  unfolding complete
  drive [] c = done c
  drive ((a, e) ∷ completions) c = do c' ← complete x a e c.in_flight c; drive completions c'

  drive-IsInProgress :
      (completions : List (ClientAmbient × Completion)) (n : ℕ) (c : PollbookClient)
      → IsInProgress (length completions + n) c
      → Ensures (IsInProgress n) (drive completions c)
  unfolding drive
  drive-IsInProgress [] n c h = IsInProgress-le _ n c (omega arith) h
  drive-IsInProgress ((a, e) ∷ completions) n c h =
      Ensures-bind (IsInProgress n) (complete x a e c.in_flight c) _ λ c' k.
        drive-IsInProgress completions n c' (
          Ensures-eq (IsInProgress (length completions + n)) _ c' k (
            complete-IsInProgress a e (length completions + n) c
              (IsInProgress-le _ _ c (omega arith) h)))

  not_waiting : (c : PollbookClient) → IsInProgress 0 c → IsAnswered c
  not_waiting c (inl h) = h
  not_waiting c (inr (op, f, s, p)) = absurd (stages-pos op s)

  check_in-IsInProgress :
      (a : ClientAmbient) (name : VoterName) (n : ℕ) (voter_id_data : Text) (c : PollbookClient)
      → c.in_flight ≡ []
      → Ensures (IsInProgress 5) (check_in_voter x a name n voter_id_data c)
  unfolding check_in_voter check_in_with_data start_id_request_write start send
  check_in-IsInProgress a name n voter_id_data c f =
      Ensures-if (IsInProgress 5) (c.checkin_connected && c.id_connected) _ _
        (λ _.
          Ensures-bind (IsInProgress 5) (sign_text x _ c.private_key_signer) _
            λ signature _. inr (id_write, ap (λ ops. id_write ∷ ops) f, omega arith, refl))
        (λ _. tt)

  -- A check-in that is started while nothing is in flight is answered after five completions at
  -- most, whatever the services send and whichever of them fails, unless a handler throws: then
  -- nothing is in flight, and the promise has a value.
  pub check_in-IsAnswered :
      (a : ClientAmbient) (name : VoterName) (n : ℕ) (voter_id_data : Text)
      (c c1 c2 : PollbookClient) (completions : List (ClientAmbient × Completion))
      → c.in_flight ≡ []
      → check_in_voter x a name n voter_id_data c ≡ done c1
      → 5 ≤ length completions
      → drive completions c1 ≡ done c2
      → IsAnswered c2
  check_in-IsAnswered a name n voter_id_data c c1 c2 completions f starts enough drives =
      let begun =
        Ensures-eq (IsInProgress 5) _ c1 starts
          (check_in-IsInProgress a name n voter_id_data c f) in
      not_waiting c2 (
        Ensures-eq (IsInProgress 0) _ c2 drives (
          drive-IsInProgress completions 0 c1
            (IsInProgress-le 5 _ c1 (omega (arith, enough)) begun)))
