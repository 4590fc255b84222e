-- ===== src/Client/Obtained.antt =====
-- PollbookClient::check_in_voter, the ID service, and PollbookClient::handle_id_response: from the
-- call to the check-in request.
use pollbook_server.Prelude.{
  ◌≡◌, refl, ap, ◌∙◌, ℕ, ◌<◌, ◌&&◌, true, false, some, none, [], ◌∷◌, ◌++◌, ◌==◌, nat_eq, Text,
  length,
}
use pollbook_server.Map.{lookup}
use pollbook_server.Freshness.{is_stale}
use pollbook_server.Text.{u32_mod, u64_mod}
use pollbook_server.Run.{Run, done, throws, ◌>>=◌}
use pollbook_server.External.{External, ExternalLaws, valid}
use pollbook_server.Signature.{Verifier, sign_text}
use pollbook_server.Messages.VoterId.{
  VerifiedVoterId, voter_id_body_to_json, voter_id_request_to_json, id_statement,
  verified_voter_id_to_json,
}
use pollbook_server.Checkin.State.{Endpoint, Settings, write, read_payload}
use pollbook_server.Checkin.Network.{received}
use pollbook_server.Checkin.Requests.{frame}
use pollbook_server.IdService.{IdService, IdAmbient, validate_voter_name}
use pollbook_server.IdService.Validation.{invalid_voter_id}
use pollbook_server.IdService.Statements.{statement_message}
use pollbook_server.IdService.Network.{size_read, payload_read, run}
use pollbook_server.Client.{
  id_server, id_write, VoterName, PollbookClient, ClientAmbient, start, send,
}
use pollbook_server.Client.Lines.{size_line, payload_line, frame-lines}
use pollbook_server.Client.Requests.{
  id_request_body, start_id_request_write, check_in_with_data, check_in_voter, id_written,
  id_message_read, start_checkin_request_write,
}
use pollbook_server.Client.Protocol.{handle, complete}
use pollbook_server.Client.Progress.{drive}
use pollbook_server.Client.Identified.{presented, voter_identified}
use pollbook_server.Client.Delivered.{got}
use pollbook_server.Client.Relayed.{statement_relayed}

bind-done : (m : Run PollbookClient) → (m >>= done) ≡ m
bind-done (done c) = refl
bind-done throws = refl

module _ (x : External) (laws : ExternalLaws x) (st : Settings) (a : ClientAmbient) (ai : IdAmbient)
    (ip : Endpoint) where
  -- The client when the request has been handed to the socket.
  abbrev pub having_sent : VoterName → ℕ → Text → Text → PollbookClient → PollbookClient
  having_sent name n voter_id_data signature c =
      send id_server
        (frame (
          x.dump (
            voter_id_request_to_json x
              (presented x laws st a ai ip name n voter_id_data signature))))
        (record c { current_request_promise = none; current_request_voter_name = name })

  -- The identity that the ID service states.
  abbrev pub stated : VoterName → ℕ → Text → Text → Text → VerifiedVoterId
  stated name n voter_id_data signature id_signature = record {
    presented_id = presented x laws st a ai ip name n voter_id_data signature;
    voter_unique_id = n;
    id_service_signature = id_signature;
  }

  statement_arrives :
      (bytes : Text) (c : PollbookClient)
      → drive x (got x laws a [] ∷ got x laws a bytes ∷ []) (start id_write c)
        ≡ id_message_read x a (received bytes) c
  unfolding drive complete handle id_written start
  statement_arrives bytes c = bind-done (id_message_read x a (received bytes) c)

  asks :
      (name : VoterName) (n : ℕ) (voter_id_data signature : Text) (c : PollbookClient)
      → (c.checkin_connected && c.id_connected) ≡ true
      → sign_text x
          (x.dump (
            voter_id_body_to_json x
              (presented x laws st a ai ip name n voter_id_data signature).body))
          c.private_key_signer
        ≡ done signature
      → check_in_voter x a name n voter_id_data c
        ≡ done (start id_write (having_sent name n voter_id_data signature c))
  unfolding check_in_voter check_in_with_data start_id_request_write id_request_body start send
  asks name n voter_id_data signature c connected signs = rw (connected, signs)

  -- What check_in_voter sends is read by the ID service as it was sent, and is answered with a
  -- signed statement on the very voter that the client asked for; the line with this statement
  -- brings the client to the check-in request with this very identity, while the caller waits.
  -- This holds of every voter number, name and other data, if the numbers fit their types, the time
  -- stamp is fresh where the message arrives, the voter list has the number under the name, the
  -- parser inverts the serializer on both messages, the signatures of EVP are correct for the
  -- client's and for the ID service's pair of keys, and signing and writing work.
  pub identity_round_trip :
      (name : VoterName) (n : ℕ) (voter_id_data signature id_signature : Text)
      (verifier id_verifier : Verifier) (c : PollbookClient) (s : IdService)
      → let r = presented x laws st a ai ip name n voter_id_data signature in
        let v = stated name n voter_id_data signature id_signature in
        let message = x.dump (voter_id_request_to_json x r) in
        let statement = statement_message x r n id_signature in
        c.in_flight ≡ []
        → a.client_id < u32_mod
        → a.now < u64_mod
        → n < u32_mod
        → length message < u64_mod
        → x.parse (payload_line message) ≡ some (voter_id_request_to_json x r)
        → x.parse statement ≡ some (verified_voter_id_to_json x v)
        → ((t sig : Text)
            → x.digest_sign c.private_key_signer.private_key t ≡ some sig
            → x.digest_verify verifier.public_key t sig ≡ valid)
        → ((t sig : Text)
            → x.digest_sign s.signer.private_key t ≡ some sig
            → x.digest_verify id_verifier.public_key t sig ≡ valid)
        → (c.checkin_connected && c.id_connected) ≡ true
        → c.id_service_verifier ≡ some id_verifier
        → sign_text x (x.dump (voter_id_body_to_json x r.body)) c.private_key_signer
          ≡ done signature
        → is_stale ai.now a.now st.request_freshness_interval ≡ false
        → (n == invalid_voter_id) ≡ false
        → validate_voter_name name.first_name name.middle_name name.last_name n s ≡ true
        → lookup a.client_id s.client_verifiers ≡ some verifier
        → sign_text x (x.dump (id_statement x r n)) s.signer ≡ done id_signature
        → ai.write_succeeds ≡ true
        → (c1 : PollbookClient) × (check_in_voter x a name n voter_id_data c ≡ done c1)
          × (c1.sent ≡ (id_server, size_line message ++ payload_line message) ∷ c.sent)
          × ((s' : IdService) × (run x st
                  ((ai, size_read ip (received (size_line message)))
                    ∷ (ai, payload_read ip (length message) (received (payload_line message)))
                    ∷ [])
                  s
                ≡ done s')
              × (s'.effects ≡ write ip statement ∷ read_payload ip (length message) ∷ s.effects))
          × ((c2 : PollbookClient) × (drive x (got x laws a [] ∷ got x laws a statement ∷ []) c1
                ≡ start_checkin_request_write x a v c2)
              × (c2.in_flight ≡ [])
              × (c2.current_request_promise ≡ none)
              × (c2.current_request_voter_name ≡ name)
              × (c2.checkin_service_verifier ≡ c.checkin_service_verifier))
  unfolding start send
  identity_round_trip name n voter_id_data signature id_signature verifier id_verifier c s idle ci
        ts fits small parses parses_statement correct id_correct connected id_known signs fresh
        is_voter named known states writes =
      let (c1, _, _, served) =
        voter_identified x laws st a ai ip name n voter_id_data signature id_signature verifier c s
          ci ts fits small parses correct connected signs fresh is_voter named known states
          writes in
      let waiting : PollbookClient = having_sent name n voter_id_data signature c in
      let v : VerifiedVoterId = stated name n voter_id_data signature id_signature in
      let message : Text = x.dump (voter_id_request_to_json x v.presented_id) in
      (
        start id_write waiting,
        asks name n voter_id_data signature c connected signs,
        ap (λ bytes. (id_server, bytes) ∷ c.sent) (frame-lines message),
        served,
        (
          waiting,
          statement_arrives (statement_message x v.presented_id n id_signature) waiting
              ∙ statement_relayed x laws a s.signer id_verifier v waiting ((ci, ts), fits) id_known
                  id_correct states parses_statement,
          idle,
          refl,
          refl,
          refl,
        ),
      )
