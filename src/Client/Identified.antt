-- ===== src/Client/Identified.antt =====
-- PollbookClient::check_in_voter and VoterIDService::handle_validation_request together: what the one
-- sends is what the other answers.
use pollbook_server.Prelude.{
  ◌≡◌, refl, ap, ◌∙◌, ℕ, ◌<◌, ◌&&◌, true, false, some, none, [], ◌∷◌, ◌++◌, arith, ◌==◌, nat_eq,
  nat_beq_iff, Text, length,
}
use pollbook_server.Map.{lookup}
use pollbook_server.Freshness.{is_stale}
use pollbook_server.Text.{u32_mod, u64_mod}
use pollbook_server.Text.SizeLine.{stoul-size_line}
use pollbook_server.Run.{done}
use pollbook_server.External.{External, ExternalLaws, valid}
use pollbook_server.Signature.{Verifier, sign_text}
use pollbook_server.Messages.VoterId.{
  VoterIdRequest, voter_id_body_to_json, voter_id_request_to_json, id_statement,
}
use pollbook_server.Messages.RoundTrip.{voter_id_request_round_trip}
use pollbook_server.Checkin.State.{Endpoint, Settings, write, read_payload}
use pollbook_server.Checkin.Network.{received}
use pollbook_server.Checkin.Requests.{frame}
use pollbook_server.IdService.{
  IdService, IdAmbient, ensure_verifier, validate_and_match_id_data, validate_voter_name,
}
use pollbook_server.IdService.Validation.{invalid_voter_id, handle_validation_request}
use pollbook_server.IdService.Statements.{statement_message, statement_complete, sign-verify}
use pollbook_server.IdService.Network.{
  size_read, payload_read, emit, handle_size_read, handle_payload_read, step, run,
}
use pollbook_server.Client.{
  id_server, id_write, VoterName, PollbookClient, ClientAmbient, start, send, little_endian,
}
use pollbook_server.Client.Lines.{size_line, payload_line, frame-lines, length-payload_line}
use pollbook_server.Client.Requests.{
  id_request_body, start_id_request_write, check_in_with_data, check_in_voter,
}

-- memcpy to the client's data and memcpy from them.
match-little_endian :
    (n : ℕ) (rest : Text)
    → n < u32_mod
    → validate_and_match_id_data (little_endian n ++ rest) ≡ done n
unfolding validate_and_match_id_data little_endian
match-little_endian n rest h = ap done (omega arith)

module _ (x : External) (st : Settings) (ai : IdAmbient) (ip : Endpoint) where
  size_line-read :
      (message : Text) (s : IdService)
      → length message < u64_mod
      → handle_size_read x st ai ip (received (size_line message)) s
        ≡ done (emit (read_payload ip (length message)) s)
  unfolding handle_size_read
  size_line-read message s h = rw (stoul-size_line (length message) h)

  payload_line-read :
      (laws : ExternalLaws x) (r : VoterIdRequest) (s : IdService)
      → r.body.client_id_num < u32_mod
      → r.body.timestamp < u64_mod
      → let message = x.dump (voter_id_request_to_json x r) in
        x.parse (payload_line message) ≡ some (voter_id_request_to_json x r)
        → handle_payload_read x st ai ip (length message) (received (payload_line message)) s
          ≡ handle_validation_request x st ai ip r s
  unfolding handle_payload_read
  payload_line-read laws r s ci ts parses =
      let message : Text = x.dump (voter_id_request_to_json x r) in
      rw (
        length-payload_line message,
        (nat_beq_iff (length message) (length message)).1 refl,
        parses,
        voter_id_request_round_trip x laws r (ci, ts),
      )

module _ (x : External) (laws : ExternalLaws x) (st : Settings) (a : ClientAmbient) (ai : IdAmbient)
    (ip : Endpoint) where
  -- The request that a client with this signature sends.
  abbrev pub presented : VoterName → ℕ → Text → Text → VoterIdRequest
  presented name n voter_id_data signature = record {
    body = record {
      client_id_num = a.client_id;
      timestamp = a.now;
      last_name = name.last_name;
      middle_name = name.middle_name;
      first_name = name.first_name;
      voter_id_data = little_endian n ++ voter_id_data;
    };
    client_signature = signature;
  }

  check_in_sends :
      (name : VoterName) (n : ℕ) (voter_id_data signature : Text) (c : PollbookClient)
      → (c.checkin_connected && c.id_connected) ≡ true
      → let r = presented name n voter_id_data signature in
        sign_text x (x.dump (voter_id_body_to_json x r.body)) c.private_key_signer ≡ done signature
        → (c1 : PollbookClient) × (check_in_voter x a name n voter_id_data c ≡ done c1)
          × (c1.sent ≡ (id_server, frame (x.dump (voter_id_request_to_json x r))) ∷ c.sent)
  unfolding check_in_voter check_in_with_data start_id_request_write id_request_body start send
  check_in_sends name n voter_id_data signature c connected signs = (
    start id_write (
        send id_server
          (frame (x.dump (voter_id_request_to_json x (presented name n voter_id_data signature))))
          (record c { current_request_promise = none; current_request_voter_name = name })),
    rw (connected, signs),
    refl,
  )

  -- What check_in_voter sends is read by the ID service as the size and the message that were sent,
  -- and is answered with a signed statement on the very voter that the client asked for. This holds
  -- of every voter number, name and other data, if the time stamp is fresh where the message
  -- arrives, the voter list has the number under the name, the service knows a key that verifies
  -- what the client signs, the parser inverts the serializer on the message, and signing and
  -- writing work.
  pub voter_identified :
      (name : VoterName) (n : ℕ) (voter_id_data signature id_signature : Text) (verifier : Verifier)
      (c : PollbookClient) (s : IdService)
      → let r = presented name n voter_id_data signature in
        let message = x.dump (voter_id_request_to_json x r) in
        a.client_id < u32_mod
        → a.now < u64_mod
        → n < u32_mod
        → length message < u64_mod
        → x.parse (payload_line message) ≡ some (voter_id_request_to_json x r)
        → ((t sig : Text)
            → x.digest_sign c.private_key_signer.private_key t ≡ some sig
            → x.digest_verify verifier.public_key t sig ≡ valid)
        → (c.checkin_connected && c.id_connected) ≡ true
        → sign_text x (x.dump (voter_id_body_to_json x r.body)) c.private_key_signer
          ≡ done signature
        → is_stale ai.now a.now st.request_freshness_interval ≡ false
        → (n == invalid_voter_id) ≡ false
        → validate_voter_name name.first_name name.middle_name name.last_name n s ≡ true
        → lookup a.client_id s.client_verifiers ≡ some verifier
        → sign_text x (x.dump (id_statement x r n)) s.signer ≡ done id_signature
        → ai.write_succeeds ≡ true
        → (c1 : PollbookClient) × (check_in_voter x a name n voter_id_data c ≡ done c1)
          × (c1.sent ≡ (id_server, size_line message ++ payload_line message) ∷ c.sent)
          × ((s' : IdService) × (run x st
                  ((ai, size_read ip (received (size_line message)))
                    ∷ (ai, payload_read ip (length message) (received (payload_line message)))
                    ∷ [])
                  s
                ≡ done s')
              × (s'.effects
                  ≡ write ip (statement_message x r n id_signature)
                    ∷ read_payload ip (length message)
                    ∷ s.effects))
  unfolding run step emit ensure_verifier validate_voter_name
  voter_identified name n voter_id_data signature id_signature verifier c s ci ts fits small parses
        correct connected signs fresh is_voter named known states writes =
      let r : VoterIdRequest = presented name n voter_id_data signature in
      let message : Text = x.dump (voter_id_request_to_json x r) in
      let s1 : IdService = emit (read_payload ip (length message)) s in
      let (c1, starts, sends) = check_in_sends name n voter_id_data signature c connected signs in
      let (s', answers, says) =
        statement_complete x st ai ip r s1 n id_signature
          (record {
            fresh = fresh;
            matched = match-little_endian n voter_id_data fits;
            is_voter = is_voter;
            named = named;
            keyed = s1;
            has_key = rw (known, ensure_verifier);
            verifier = verifier;
            is_verifier = known;
            signed = sign-verify x c.private_key_signer verifier _ signature correct signs;
          })
          states writes in
      (
        c1,
        starts,
        sends ∙ ap (λ bytes. (id_server, bytes) ∷ c.sent) (frame-lines message),
        (
          s',
          rw (
            size_line-read x st ai ip message s small,
            payload_line-read x st ai ip laws r s1 ci ts parses,
            answers,
          ),
          says,
        ),
      )
