-- ===== src/IdService/Statements.antt =====
-- VoterIDService::handle_validation_request and CheckinService::validate_client_request: the statements
-- that the one signs and the other tests.
use pollbook_server.Prelude.{
  ◌≡◌, refl, ap, ◌∙◌, ◌≢◌, ◌⊎◌, inl, inr, ℕ, Bool, true, false, Option-cases, some, ◌∷◌, [], ◌++◌,
  ◌==◌, nat_eq, Text,
}
use pollbook_server.Map.{lookup}
use pollbook_server.Freshness.{is_stale}
use pollbook_server.Run.{
  done, or_throw, Ensures, Ensures-bind, Ensures-if, Ensures-eq, or_throw-eq-done,
}
use pollbook_server.External.{External, valid}
use pollbook_server.Signature.{Signer, Verifier, sign_text, verify_text}
use pollbook_server.Messages.VoterId.{
  VoterIdRequest, voter_id_body_to_json, id_statement, verified_voter_id_to_json,
}
use pollbook_server.Checkin.State.{Endpoint, write, Settings}
use pollbook_server.IdService.{
  IdService, IdAmbient, validate_voter_name, validate_and_match_id_data, ensure_verifier,
  load_client_public_key, KeyFile, key, no_key, no_file,
}
use pollbook_server.IdService.Validation.{
  invalid_voter_id, send_verified_id, verify_client, check_name, handle_validation_request,
}

-- Every condition that a request has to meet, to be told that it shows the voter `v`.
pub record Identifies (x : External) (st : Settings) (a : IdAmbient) (r : VoterIdRequest)
    (s : IdService) (v : ℕ) : Type 0 where
  pub fresh : is_stale a.now r.body.timestamp st.request_freshness_interval ≡ false
  -- the presented data hold the number of a voter
  pub matched : validate_and_match_id_data r.body.voter_id_data ≡ done v
  pub is_voter : (v == invalid_voter_id) ≡ false
  -- the voter list has this number under the names given
  pub named : validate_voter_name r.body.first_name r.body.middle_name r.body.last_name v s ≡ true
  -- the client's key is in memory or can be loaded, and verifies the signature on the body
  pub keyed : IdService
  pub has_key : ensure_verifier a r.body.client_id_num s ≡ done (keyed, true)
  pub verifier : Verifier
  pub is_verifier : lookup r.body.client_id_num keyed.client_verifiers ≡ some verifier
  pub signed :
      verify_text x (x.dump (voter_id_body_to_json x r.body)) r.client_signature verifier
      ≡ done true

-- Loading a key leaves the signer alone, and starts nothing.
loaded_frame :
    (id : ℕ) (file : KeyFile) (s : IdService)
    → Ensures
        (λ p. (p.0.signer ≡ s.signer) × (p.0.effects ≡ s.effects))
        (load_client_public_key id file s)
unfolding load_client_public_key
loaded_frame id (key k) s = (refl, refl)
loaded_frame id no_key s = (refl, refl)
loaded_frame id no_file s = tt

keyed_frame :
    (a : IdAmbient) (id : ℕ) (s : IdService)
    → Ensures (λ p. (p.0.signer ≡ s.signer) × (p.0.effects ≡ s.effects)) (ensure_verifier a id s)
unfolding ensure_verifier
keyed_frame a id s = elim (Option-cases (lookup id s.client_verifiers)) [
  | inl e ↦ rw (e, ensure_verifier, Ensures) (loaded_frame id (a.key_file id) s)
  | inr (v, e) ↦ rw (e, ensure_verifier, Ensures) (refl, refl)
]

module _ (x : External) where
  -- The response that carries the signed statement.
  abbrev pub statement_message : VoterIdRequest → ℕ → Text → Text
  statement_message r v signature =
      x.dump (
        verified_voter_id_to_json x
          (record { presented_id = r; voter_unique_id = v; id_service_signature = signature }))
      ++ 10 ∷ []

  -- A write to the client of a statement on the voter `v`, signed by the service.
  abbrev pub Stated :
      Settings → IdAmbient → Endpoint → VoterIdRequest → IdService → IdService → Type 0
  Stated st a ip r s s' =
      (v : ℕ) × (signature : Text) × Identifies x st a r s v
      × (sign_text x (x.dump (id_statement x r v)) s.signer ≡ done signature)
      × (s'.effects ≡ write ip (statement_message r v signature) ∷ s.effects)

module _ (x : External) (st : Settings) (a : IdAmbient) (ip : Endpoint) (r : VoterIdRequest)
    (s : IdService) where
  -- Nothing is sent, or a statement.
  abbrev Answered : IdService → Type 0
  Answered s' = (s'.effects ≡ s.effects) ⊎ Stated x st a ip r s s'

  verify_client_cases :
      (v : ℕ) (k : IdService) (ok : Bool)
      → k.signer ≡ s.signer
      → k.effects ≡ s.effects
      → ((verifier : Verifier)
          → ok ≡ true
          → lookup r.body.client_id_num k.client_verifiers ≡ some verifier
          → verify_text x (x.dump (voter_id_body_to_json x r.body)) r.client_signature verifier
            ≡ done true
          → Identifies x st a r s v)
      → Ensures Answered (verify_client x st a ip r v (k, ok))
  unfolding verify_client send_verified_id
  verify_client_cases v k false same_signer same_effects found = inl same_effects
  verify_client_cases v k true same_signer same_effects found =
      Ensures-bind Answered (or_throw (lookup r.body.client_id_num k.client_verifiers)) _
        λ verifier known.
          Ensures-bind Answered (verify_text x _ r.client_signature verifier) _ λ ok verified.
            Ensures-if Answered ok _ _
              (λ is_ok.
                Ensures-bind Answered (sign_text x (x.dump (id_statement x r v)) k.signer) _
                  λ signature signs.
                    Ensures-if Answered a.write_succeeds _ _
                      (λ _. inr (
                        v,
                        signature,
                        found verifier refl (or_throw-eq-done _ verifier known)
                            (verified ∙ ap done is_ok),
                        rw (← same_signer) signs,
                        ap (λ es. write ip (statement_message x r v signature) ∷ es) same_effects,
                      ))
                      (λ _. tt))
              (λ _. inl same_effects)

  validation_cases : Ensures Answered (handle_validation_request x st a ip r s)
  unfolding handle_validation_request check_name
  validation_cases =
      Ensures-if Answered (is_stale a.now r.body.timestamp st.request_freshness_interval) _ _
        (λ _. inl refl)
        (λ fresh.
          Ensures-bind Answered (validate_and_match_id_data r.body.voter_id_data) _ λ v matched.
            Ensures-if Answered (v == invalid_voter_id) _ _ (λ _. inl refl)
              (λ is_voter.
                Ensures-if Answered
                  (validate_voter_name r.body.first_name r.body.middle_name r.body.last_name v s) _
                  _
                  (λ named.
                    Ensures-bind Answered (ensure_verifier a r.body.client_id_num s) _ λ k has_key.
                      let (same_signer, same_effects) =
                        Ensures-eq _ _ k has_key (keyed_frame a r.body.client_id_num s) in
                      verify_client_cases v k.0 k.1 same_signer same_effects
                        (λ verifier ok known signed. record {
                          fresh = fresh;
                          matched = matched;
                          is_voter = is_voter;
                          named = named;
                          keyed = k.0;
                          has_key = has_key ∙ ap (λ b. done (k.0, b)) ok;
                          verifier = verifier;
                          is_verifier = known;
                          signed = signed;
                        }))
                  (λ _. inl refl)))

  -- Whatever the ID service sends in answer to a request is a statement that it signed on a voter
  -- whom the request identifies: the time stamp is fresh, the presented data hold the voter's
  -- number, the voter list has the number under the names given, and the client's signature on the
  -- body is valid.
  pub statement_sound :
      (s' : IdService)
      → handle_validation_request x st a ip r s ≡ done s'
      → s'.effects ≢ s.effects
      → Stated x st a ip r s s'
  statement_sound s' h changed = elim (Ensures-eq Answered _ s' h validation_cases) [
    | inl same ↦ absurd (changed same)
    | inr stated ↦ stated
  ]

  -- Conversely a request that identifies a voter is answered with the signed statement, if signing
  -- and writing work.
  pub statement_complete :
      (v : ℕ) (signature : Text)
      → Identifies x st a r s v
      → sign_text x (x.dump (id_statement x r v)) s.signer ≡ done signature
      → a.write_succeeds ≡ true
      → (s' : IdService) × (handle_validation_request x st a ip r s ≡ done s')
        × (s'.effects ≡ write ip (statement_message x r v signature) ∷ s.effects)
  unfolding handle_validation_request check_name verify_client send_verified_id
  statement_complete v signature h signs writes =
      let (same_signer, same_effects) =
        Ensures-eq _ _ _ h.has_key (keyed_frame a r.body.client_id_num s) in
      (
        record h.keyed { effects = write ip (statement_message x r v signature) ∷ h.keyed.effects },
        rw (
          h.fresh, h.matched, h.is_voter, h.named, h.has_key, h.is_verifier, h.signed, same_signer,
          signs, writes,
        ),
        rw same_effects,
      )

module _ (x : External) where
  -- What a signer signs, a verifier of the matching public key accepts, if the signatures of EVP
  -- are correct for this pair of keys.
  pub sign-verify :
      (signer : Signer) (verifier : Verifier) (bytes signature : Text)
      → ((t sig : Text)
          → x.digest_sign signer.private_key t ≡ some sig
          → x.digest_verify verifier.public_key t sig ≡ valid)
      → sign_text x bytes signer ≡ done signature
      → verify_text x bytes signature verifier ≡ done true
  unfolding sign_text verify_text
  sign-verify signer verifier bytes signature correct signs =
      rw (correct bytes signature (or_throw-eq-done _ signature signs))
