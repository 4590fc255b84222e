-- ===== src/IdService/Accepted.antt =====
-- What the ID service signs, as CheckinService::validate_client_request tests it.
use pollbook_server.Prelude.{◌≡◌, ◌≢◌, some, ◌∷◌, [], ◌++◌, nat_eq, Text}
use pollbook_server.Run.{done}
use pollbook_server.External.{External, valid}
use pollbook_server.Signature.{Signer, sign_text}
use pollbook_server.Messages.VoterId.{
  VoterIdRequest, id_statement, verified_voter_id_to_json, VerifiedVoterId,
}
use pollbook_server.Messages.Checkin.{CheckinRequest}
use pollbook_server.Checkin.State.{Endpoint, write, Settings, Ambient, Service}
use pollbook_server.Checkin.Requests.{validate_id_signature, validate_claims}
use pollbook_server.IdService.{IdService, IdAmbient}
use pollbook_server.IdService.Validation.{handle_validation_request}
use pollbook_server.IdService.Statements.{statement_sound, sign-verify}

module _ (x : External) where
  accepts :
      (st : Settings) (a : Ambient) (signer : Signer) (s : Service) (r : CheckinRequest)
      → ((t sig : Text)
          → x.digest_sign signer.private_key t ≡ some sig
          → x.digest_verify s.id_service_verifier.public_key t sig ≡ valid)
      → let m = r.body.verified_id_message in
        sign_text x (x.dump (id_statement x m.presented_id m.voter_unique_id)) signer
          ≡ done m.id_service_signature
        → validate_id_signature x st a r s ≡ done (validate_claims x st a r s)
  unfolding validate_id_signature
  accepts st a signer s r correct signs =
      rw (sign-verify x signer s.id_service_verifier _ _ correct signs)

  -- The check-in request with this identity.
  abbrev pub carrying : VerifiedVoterId → CheckinRequest → CheckinRequest
  carrying v q = record q { body = record q.body { verified_id_message = v } }

  -- Whatever the ID service sends in answer to a request is an identity that passes the check-in
  -- service's test of its signature, in every check-in request that carries it, if the check-in
  -- service has the matching public key and the signatures of EVP are correct for this pair of keys.
  pub statement_accepted :
      (st : Settings) (ai : IdAmbient) (ip : Endpoint) (r : VoterIdRequest) (s s' : IdService)
      (a : Ambient) (t : Service) (q : CheckinRequest)
      → ((bytes sig : Text)
          → x.digest_sign s.signer.private_key bytes ≡ some sig
          → x.digest_verify t.id_service_verifier.public_key bytes sig ≡ valid)
      → handle_validation_request x st ai ip r s ≡ done s'
      → s'.effects ≢ s.effects
      → (v : VerifiedVoterId) × (s'.effects
          ≡ write ip (x.dump (verified_voter_id_to_json x v) ++ 10 ∷ []) ∷ s.effects)
        × (validate_id_signature x st a (carrying v q) t
            ≡ done (validate_claims x st a (carrying v q) t))
  statement_accepted st ai ip r s s' a t q correct handles changed =
      let (n, signature, _, signs, writes) = statement_sound x st ai ip r s s' handles changed in
      let v : VerifiedVoterId = record {
        presented_id = r;
        voter_unique_id = n;
        id_service_signature = signature;
      } in
      (v, writes, accepts st a s.signer t (carrying v q) correct signs)
