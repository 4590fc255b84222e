-- ===== src/IdService/Validation.antt =====
-- VoterIDService::handle_validation_request.
use pollbook_server.Prelude.{ℕ, ◌-◌, Bool, true, false, [], ◌∷◌, ◌++◌, if◌then◌else◌, nat_eq, ◌==◌}
use pollbook_server.Map.{lookup}
use pollbook_server.Run.{Run, done, throws, ◌>>=◌, or_throw}
use pollbook_server.Text.{u32_mod}
use pollbook_server.Freshness.{is_stale}
use pollbook_server.External.{External}
use pollbook_server.Signature.{sign_text, verify_text}
use pollbook_server.Messages.VoterId.{
  VoterIdRequest, voter_id_body_to_json, id_statement, verified_voter_id_to_json,
}
use pollbook_server.Checkin.State.{Endpoint, write, Settings}
use pollbook_server.IdService.{
  IdService, IdAmbient, validate_voter_name, validate_and_match_id_data, ensure_verifier,
}

abbrev pub invalid_voter_id : ℕ
invalid_voter_id = u32_mod - 1

module _ (x : External) (st : Settings) (a : IdAmbient) where
  -- The signed statement, and its response. asio::write throws where it fails.
  unfoldable pub send_verified_id : Endpoint → VoterIdRequest → ℕ → IdService → Run IdService
  send_verified_id client_ip r voter_id s = do
    signature ← sign_text x (x.dump (id_statement x r voter_id)) s.signer
    let message = x.dump (
        verified_voter_id_to_json x (record {
          presented_id = r;
          voter_unique_id = voter_id;
          id_service_signature = signature;
        }))
    if a.write_succeeds
        then done (record s { effects = write client_ip (message ++ 10 ∷ []) ∷ s.effects })
        else throws

  -- From the client's key on.
  unfoldable pub verify_client : Endpoint → VoterIdRequest → ℕ → IdService × Bool → Run IdService
  unfolding send_verified_id
  verify_client client_ip r voter_id (s, false) = done s
  verify_client client_ip r voter_id (s, true) = do
    verifier ← or_throw (lookup r.body.client_id_num s.client_verifiers)
    ok ← verify_text x (x.dump (voter_id_body_to_json x r.body)) r.client_signature verifier
    if ok then send_verified_id client_ip r voter_id s else done s

  unfoldable pub check_name : Endpoint → VoterIdRequest → ℕ → IdService → Run IdService
  unfolding verify_client
  check_name client_ip r voter_id s =
      if validate_voter_name r.body.first_name r.body.middle_name r.body.last_name voter_id s
      then (do k ← ensure_verifier a r.body.client_id_num s; verify_client client_ip r voter_id k)
      else done s

  -- Every rejection leaves the service as it was, and sends nothing.
  unfoldable pub handle_validation_request : Endpoint → VoterIdRequest → IdService → Run IdService
  unfolding check_name
  handle_validation_request client_ip r s =
      if is_stale a.now r.body.timestamp st.request_freshness_interval then done s else (do
        voter_id ← validate_and_match_id_data r.body.voter_id_data
        if voter_id == invalid_voter_id then done s else check_name client_ip r voter_id s)
