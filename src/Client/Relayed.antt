-- ===== src/Client/Relayed.antt =====
-- PollbookClient::start_message_read and handle_id_response on what the ID service sends.
use pollbook_server.Prelude.{◌≡◌, some, Text}
use pollbook_server.Run.{done}
use pollbook_server.External.{External, ExternalLaws, valid}
use pollbook_server.Signature.{Signer, Verifier, sign_text}
use pollbook_server.Messages.VoterId.{VerifiedVoterId, id_statement, verified_voter_id_to_json}
use pollbook_server.Messages.RoundTrip.{IsVerifiedVoterId, verified_voter_id_round_trip}
use pollbook_server.Checkin.Network.{received}
use pollbook_server.IdService.Statements.{statement_message, sign-verify}
use pollbook_server.Client.{PollbookClient, ClientAmbient}
use pollbook_server.Client.Requests.{
  id_message_read, handle_id_response, start_checkin_request_write,
}

module _ (x : External) (laws : ExternalLaws x) where
  -- A statement as the ID service writes it, on a voter and a request whose numbers fit their
  -- types, makes the client that has the service's public key go on to the check-in request with
  -- this very statement, if the parser inverts the serializer on it and the signatures of EVP are
  -- correct for this pair of keys.
  pub statement_relayed :
      (a : ClientAmbient) (signer : Signer) (verifier : Verifier) (v : VerifiedVoterId)
      (c : PollbookClient)
      → IsVerifiedVoterId v
      → c.id_service_verifier ≡ some verifier
      → ((t sig : Text)
          → x.digest_sign signer.private_key t ≡ some sig
          → x.digest_verify verifier.public_key t sig ≡ valid)
      → sign_text x (x.dump (id_statement x v.presented_id v.voter_unique_id)) signer
        ≡ done v.id_service_signature
      → let bytes = statement_message x v.presented_id v.voter_unique_id v.id_service_signature in
        x.parse bytes ≡ some (verified_voter_id_to_json x v)
        → id_message_read x a (received bytes) c ≡ start_checkin_request_write x a v c
  unfolding id_message_read handle_id_response
  statement_relayed a signer verifier v c fits known correct states parses = rw (
    parses,
    verified_voter_id_round_trip x laws v fits,
    known,
    sign-verify x signer verifier _ v.id_service_signature correct states,
  )
