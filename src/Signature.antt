-- ===== src/Signature.antt =====
-- src/openssl/signature.cpp: signers and verifiers, whose digest context keeps the bytes fed in so
-- far. A failure of an EVP function throws openssl_error.
use pollbook_server.Prelude.{
  ◌≡◌, Bool, true, false, [], ◌++◌, Text, List, [], ◌∷◌, concat, append-nil, append_assoc, ◌∙◌,
}
use pollbook_server.Run.{Run, done, throws, or_throw}
use pollbook_server.External.{External, VerifyStatus, valid, mismatch, failed}

-- Keys are named by their encoding.
pub record Signer : Type 0 where
  pub private_key : Text
  pub fed : Text

pub record Verifier : Type 0 where
  pub public_key : Text
  pub fed : Text

unfoldable pub new_signer : Text → Signer
new_signer key = record { private_key = key; fed = [] }

unfoldable pub new_verifier : Text → Verifier
new_verifier key = record { public_key = key; fed = [] }

unfoldable pub signer_init : Signer → Signer
signer_init s = record s { fed = [] }

unfoldable pub signer_add_bytes : Text → Signer → Signer
signer_add_bytes bytes s = record s { fed = s.fed ++ bytes }

unfoldable pub verifier_init : Verifier → Verifier
verifier_init v = record v { fed = [] }

unfoldable pub verifier_add_bytes : Text → Verifier → Verifier
verifier_add_bytes bytes v = record v { fed = v.fed ++ bytes }

-- if(status == 1) … else if(status == 0) … else throw
unfoldable pub on_status : VerifyStatus → Run Bool
on_status valid = done true
on_status mismatch = done false
on_status failed = throws

unfoldable pub verifier_add_all : List Text → Verifier → Verifier
verifier_add_all [] v = v
verifier_add_all (piece ∷ pieces) v = verifier_add_all pieces (verifier_add_bytes piece v)

add_all-fed :
    (pieces : List Text) (v : Verifier)
    → verifier_add_all pieces v ≡ record v { fed = v.fed ++ concat pieces }
unfolding verifier_add_all verifier_add_bytes
add_all-fed [] v = rw (append-nil v.fed)
add_all-fed (piece ∷ pieces) v =
    add_all-fed pieces (verifier_add_bytes piece v) ∙ rw (append_assoc v.fed piece (concat pieces))

module _ (x : External) where
  unfoldable pub signer_finalize : Signer → Run Text
  signer_finalize s = or_throw (x.digest_sign s.private_key s.fed)

  unfoldable pub sign_bytes : Text → Signer → Run Text
  unfolding signer_init signer_add_bytes
  sign_bytes bytes s =
      or_throw (x.digest_sign s.private_key (signer_add_bytes bytes (signer_init s)).fed)

  unfoldable pub verifier_finalize : Text → Verifier → Run Bool
  unfolding on_status
  verifier_finalize signature v = on_status (x.digest_verify v.public_key v.fed signature)

  unfoldable pub verify_bytes : Text → Text → Verifier → Run Bool
  unfolding on_status
  verify_bytes bytes signature v = on_status (x.digest_verify v.public_key bytes signature)

  -- init, add_bytes, finalize, as every service uses a signer
  unfoldable pub sign_text : Text → Signer → Run Text
  unfolding signer_init signer_add_bytes signer_finalize
  sign_text bytes s = signer_finalize (signer_add_bytes bytes (signer_init s))

  -- init, add_bytes, finalize, as every service uses a verifier
  unfoldable pub verify_text : Text → Text → Verifier → Run Bool
  unfolding verifier_init verifier_add_bytes verifier_finalize
  verify_text bytes signature v =
      verifier_finalize signature (verifier_add_bytes bytes (verifier_init v))

  -- Whatever was fed in before, init, the pieces of a message in any cut, and finalize give what
  -- verify_bytes gives of the whole message.
  pub verify_pieces :
      (v : Verifier) (pieces : List Text) (signature : Text)
      → verifier_finalize signature (verifier_add_all pieces (verifier_init v))
        ≡ verify_bytes (concat pieces) signature v
  unfolding verifier_finalize verifier_init verify_bytes
  verify_pieces v pieces signature = rw (add_all-fed pieces (verifier_init v))
