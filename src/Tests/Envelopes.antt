-- ===== src/Tests/Envelopes.antt =====
-- A message in an envelope, with the toy ciphers.
use pollbook_server.Prelude.{ℕ, ◌≡◌, refl, [], ◌∷◌, arith, Text}
use pollbook_server.Envelope.Calls.{returned, aborted}
use pollbook_server.Envelope.Buffer.{first_bytes, bytes_from, zeros, overwrite, write_at}
use pollbook_server.Envelope.{
  CipherAlgorithm, aes128_cbc, aes128_ctr, EnvelopeEncryptor, EnvelopeDecryptor,
  get_cipher_type_ptr, new_encryptor, new_decryptor, get_iv_size, get_cipher_block_size,
  compute_output_buffer_size, encryptor_init, encrypt_bytes, encryptor_finalize,
  make_encrypted_message, decryptor_init, decrypt_bytes, decryptor_finalize, open_message,
}
use pollbook_server.Envelope.Layout.{stream_message_aborts}
use pollbook_server.Envelope.Trip.{envelope_round_trip}
use pollbook_server.Samples.Ciphers.{
  toy_ciphers, padding, last_byte, seal_blocks, seal_rest, open_blocks, open_rest,
}

envelope_functions : ℕ
unfolding first_bytes bytes_from zeros overwrite write_at get_cipher_type_ptr new_encryptor
    new_decryptor get_iv_size get_cipher_block_size compute_output_buffer_size encryptor_init
    encrypt_bytes encryptor_finalize make_encrypted_message decryptor_init decrypt_bytes
    decryptor_finalize open_message padding last_byte seal_blocks seal_rest open_blocks open_rest
envelope_functions = 0

abbrev ballot : Text
ballot = 10 ∷ 20 ∷ 30 ∷ 40 ∷ 50 ∷ []

abbrev envelope : CipherAlgorithm → EnvelopeEncryptor toy_ciphers
unfolding envelope_functions
envelope algorithm = new_encryptor toy_ciphers (7 ∷ []) algorithm

abbrev opener : CipherAlgorithm → EnvelopeDecryptor toy_ciphers
unfolding envelope_functions
opener algorithm = new_decryptor toy_ciphers (8 ∷ []) algorithm

sealed_ballot :
    make_encrypted_message toy_ciphers (9 ∷ 9 ∷ []) ballot (envelope aes128_cbc)
    ≡ returned (
      1 ∷ 2 ∷ 3 ∷ 9 ∷ 9 ∷ 10 ∷ 20 ∷ 30 ∷ 40 ∷ 50 ∷ 3 ∷ 3 ∷ 3 ∷ [],
      record (envelope aes128_cbc) { cipher_context = 4 ∷ [] },
    )
unfolding envelope_functions
sealed_ballot = refl

stream_message_aborts_example :
    make_encrypted_message toy_ciphers (9 ∷ 9 ∷ []) ballot (envelope aes128_ctr) ≡ aborted
unfolding envelope_functions
stream_message_aborts_example =
    stream_message_aborts toy_ciphers (envelope aes128_ctr) (9 ∷ 9 ∷ []) ballot (1 ∷ 2 ∷ 3 ∷ [])
      (9 ∷ 9 ∷ []) ballot (1 ∷ [])
      (record {
        c0 = [];
        c1 = 1 ∷ [];
        c2 = 1 ∷ [];
        resets = refl;
        starts = refl;
        updates = refl;
        finishes = refl;
        has_key_size = refl;
        has_iv_size = refl;
        is_whole_blocks = refl;
      })
      refl (omega arith) (omega arith)

envelope_round_trip_example :
    (message : Text) × (s' : EnvelopeEncryptor toy_ciphers) × (make_encrypted_message toy_ciphers
        (9 ∷ 9 ∷ [])
        ballot
        (envelope aes128_cbc)
      ≡ returned (message, s'))
    × (open_message toy_ciphers message (opener aes128_cbc) ≡ returned ballot)
unfolding envelope_functions
envelope_round_trip_example =
    envelope_round_trip toy_ciphers (envelope aes128_cbc) (opener aes128_cbc) (9 ∷ 9 ∷ []) ballot
      (1 ∷ 2 ∷ 3 ∷ []) (9 ∷ 9 ∷ []) (10 ∷ 20 ∷ 30 ∷ 40 ∷ []) (50 ∷ 3 ∷ 3 ∷ 3 ∷ []) (4 ∷ [])
      (record {
        c0 = [];
        c1 = 4 ∷ [];
        c2 = 4 ∷ 50 ∷ [];
        resets = refl;
        starts = refl;
        updates = refl;
        finishes = refl;
        has_key_size = refl;
        has_iv_size = refl;
        is_whole_blocks = refl;
      })
      (record {
        front = 10 ∷ 20 ∷ 30 ∷ 40 ∷ [];
        back = 50 ∷ [];
        c0 = [];
        c1 = 4 ∷ [];
        c2 = 4 ∷ 50 ∷ 3 ∷ 3 ∷ 3 ∷ [];
        c3 = 4 ∷ [];
        resets = refl;
        starts = refl;
        updates = refl;
        finishes = refl;
        is_plain = refl;
      })
      refl refl refl (omega arith) (omega arith)
