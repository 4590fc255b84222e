-- ===== src/Envelope/Trip.antt =====
-- EnvelopeEncryptor and EnvelopeDecryptor together: what the one seals, the other opens.
use native.Mathlib.Nat.{div-mul-le_self}
use pollbook_server.Prelude.{
  ℕ, ◌+◌, ◌^◌, ◌<◌, ◌≤◌, ◌≡◌, sym, ap, ◌∙◌, some, ◌++◌, arith, append_assoc, append-nil, Text,
  length, length-append,
}
use pollbook_server.Envelope.Calls.{returned}
use pollbook_server.Envelope.Buffer.{
  zeros, first_bytes-append, bytes_from-append, first_bytes-length,
}
use pollbook_server.Envelope.{
  Evp, EnvelopeEncryptor, EnvelopeDecryptor, get_cipher_type_ptr, get_iv_size,
  get_cipher_block_size, make_encrypted_message, decryptor_init, decrypt_bytes, decryptor_finalize,
  open_message,
}
use pollbook_server.Envelope.Layout.{as_int-small, Seals, message_layout}

module _ (e : Evp) where
  -- EVP opens the ciphertext: OpenUpdate and OpenFinal return the bytes that were encrypted.
  pub record Opens (d : EnvelopeDecryptor e) (encrypted_key iv ciphertext plain : Text)
      : Type 0 where
    pub front : Text
    pub back : Text
    pub c0 : e.Context
    pub c1 : e.Context
    pub c2 : e.Context
    pub c3 : e.Context
    pub resets : e.reset d.cipher_context ≡ some c0
    pub starts :
        e.open_init c0 (get_cipher_type_ptr e d.cipher_type) encrypted_key iv d.private_key
        ≡ some c1
    pub updates : e.open_update c1 ciphertext ≡ some (front, c2)
    pub finishes : e.open_final c2 ≡ some (back, c3)
    pub is_plain : front ++ back ≡ plain

  parts-open :
      (d : EnvelopeDecryptor e) (encrypted_key iv ciphertext plain : Text)
      → Opens d encrypted_key iv ciphertext plain
      → e.key_size d.private_key ≡ length encrypted_key
      → get_iv_size e d.cipher_type ≡ length iv
      → length ciphertext < 2 ^ 31
      → open_message e (encrypted_key ++ (iv ++ ciphertext)) d ≡ returned plain
  unfolding open_message decryptor_init decrypt_bytes decryptor_finalize
  parts-open d encrypted_key iv ciphertext plain opens key_size iv_size small = rw (
    key_size,
    iv_size,
    bytes_from-append encrypted_key (iv ++ ciphertext),
    bytes_from-append iv ciphertext,
    first_bytes-append encrypted_key (iv ++ ciphertext),
    first_bytes-append iv ciphertext,
    opens.resets,
    opens.starts,
    as_int-small ciphertext small,
    first_bytes-length ciphertext,
    opens.updates,
    opens.finishes,
    opens.is_plain,
  )

  regroup : (k i o l : Text) → k ++ i ++ o ++ l ++ zeros 0 ≡ k ++ (i ++ (o ++ l))
  unfolding zeros
  regroup k i o l =
      append-nil (k ++ i ++ o ++ l) ∙ append_assoc (k ++ i) o l ∙ append_assoc k i (o ++ l)

  -- Whatever the bytes, a message that is made with a block cipher, whose padding fills the last
  -- block, has the layout documented: the owner of the private key, with the same cipher, reads
  -- from it the bytes that were encrypted, if EVP opens what it has sealed and the sizes fit their
  -- types. So no byte is written past the end of the buffer, and none is left unwritten.
  pub envelope_round_trip :
      (s : EnvelopeEncryptor e) (d : EnvelopeDecryptor e)
      (random input encrypted_key iv output last : Text) (c : e.Context)
      → Seals e s random input encrypted_key iv output last c
      → Opens d encrypted_key iv (output ++ last) input
      → let b = get_cipher_block_size e s.cipher_type in
        length last ≡ b
        → d.cipher_type ≡ s.cipher_type
        → e.key_size d.private_key ≡ e.key_size s.public_key
        → length input + b < 2 ^ 31
        → length encrypted_key + length iv < 2 ^ 63
        → (message : Text) × (s' : EnvelopeEncryptor e) × (make_encrypted_message e random input s
            ≡ returned (message, s'))
          × (open_message e message d ≡ returned input)
  envelope_round_trip s d random input encrypted_key iv output last c seals opens fills same_cipher
        same_size small fits =
      let b : ℕ = get_cipher_block_size e s.cipher_type in
      let blocks : length output ≤ length input =
        rw seals.is_whole_blocks (div-mul-le_self (length input) b) in
      let cipher : Text = output ++ last in
      (
        encrypted_key ++ (iv ++ cipher),
        record s { cipher_context = c },
        message_layout e s random input encrypted_key iv output last 0 c seals
              (omega (arith, fills)) (omega arith) (omega arith)
            ∙ ap (λ m. returned (m, record s { cipher_context = c }))
                (regroup encrypted_key iv output last),
        parts-open d encrypted_key iv cipher input opens (same_size ∙ sym seals.has_key_size)
            (ap (get_iv_size e) same_cipher ∙ sym seals.has_iv_size)
            (omega (arith, length-append output last)),
      )
