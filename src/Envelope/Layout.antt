-- ===== src/Envelope/Layout.antt =====
-- EnvelopeEncryptor::make_encrypted_message: the layout of the message, and the size reserved for
-- it.
use pollbook_server.Prelude.{
  ℕ, ◌+◌, ◌*◌, ◌/◌, ◌%◌, ◌^◌, ◌<◌, ◌≡◌, refl, sym, some, [], ◌++◌, ◌==◌, nat_eq, nat_beq_iff, arith,
  Text, length, length-append,
}
use pollbook_server.Text.{u64_mod}
use pollbook_server.Envelope.Calls.{aborted, assert_then}
use pollbook_server.Envelope.Buffer.{zeros, first_bytes-length, write_at-next, zeros-add}
use pollbook_server.Envelope.{
  Evp, as_int, EnvelopeEncryptor, get_cipher_type_ptr, get_iv_size, get_cipher_block_size,
  compute_output_buffer_size, encryptor_init, encrypt_bytes, encryptor_finalize,
  make_encrypted_message,
}

-- The buffer, part by part.
zeros-parts :
    (k i o l r : ℕ)
    → zeros (k + (i + (o + (l + r)))) ≡ zeros k ++ (zeros i ++ (zeros o ++ (zeros l ++ zeros r)))
zeros-parts k i o l r =
    rw (
      zeros-add k (i + (o + (l + r))),
      zeros-add i (o + (l + r)),
      zeros-add o (l + r),
      zeros-add l r,
    )

pub as_int-small : (xs : Text) → length xs < 2 ^ 31 → as_int (length xs) ≡ some (length xs)
as_int-small xs h = ground arith

-- The size that the encryptor computes.
total_size :
    (k i n b o l r : ℕ)
    → o ≡ n / b * b
    → l + r ≡ b
    → k + (i + (o + b)) < u64_mod
    → (k + i + (n / b * b + b) % u64_mod) % u64_mod ≡ k + (i + (o + (l + r)))
total_size k i n b o l r ho hb h = omega arith

same_size : (k i o l r : ℕ) → ((i + k + o + l) == (k + (i + (o + (l + r))))) ≡ (r == 0)
same_size k i o l r = ground arith

module _ (e : Evp) (s : EnvelopeEncryptor e) (random input : Text) where
  -- What EVP does for this message: the encrypted key, the IV, and the ciphertext in the parts that
  -- SealUpdate and SealFinal return. The sizes are those of its manual: the key and the IV have the
  -- sizes that it tells, and SealUpdate returns the whole blocks of its input.
  pub record Seals (encrypted_key iv output last : Text) (c : e.Context) : Type 0 where
    pub c0 : e.Context
    pub c1 : e.Context
    pub c2 : e.Context
    pub resets : e.reset s.cipher_context ≡ some c0
    pub starts :
        e.seal_init c0 (get_cipher_type_ptr e s.cipher_type) s.public_key random
        ≡ some (encrypted_key, iv, c1)
    pub updates : e.seal_update c1 input ≡ some (output, c2)
    pub finishes : e.seal_final c2 ≡ some (last, c)
    pub has_key_size : length encrypted_key ≡ e.key_size s.public_key
    pub has_iv_size : length iv ≡ get_iv_size e s.cipher_type
    pub is_whole_blocks :
        length output
        ≡ length input
          / get_cipher_block_size e s.cipher_type
          * get_cipher_block_size e s.cipher_type

  -- The message, with the room at its end that is reserved and not written.
  pub message_layout :
      (encrypted_key iv output last : Text) (room : ℕ) (c : e.Context)
      → Seals encrypted_key iv output last c
      → let b = get_cipher_block_size e s.cipher_type in
        length last + room ≡ b
        → length input < 2 ^ 31
        → length encrypted_key + (length iv + (length output + b)) < u64_mod
        → make_encrypted_message e random input s
          ≡ assert_then
              (room == 0)
              (encrypted_key ++ iv ++ output ++ last ++ zeros room, record s { cipher_context = c })
  unfolding make_encrypted_message encryptor_init encrypt_bytes encryptor_finalize
      compute_output_buffer_size
  message_layout encrypted_key iv output last room c seals rooms small fits =
      let b : ℕ = get_cipher_block_size e s.cipher_type in
      let k : ℕ = length encrypted_key in
      let i : ℕ = length iv in
      let o : ℕ = length output in
      let l : ℕ = length last in
      rw (
        ← seals.has_key_size,
        ← seals.has_iv_size,
        total_size k i (length input) b o l room seals.is_whole_blocks rooms fits,
        seals.resets,
        seals.starts,
        (nat_beq_iff k k).1 refl,
        zeros-parts k i o l room,
        write_at-next 0 [] encrypted_key (zeros i ++ (zeros o ++ (zeros l ++ zeros room))) refl,
        write_at-next k encrypted_key iv (zeros o ++ (zeros l ++ zeros room)) refl,
        as_int-small input small,
        first_bytes-length input,
        seals.updates,
        write_at-next (i + k) (encrypted_key ++ iv) output (zeros l ++ zeros room)
            (omega (arith, length-append encrypted_key iv)),
        seals.finishes,
        write_at-next (i + k + o) (encrypted_key ++ iv ++ output) last (zeros room) (
            omega
              (arith, length-append encrypted_key iv, length-append (encrypted_key ++ iv) output)),
        same_size k i o l room,
      )

  -- Where every call of EVP succeeds, with the sizes of its manual, no message is made with a cipher
  -- that has blocks of one byte, as CFB, CTR, CCM and GCM have: the size reserved is then one byte
  -- more than is written, and the assertion at the end fails, whatever the key and the bytes to
  -- encrypt, if these are fewer than 2^31 and the sizes fit in 64 bits.
  pub stream_message_aborts :
      (encrypted_key iv output : Text) (c : e.Context)
      → Seals encrypted_key iv output [] c
      → get_cipher_block_size e s.cipher_type ≡ 1
      → length input < 2 ^ 31
      → length encrypted_key + (length iv + (length output + 1)) < u64_mod
      → make_encrypted_message e random input s ≡ aborted
  stream_message_aborts encrypted_key iv output c seals stream small fits =
      message_layout encrypted_key iv output [] 1 c seals (sym stream) small (rw stream fits)
