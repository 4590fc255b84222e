-- ===== src/Envelope.antt =====
-- openssl/envelope_encryption.cpp: EnvelopeEncryptor and EnvelopeDecryptor, with the buffers that
-- they write. The ciphers are those of OpenSSL's EVP, a parameter.
pub mod Calls
pub mod Buffer
pub mod Layout
pub mod Trip
use pollbook_server.Prelude.{
  ℕ, zero, suc, ◌+◌, ◌-◌, ◌*◌, ◌/◌, ◌%◌, ◌^◌, Option, none, some, List, [], ◌∷◌, ◌++◌, leb, ltb,
  ◌==◌, nat_eq, if◌then◌else◌, Text, length,
}
use pollbook_server.Text.{u64_mod, u32_mod}
use pollbook_server.Envelope.Calls.{
  Outcome, returned, openssl_error, overrun, ◌>>=◌, or_openssl_error, assert_then,
}
use pollbook_server.Envelope.Buffer.{first_bytes, bytes_from, zeros, write_at}

pub data CipherAlgorithm : Type 0 where
  aes128_cbc aes128_cfb aes128_ctr aes256_cbc aes256_cfb aes256_ctr : CipherAlgorithm
  aes128_ccm aes128_gcm aes256_ccm aes256_gcm : CipherAlgorithm

-- OpenSSL's ciphers, and its functions for envelopes. `none` is a return value that reports a
-- failure. A key is named by its encoding.
pub record Evp : Type 1 where
  pub Cipher : Type 0
  pub evp_aes_128_cbc : Cipher
  pub evp_aes_128_cfb : Cipher
  pub evp_aes_128_ctr : Cipher
  pub evp_aes_128_ccm : Cipher
  pub evp_aes_128_gcm : Cipher
  pub evp_aes_256_cbc : Cipher
  pub evp_aes_256_cfb : Cipher
  pub evp_aes_256_ctr : Cipher
  pub evp_aes_256_ccm : Cipher
  pub evp_aes_256_gcm : Cipher
  pub get_iv_length : Cipher → ℕ
  pub get_block_size : Cipher → ℕ
  -- EVP_PKEY_size
  pub key_size : Text → ℕ
  pub Context : Type 0
  -- EVP_CIPHER_CTX_new and EVP_CIPHER_CTX_reset
  pub new_context : Context
  pub reset : Context → Option Context
  -- EVP_SealInit for one public key and the random bytes drawn: the session key encrypted with the
  -- public key, the IV, and the context
  pub seal_init : Context → Cipher → Text → Text → Option (Text × Text × Context)
  pub seal_update : Context → Text → Option (Text × Context)
  pub seal_final : Context → Option (Text × Context)
  -- EVP_OpenInit for the encrypted session key, the IV and the private key
  pub open_init : Context → Cipher → Text → Text → Text → Option Context
  pub open_update : Context → Text → Option (Text × Context)
  pub open_final : Context → Option (Text × Context)

-- A length of type std::size_t is passed as an int: its bits from the 32nd on are lost, and a
-- negative length is refused by EVP_SealUpdate and EVP_OpenUpdate.
abbrev pub as_int : ℕ → Option ℕ
as_int n = if ltb (n % u32_mod) (2 ^ 31) then some (n % u32_mod) else none

module _ (e : Evp) where
  unfoldable pub get_cipher_type_ptr : CipherAlgorithm → e.Cipher
  get_cipher_type_ptr aes128_cbc = e.evp_aes_128_cbc
  get_cipher_type_ptr aes128_cfb = e.evp_aes_128_cfb
  get_cipher_type_ptr aes128_ctr = e.evp_aes_128_ctr
  get_cipher_type_ptr aes128_ccm = e.evp_aes_128_ccm
  get_cipher_type_ptr aes128_gcm = e.evp_aes_128_gcm
  get_cipher_type_ptr aes256_cbc = e.evp_aes_256_cbc
  get_cipher_type_ptr aes256_cfb = e.evp_aes_256_cfb
  get_cipher_type_ptr aes256_ctr = e.evp_aes_256_ctr
  get_cipher_type_ptr aes256_ccm = e.evp_aes_256_ccm
  get_cipher_type_ptr aes256_gcm = e.evp_aes_256_gcm

  pub record EnvelopeEncryptor : Type 0 where
    pub public_key : Text
    pub cipher_type : CipherAlgorithm
    pub cipher_context : e.Context

  unfoldable pub new_encryptor : Text → CipherAlgorithm → EnvelopeEncryptor
  new_encryptor target_public_key algorithm_type = record {
    public_key = target_public_key;
    cipher_type = algorithm_type;
    cipher_context = e.new_context;
  }

  unfoldable pub get_iv_size : CipherAlgorithm → ℕ
  get_iv_size algorithm = e.get_iv_length (get_cipher_type_ptr algorithm)

  unfoldable pub get_cipher_block_size : CipherAlgorithm → ℕ
  get_cipher_block_size algorithm = e.get_block_size (get_cipher_type_ptr algorithm)

  unfoldable pub compute_output_buffer_size : CipherAlgorithm → ℕ → ℕ
  unfolding get_cipher_block_size
  compute_output_buffer_size algorithm input_buffer_size =
      let block_size = get_cipher_block_size algorithm in
      (input_buffer_size / block_size * block_size + block_size) % u64_mod

  -- What is written to the two buffers: the encrypted key and the IV.
  unfoldable pub encryptor_init :
      Text → EnvelopeEncryptor → Outcome (Text × Text × EnvelopeEncryptor)
  encryptor_init random s = do
    c ← or_openssl_error (e.reset s.cipher_context)
    (encrypted_key, iv, c1) ←
        or_openssl_error (e.seal_init c (get_cipher_type_ptr s.cipher_type) s.public_key random)
    assert_then (length encrypted_key == e.key_size s.public_key)
        (encrypted_key, iv, record s { cipher_context = c1 })

  -- What is written to the output buffer.
  unfoldable pub encrypt_bytes : Text → EnvelopeEncryptor → Outcome (Text × EnvelopeEncryptor)
  encrypt_bytes input s = do
    n ← or_openssl_error (as_int (length input))
    (output, c) ← or_openssl_error (e.seal_update s.cipher_context (first_bytes n input))
    returned (output, record s { cipher_context = c })

  unfoldable pub encryptor_finalize : EnvelopeEncryptor → Outcome (Text × EnvelopeEncryptor)
  encryptor_finalize s = do
    (output, c) ← or_openssl_error (e.seal_final s.cipher_context)
    returned (output, record s { cipher_context = c })

  unfoldable pub make_encrypted_message :
      Text → Text → EnvelopeEncryptor → Outcome (Text × EnvelopeEncryptor)
  make_encrypted_message random input s = do
    let key_size = e.key_size s.public_key
    let iv_size = get_iv_size s.cipher_type
    let total_output_size =
        (key_size + iv_size + compute_output_buffer_size s.cipher_type (length input)) % u64_mod
    (encrypted_key, iv, s1) ← encryptor_init random s
    with_key ← write_at 0 encrypted_key (zeros total_output_size)
    with_iv ← write_at key_size iv with_key
    let bytes_written = iv_size + key_size
    (output, s2) ← encrypt_bytes input s1
    with_output ← write_at bytes_written output with_iv
    (last, s3) ← encryptor_finalize s2
    output_buffer ← write_at (bytes_written + length output) last with_output
    assert_then (bytes_written + length output + length last == total_output_size)
        (output_buffer, s3)

  pub record EnvelopeDecryptor : Type 0 where
    pub private_key : Text
    pub cipher_type : CipherAlgorithm
    pub cipher_context : e.Context

  unfoldable pub new_decryptor : Text → CipherAlgorithm → EnvelopeDecryptor
  new_decryptor private_key algorithm_type = record {
    private_key = private_key;
    cipher_type = algorithm_type;
    cipher_context = e.new_context;
  }

  -- Of each buffer as many bytes are read as the key or the IV has.
  unfoldable pub decryptor_init : Text → Text → EnvelopeDecryptor → Outcome EnvelopeDecryptor
  decryptor_init encrypted_key_buffer iv_buffer s = do
    c ← or_openssl_error (e.reset s.cipher_context)
    c1 ← or_openssl_error (
        e.open_init c (get_cipher_type_ptr s.cipher_type)
          (first_bytes (e.key_size s.private_key) encrypted_key_buffer)
          (first_bytes (get_iv_size s.cipher_type) iv_buffer) s.private_key)
    returned (record s { cipher_context = c1 })

  unfoldable pub decrypt_bytes : Text → EnvelopeDecryptor → Outcome (Text × EnvelopeDecryptor)
  decrypt_bytes input s = do
    n ← or_openssl_error (as_int (length input))
    (output, c) ← or_openssl_error (e.open_update s.cipher_context (first_bytes n input))
    returned (output, record s { cipher_context = c })

  unfoldable pub decryptor_finalize : EnvelopeDecryptor → Outcome (Text × EnvelopeDecryptor)
  decryptor_finalize s = do
    (output, c) ← or_openssl_error (e.open_final s.cipher_context)
    returned (output, record s { cipher_context = c })

  -- How a receiver reads a message with the layout that make_encrypted_message documents: the
  -- encrypted key, the IV, and the ciphertext to the end.
  unfoldable pub open_message : Text → EnvelopeDecryptor → Outcome Text
  open_message message s = do
    let key_size = e.key_size s.private_key
    s1 ← decryptor_init message (bytes_from key_size message) s
    (output, s2) ←
        decrypt_bytes (bytes_from (get_iv_size s.cipher_type) (bytes_from key_size message)) s1
    (last, s3) ← decryptor_finalize s2
    returned (output ++ last)
