-- ===== src/Samples/Ciphers.antt =====
-- Two toy ciphers for the tests of envelopes: neither hides the bytes, and one has blocks of four
-- bytes, which it pads.
use pollbook_server.Prelude.{
  ℕ, zero, suc, ◌-◌, ◌*◌, ◌/◌, Option, none, some, [], ◌∷◌, ◌++◌, ◌==◌, nat_eq, if◌then◌else◌, Text,
  length,
}
use pollbook_server.Envelope.Buffer.{first_bytes, bytes_from}
use pollbook_server.Envelope.{Evp}

unfoldable pub padding : ℕ → ℕ → Text
padding zero b = []
padding (suc n) b = b ∷ padding n b

unfoldable pub last_byte : Text → ℕ
last_byte [] = 0
last_byte (b ∷ []) = b
last_byte (b ∷ c ∷ bytes) = last_byte (c ∷ bytes)

-- The whole blocks of the bytes, and the rest, after the block size.
unfoldable pub seal_blocks : Text → Text → Option (Text × Text)
unfolding first_bytes bytes_from
seal_blocks [] bytes = none
seal_blocks (b ∷ pending) bytes =
    let whole = length bytes / b * b in some (first_bytes whole bytes, b ∷ bytes_from whole bytes)

unfoldable pub seal_rest : Text → Option (Text × Text)
unfolding padding
seal_rest [] = none
seal_rest (b ∷ pending) =
    let n = b - length pending in
    if b == 1 then some ([], b ∷ []) else some (pending ++ padding n n, b ∷ [])

unfoldable pub open_blocks : Text → Text → Option (Text × Text)
unfolding first_bytes bytes_from
open_blocks [] bytes = none
open_blocks (b ∷ pending) bytes =
    let kept = length bytes - b in
    if b == 1
    then some (bytes, b ∷ [])
    else some (first_bytes kept bytes, b ∷ bytes_from kept bytes)

unfoldable pub open_rest : Text → Option (Text × Text)
unfolding first_bytes last_byte
open_rest [] = none
open_rest (b ∷ pending) = some (first_bytes (length pending - last_byte pending) pending, b ∷ [])

-- A cipher is its block size, a context the block size and the bytes that wait.
abbrev pub toy_ciphers : Evp
toy_ciphers = record {
  Cipher = ℕ;
  evp_aes_128_cbc = 4;
  evp_aes_128_cfb = 1;
  evp_aes_128_ctr = 1;
  evp_aes_128_ccm = 1;
  evp_aes_128_gcm = 1;
  evp_aes_256_cbc = 4;
  evp_aes_256_cfb = 1;
  evp_aes_256_ctr = 1;
  evp_aes_256_ccm = 1;
  evp_aes_256_gcm = 1;
  get_iv_length = λ c. 2;
  get_block_size = λ c. c;
  key_size = λ k. 3;
  Context = Text;
  new_context = [];
  reset = λ c. some [];
  seal_init = λ c cipher key random. some (1 ∷ 2 ∷ 3 ∷ [], random, cipher ∷ []);
  seal_update = seal_blocks;
  seal_final = seal_rest;
  open_init = λ c cipher encrypted iv key. some (cipher ∷ []);
  open_update = open_blocks;
  open_final = open_rest;
}
