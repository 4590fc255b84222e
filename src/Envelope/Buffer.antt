-- ===== src/Envelope/Buffer.antt =====
-- The buffers of openssl/envelope_encryption.cpp: a vector of zeros, and a write through a pointer
-- into it.
use pollbook_server.Prelude.{
  arith, ℕ, zero, suc, ◌+◌, ◌≡◌, refl, ap, ◌∙◌, [], ◌∷◌, ◌++◌, Text, length,
}
use pollbook_server.Envelope.Calls.{Outcome, returned, overrun}

unfoldable pub first_bytes : ℕ → Text → Text
first_bytes zero xs = []
first_bytes (suc n) [] = []
first_bytes (suc n) (x ∷ xs) = x ∷ first_bytes n xs

unfoldable pub bytes_from : ℕ → Text → Text
bytes_from zero xs = xs
bytes_from (suc n) [] = []
bytes_from (suc n) (x ∷ xs) = bytes_from n xs

-- std::vector<unsigned char>(n)
unfoldable pub zeros : ℕ → Text
zeros zero = []
zeros (suc n) = 0 ∷ zeros n

-- The bytes written over the front of the buffer.
unfoldable pub overwrite : Text → Text → Outcome Text
overwrite [] buffer = returned buffer
overwrite (b ∷ bytes) [] = overrun
overwrite (b ∷ bytes) (c ∷ buffer) = elim (overwrite bytes buffer) [
  | returned rest ↦ returned (b ∷ rest)
  | _ ↦ overrun
]

-- The bytes written at an offset of the buffer.
unfoldable pub write_at : ℕ → Text → Text → Outcome Text
unfolding overwrite
write_at zero bytes buffer = overwrite bytes buffer
write_at (suc n) bytes [] = elim bytes [ [] ↦ returned [] | _ ↦ overrun ]
write_at (suc n) bytes (c ∷ buffer) = elim (write_at n bytes buffer) [
  | returned rest ↦ returned (c ∷ rest)
  | _ ↦ overrun
]

pub first_bytes-append : (xs ys : Text) → first_bytes (length xs) (xs ++ ys) ≡ xs
unfolding first_bytes
first_bytes-append [] ys = refl
first_bytes-append (x ∷ xs) ys = rw (first_bytes-append xs ys)

pub bytes_from-append : (xs ys : Text) → bytes_from (length xs) (xs ++ ys) ≡ ys
unfolding bytes_from
bytes_from-append [] ys = refl
bytes_from-append (x ∷ xs) ys = bytes_from-append xs ys

pub first_bytes-length : (xs : Text) → first_bytes (length xs) xs ≡ xs
unfolding first_bytes
first_bytes-length [] = refl
first_bytes-length (x ∷ xs) = rw (first_bytes-length xs)

overwrite-zeros :
    (bytes rest : Text) → overwrite bytes (zeros (length bytes) ++ rest) ≡ returned (bytes ++ rest)
unfolding overwrite zeros
overwrite-zeros [] rest = refl
overwrite-zeros (b ∷ bytes) rest = rw (overwrite-zeros bytes rest)

write_at-length :
    (front bytes rest : Text)
    → write_at (length front) bytes (front ++ (zeros (length bytes) ++ rest))
      ≡ returned (front ++ bytes ++ rest)
unfolding write_at
write_at-length [] bytes rest = overwrite-zeros bytes rest
write_at-length (c ∷ front) bytes rest = rw (write_at-length front bytes rest)

-- The bytes written right after what has been written so far, where there is room.
pub write_at-next :
    (k : ℕ) (front bytes rest : Text)
    → k ≡ length front
    → write_at k bytes (front ++ (zeros (length bytes) ++ rest)) ≡ returned (front ++ bytes ++ rest)
write_at-next k front bytes rest e = rw e (write_at-length front bytes rest)

pub zeros-add : (m n : ℕ) → zeros (m + n) ≡ zeros m ++ zeros n
unfolding zeros
zeros-add zero n = ap zeros (omega arith)
zeros-add (suc m) n =
    let e : suc m + n ≡ suc (m + n) = omega arith in ap zeros e ∙ ap (λ xs. 0 ∷ xs) (zeros-add m n)
