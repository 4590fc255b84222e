-- ===== src/Text/Decimal.antt =====
-- std::to_string and std::stoul together.
use native.Mathlib.Nat.{pow-suc}
use pollbook_server.Prelude.{
  ℕ, zero, suc, ◌+◌, ◌-◌, ◌*◌, ◌/◌, ◌^◌, ◌<◌, ◌≤◌, ◌≡◌, ◌≢◌, ◌∙◌, refl, inl, inr, some, [], ◌∷◌,
  ◌++◌, arith, ltb, Text, Bool-cases,
}
use pollbook_server.Text.{digits, to_string, read_digits, unsigned_below, stoul, u64_mod}

-- Every byte is a decimal digit.
abbrev pub AllDigits : Text → Type 0
AllDigits [] = Unit {0}
AllDigits (c ∷ cs) = ((b'0' ≤ c) × (c ≤ b'9')) × AllDigits cs

AllDigits-append : (xs ys : Text) → AllDigits xs → AllDigits ys → AllDigits (xs ++ ys)
AllDigits-append [] ys h k = k
AllDigits-append (x ∷ xs) ys h k = (h.0, AllDigits-append xs ys h.1 k)

pub digits-AllDigits : (f n : ℕ) → AllDigits (digits f n)
unfolding digits
digits-AllDigits zero n = tt
digits-AllDigits (suc f) n = elim (Bool-cases (ltb n 10)) [
  | inl e ↦ rw e ((omega arith, ground arith), tt)
  | inr e ↦ rw e (
      AllDigits-append (digits f (n / 10)) _ (digits-AllDigits f (n / 10))
        ((omega arith, omega arith), tt))
]

pub read_digits-append :
    (acc : ℕ) (xs ys : Text)
    → AllDigits xs
    → read_digits acc (xs ++ ys) ≡ read_digits (read_digits acc xs) ys
unfolding read_digits
read_digits-append acc [] ys h = refl
read_digits-append acc (x ∷ xs) ys h =
    ground (arith, read_digits-append (acc * 10 + (x - b'0')) xs ys h.1)

pub read_digits-digits : (f n : ℕ) → n < 10 ^ f → read_digits 0 (digits f n) ≡ n
unfolding digits read_digits
read_digits-digits zero n h = omega arith
read_digits-digits (suc f) n h = elim (Bool-cases (ltb n 10)) [
  | inl e ↦ rw e (ground arith)
  | inr e ↦
      rw (e, read_digits-append 0 (digits f (n / 10)) _ (digits-AllDigits f (n / 10)))
        (rw (read_digits-digits f (n / 10) (omega (arith, pow-suc 10 f))) (ground arith))
]

unsigned_below-digits :
    (limit n : ℕ) (s : Text)
    → AllDigits s
    → s ≢ []
    → read_digits 0 s ≡ n
    → n < limit
    → unsigned_below limit s ≡ some n
unfolding unsigned_below
unsigned_below-digits limit n [] a ne e h = absurd (ne refl)
unsigned_below-digits limit n (c ∷ cs) a ne e h = ground arith

-- Neither a space nor a sign is taken off a text that begins with a digit.
stoul-digits : (s : Text) → AllDigits s → s ≢ [] → stoul s ≡ unsigned_below u64_mod s
unfolding stoul
stoul-digits [] a ne = absurd (ne refl)
stoul-digits (c ∷ cs) a ne = ground arith

append-ne-nil : (xs : Text) (y : ℕ) → (xs ++ y ∷ []) ≢ []
append-ne-nil [] y e = cc
append-ne-nil (x ∷ xs) y e = cc

pub digits-ne-nil : (f n : ℕ) → digits (suc f) n ≢ []
unfolding digits
digits-ne-nil f n = elim (Bool-cases (ltb n 10)) [
  | inl e ↦ rw e (λ p. cc)
  | inr e ↦ rw e (append-ne-nil (digits f (n / 10)) _)
]

-- Whatever 64-bit number std::to_string writes, std::stoul reads it back.
pub stoul-to_string : (n : ℕ) → n < u64_mod → stoul (to_string n) ≡ some n
unfolding to_string
stoul-to_string n h =
    stoul-digits (digits 20 n) (digits-AllDigits 20 n) (digits-ne-nil 19 n)
    ∙ unsigned_below-digits u64_mod n (digits 20 n) (digits-AllDigits 20 n) (digits-ne-nil 19 n)
        (read_digits-digits 20 n (omega arith)) h
