-- ===== src/Text/SizeLine.antt =====
-- A number in decimal and a newline, as the size of a message is sent, and how it is read.
use pollbook_server.Prelude.{ℕ, ◌<◌, ◌≡◌, ◌≢◌, ◌∙◌, refl, some, [], ◌∷◌, ◌++◌, arith, Text}
use pollbook_server.Text.{
  digits, to_string, read_digits, unsigned_below, signed_below, skip_spaces, stoul, u64_mod,
}
use pollbook_server.Text.Decimal.{
  AllDigits, digits-AllDigits, read_digits-append, read_digits-digits, digits-ne-nil,
}

-- The newline ends the number.
read_digits-newline : (s : Text) → AllDigits s → read_digits 0 (s ++ 10 ∷ []) ≡ read_digits 0 s
unfolding read_digits
read_digits-newline s a = read_digits-append 0 s (10 ∷ []) a ∙ ended (read_digits 0 s)
  where
    ended : (n : ℕ) → read_digits n (10 ∷ []) ≡ n
    ended n = refl

skip-digits :
    (s : Text)
    → AllDigits s
    → s ≢ []
    → signed_below u64_mod (skip_spaces (s ++ 10 ∷ [])) ≡ unsigned_below u64_mod (s ++ 10 ∷ [])
unfolding signed_below skip_spaces
skip-digits [] a ne = absurd (ne refl)
skip-digits (c ∷ cs) a ne = ground arith

unsigned-line :
    (n : ℕ) (s : Text)
    → AllDigits s
    → s ≢ []
    → read_digits 0 (s ++ 10 ∷ []) ≡ n
    → n < u64_mod
    → unsigned_below u64_mod (s ++ 10 ∷ []) ≡ some n
unfolding unsigned_below
unsigned-line n [] a ne e h = absurd (ne refl)
unsigned-line n (c ∷ cs) a ne e h = ground arith

pub signed_below-size_line :
    (n : ℕ) → n < u64_mod → signed_below u64_mod (skip_spaces (to_string n ++ 10 ∷ [])) ≡ some n
unfolding to_string
signed_below-size_line n h =
    let a = digits-AllDigits 20 n in
    skip-digits (digits 20 n) a (digits-ne-nil 19 n)
    ∙ unsigned-line n (digits 20 n) a (digits-ne-nil 19 n)
        (read_digits-newline (digits 20 n) a ∙ read_digits-digits 20 n (omega arith)) h

-- std::stoul of a size line gives the size.
pub stoul-size_line : (n : ℕ) → n < u64_mod → stoul (to_string n ++ 10 ∷ []) ≡ some n
unfolding stoul
stoul-size_line n h = signed_below-size_line n h
