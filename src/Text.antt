-- ===== src/Text.antt =====
-- The parts of the C++ standard library by which the services read and write text: std::to_string,
-- std::stoul, `>>` into a std::uint32_t, std::getline and substr(0, find(",")).
pub mod Decimal
pub mod SizeLine
use pollbook_server.Prelude.{
  ℕ, zero, suc, ◌+◌, ◌-◌, ◌*◌, ◌/◌, ◌%◌, ◌^◌, ◌≡◌, refl, Bool, true, false, ◌&&◌, ◌||◌, Option,
  none, some, List, [], ◌∷◌, ◌++◌, ltb, leb, ◌==◌, nat_eq, if◌then◌else◌, Text, codes,
}

abbrev pub u64_mod : ℕ
u64_mod = 2 ^ 64

abbrev pub u32_mod : ℕ
u32_mod = 2 ^ 32

-- static_cast<std::uint32_t>
abbrev pub to_u32 : ℕ → ℕ
to_u32 n = n % u32_mod

-- The decimal digits of `n`, at most `fuel` of them.
unfoldable pub digits : ℕ → ℕ → Text
digits zero n = []
digits (suc fuel) n =
    let rest = digits fuel (n / 10) ++ (b'0' + n % 10) ∷ [] in
    if ltb n 10 then (b'0' + n) ∷ [] else rest

-- A 64-bit number has twenty digits at most.
unfoldable pub to_string : ℕ → Text
unfolding digits
to_string n = digits 20 n

abbrev pub is_digit : ℕ → Bool
is_digit c = leb b'0' c && leb c b'9'

abbrev pub is_space : ℕ → Bool
is_space c = c == b' ' || (leb 9 c && leb c 13)

unfoldable pub skip_spaces : Text → Text
skip_spaces [] = []
skip_spaces (c ∷ cs) = if is_space c then skip_spaces cs else c ∷ cs

-- The number that the leading digits spell, after `acc`.
unfoldable pub read_digits : ℕ → Text → ℕ
read_digits acc [] = acc
read_digits acc (c ∷ cs) =
    let rest = read_digits (acc * 10 + (c - b'0')) cs in if is_digit c then rest else acc

-- No digit is std::invalid_argument, a number out of range is std::out_of_range.
unfoldable pub unsigned_below : ℕ → Text → Option ℕ
unfolding read_digits
unsigned_below limit [] = none
unsigned_below limit (c ∷ cs) =
    let n = read_digits 0 (c ∷ cs) in
    if is_digit c then (if ltb n limit then some n else none) else none

negated : ℕ → Option ℕ → Option ℕ
negated limit none = none
negated limit (some n) = some ((limit - n) % limit)

unfoldable pub signed_below : ℕ → Text → Option ℕ
unfolding unsigned_below negated
signed_below limit [] = none
signed_below limit (c ∷ cs) =
    if c == b'+'
    then unsigned_below limit cs
    else if c == b'-'
    then negated limit (unsigned_below limit cs)
    else unsigned_below limit (c ∷ cs)

-- `none` stands for either exception.
unfoldable pub stoul : Text → Option ℕ
unfolding skip_spaces signed_below
stoul s = signed_below u64_mod (skip_spaces s)

-- stream >> id, for std::uint32_t id; `none` is a failed extraction
unfoldable pub extract_u32 : Text → Option ℕ
unfolding skip_spaces signed_below
extract_u32 s = signed_below u32_mod (skip_spaces s)

-- What stands before the first delimiter, and what follows it.
unfoldable pub cut : ℕ → Text → Text × Text
cut d [] = ([], [])
cut d (c ∷ cs) = let (a, b) = cut d cs in if c == d then ([], cs) else (c ∷ a, b)

-- std::getline(stream, s, d): it fails where nothing is left of the stream.
unfoldable pub getline : ℕ → Text → Option (Text × Text)
unfolding cut
getline d [] = none
getline d (c ∷ cs) = some (cut d (c ∷ cs))

-- std::getline in a loop, to the end of the stream; `begun` says that the field has a byte.
unfoldable pub split_from : ℕ → Bool → Text → Text → List Text
split_from d false field [] = []
split_from d true field [] = field ∷ []
split_from d begun field (c ∷ cs) =
    let next = field ∷ split_from d false [] cs in
    let more = split_from d true (field ++ c ∷ []) cs in if c == d then next else more

unfoldable pub split : ℕ → Text → List Text
unfolding split_from
split d s = split_from d false [] s

-- s.substr(0, s.find(","))
unfoldable pub first_column : Text → Text
unfolding cut
first_column s = (cut b',' s).0

split_test : split b',' (codes "a,,bc,") ≡ codes "a" ∷ [] ∷ codes "bc" ∷ []
unfolding split
split_test = refl

stoul_test : stoul (codes " -1,") ≡ some 18446744073709551615
unfolding stoul
stoul_test = refl
