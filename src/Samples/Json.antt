-- ===== src/Samples/Json.antt =====
-- JSON values, and the laws that nlohmann::json is assumed to satisfy.
use pollbook_server.Prelude.{
  ◌≡◌, refl, ap, ◌%◌, arith, ℕ, Bool, true, false, Option, none, some, List, [], ◌∷◌, ◌==◌, text_eq,
  Text, codes, if◌then◌else◌,
}
use pollbook_server.Text.{u32_mod}
use pollbook_server.External.{External, ExternalLaws, assigned, valid, mismatch}

mutual
  pub data Value : Type 0 where
    null : Value
    num : ℕ → Value
    text : Text → Value
    flag : Bool → Value
    obj : Fields → Value

  pub data Fields : Type 0 where
    end : Fields
    field : Text → Value → Fields → Fields

unfoldable pub to_fields : List (Text × Value) → Fields
to_fields [] = end
to_fields ((k, v) ∷ fs) = field k v (to_fields fs)

unfoldable pub object : List (Text × Value) → Value
unfolding to_fields
object [] = null
object ((k, v) ∷ fs) = obj (field k v (to_fields fs))

unfoldable pub find_field : Text → Fields → Option Value
find_field k end = none
find_field k (field j v fs) = elim (find_field k fs) [
  | some w ↦ some w
  | none ↦ if j == k then some v else none
]

unfoldable pub member : Value → Text → Option Value
unfolding find_field
member (obj fs) k = find_field k fs
member _ k = none

abbrev is_object : Value → Bool
is_object (obj fs) = true
is_object _ = false

abbrev as_nat : Value → Option ℕ
as_nat (num n) = some n
as_nat _ = none

-- A number keeps its low bits.
abbrev as_u32 : Value → Option ℕ
as_u32 (num n) = some (n % u32_mod)
as_u32 (flag b) = some (if b then 1 else 0)
as_u32 _ = none

abbrev as_text : Value → Option Text
as_text (text s) = some s
as_text _ = none

abbrev as_bool : Value → Option Bool
as_bool (flag b) = some b
as_bool _ = none

find_field-to_fields :
    (fs : List (Text × Value)) (k : Text) → find_field k (to_fields fs) ≡ assigned k fs
unfolding find_field to_fields assigned
find_field-to_fields [] k = refl
find_field-to_fields ((j, v) ∷ fs) k = rw (find_field-to_fields fs k)

member-object : (fs : List (Text × Value)) (k : Text) → member (object fs) k ≡ assigned k fs
unfolding member object to_fields assigned
member-object [] k = refl
member-object ((j, v) ∷ fs) k = find_field-to_fields ((j, v) ∷ fs) k

is_object-object :
    (f : Text × Value) (fs : List (Text × Value)) → is_object (object (f ∷ fs)) ≡ true
unfolding object
is_object-object (k, v) fs = refl

-- The libraries, with a parser that knows the given texts. A signature is valid if it repeats the
-- key.
abbrev pub sample_external : (Text → Option Value) → External
sample_external parse = record {
  Json = Value;
  object = object;
  member = member;
  is_object = is_object;
  of_nat = num;
  of_text = text;
  of_bool = flag;
  as_u64 = as_nat;
  as_u32 = as_u32;
  as_text = as_text;
  as_bool = as_bool;
  dump = λ j. codes "{}";
  parse = parse;
  base64_encode = λ s. s;
  base64_decode = some;
  digest_sign = λ key bytes. some key;
  digest_verify = λ key bytes signature. if signature == key then valid else mismatch;
  same_key = λ k l. k == l;
}

pub sample_laws : (parse : Text → Option Value) → ExternalLaws (sample_external parse)
sample_laws parse = record {
  member-object = member-object;
  is_object-object = is_object-object;
  as_u64-of_nat = λ n h. refl;
  as_u32-of_nat = λ n h. ap some (omega arith);
  as_text-of_text = λ s. refl;
  as_bool-of_bool = λ b. refl;
  decode-encode = λ s. refl;
}
