-- ===== src/External.antt =====
-- The libraries that the program calls and does not contain: nlohmann::json, OpenSSL's EVP
-- functions and its base64 filter. Each is a parameter; what their manuals promise, as far as the
-- theorems need it, is a hypothesis of its own.
use pollbook_server.Prelude.{
  true, ℕ, ◌<◌, ◌≡◌, Bool, Option, none, some, List, [], ◌∷◌, ◌==◌, text_eq, if◌then◌else◌, Text,
  String, codes,
}
use pollbook_server.Text.{u64_mod, u32_mod}
use pollbook_server.Run.{Run, ◌>>=◌, or_throw}

-- What EVP_DigestVerifyFinal returns: 1, 0, or anything else.
pub data VerifyStatus : Type 0 where
  valid mismatch failed : VerifyStatus

pub record External : Type 1 where
  pub Json : Type 0
  -- the value that a new json holds after j[key] = value for each pair in turn
  pub object : List (Text × Json) → Json
  -- j[key] of a constant j; `none` where j is no object or lacks the key
  pub member : Json → Text → Option Json
  pub is_object : Json → Bool
  pub of_nat : ℕ → Json
  pub of_text : Text → Json
  pub of_bool : Bool → Json
  -- conversions to std::uint64_t, std::string and bool; `none` is json::type_error
  pub as_u64 : Json → Option ℕ
  pub as_text : Json → Option Text
  pub as_bool : Json → Option Bool
  -- conversion to std::uint32_t: a number is cast, and a boolean is taken as 1 or 0
  pub as_u32 : Json → Option ℕ
  pub dump : Json → Text
  -- `none` is json::parse_error
  pub parse : Text → Option Json
  -- BIO_f_base64; a text that it refuses gives a length of -1, on which resize throws
  pub base64_encode : Text → Text
  pub base64_decode : Text → Option Text
  -- EVP_DigestSign over all bytes fed in, under a private key; `none` is a failure
  pub digest_sign : Text → Text → Option Text
  -- EVP_DigestVerify over all bytes fed in, under a public key, of a signature
  pub digest_verify : Text → Text → Text → VerifyStatus
  -- EVP_PKEY_eq
  pub same_key : Text → Text → Bool

module _ (x : External) where
  open x use {Json, member, as_u64, as_u32, as_text, as_bool, base64_decode}

  -- json[key], read through a constant reference. A missing key is undefined in C++; the model
  -- lets it throw, as the mistyped value does.
  unfoldable pub at : Json → String → Run Json
  at j key = or_throw (member j (codes key))

  unfoldable pub get_u64 : Json → String → Run ℕ
  unfolding at
  get_u64 j key = do v ← at j key; or_throw (as_u64 v)

  unfoldable pub get_u32 : Json → String → Run ℕ
  unfolding at
  get_u32 j key = do v ← at j key; or_throw (as_u32 v)

  unfoldable pub get_text : Json → String → Run Text
  unfolding at
  get_text j key = do v ← at j key; or_throw (as_text v)

  unfoldable pub get_bool : Json → String → Run Bool
  unfolding at
  get_bool j key = do v ← at j key; or_throw (as_bool v)

  unfoldable pub get_bytes : Json → String → Run Text
  unfolding get_text
  get_bytes j key = do s ← get_text j key; or_throw (base64_decode s)

-- The value that a list of assignments leaves at a key: the last one's.
unfoldable pub assigned {ℓ} : {V : Type ℓ} → Text → List (Text × V) → Option V
assigned k [] = none
assigned k ((j, v) ∷ fs) = elim (assigned k fs) [
  | some w ↦ some w
  | none ↦ if j == k then some v else none
]

-- What the manuals of nlohmann::json and of OpenSSL's base64 filter say.
pub record ExternalLaws (x : External) : Type 0 where
  pub member-object :
      (fs : List (Text × x.Json)) (k : Text) → x.member (x.object fs) k ≡ assigned k fs
  pub is_object-object :
      (f : Text × x.Json) (fs : List (Text × x.Json)) → x.is_object (x.object (f ∷ fs)) ≡ true
  pub as_u64-of_nat : (n : ℕ) → n < u64_mod → x.as_u64 (x.of_nat n) ≡ some n
  pub as_u32-of_nat : (n : ℕ) → n < u32_mod → x.as_u32 (x.of_nat n) ≡ some n
  pub as_text-of_text : (s : Text) → x.as_text (x.of_text s) ≡ some s
  pub as_bool-of_bool : (b : Bool) → x.as_bool (x.of_bool b) ≡ some b
  pub decode-encode : (s : Text) → x.base64_decode (x.base64_encode s) ≡ some s
