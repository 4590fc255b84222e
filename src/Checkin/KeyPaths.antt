-- ===== src/Checkin/KeyPaths.antt =====
-- CheckinService::save_pub_key and load_client_public_key: the paths of the files of keys.
use pollbook_server.Prelude.{
  ◌≡◌, ◌≤◌, Bool-cases, inl, inr, ◌↔◌, refl, ap, ◌∙◌, ℕ, suc, Bool, true, false, ◌||◌, [], ◌∷◌,
  ◌++◌, ◌==◌, nat_eq, if◌then◌else◌, arith, Text, codes, length,
}
use pollbook_server.Text.{to_string, digits}
use pollbook_server.Text.Decimal.{AllDigits, digits-AllDigits}
use pollbook_server.Checkin.KeyFiles.{key_file_name}

-- The file to which save_pub_key writes: the folder setting and the prefix are joined as they are.
unfoldable pub saved_key_path : Text → Text → ℕ → Text
unfolding key_file_name
saved_key_path folder prefix client_id = folder ++ key_file_name prefix client_id

-- The file that load_client_public_key reads: a slash stands between the two.
unfoldable pub client_key_path : Text → Text → ℕ → Text
unfolding key_file_name
client_key_path folder prefix client_id = folder ++ b'/' ∷ key_file_name prefix client_id

abbrev pub starts_with_slash : Text → Bool
starts_with_slash [] = false
starts_with_slash (c ∷ cs) = c == b'/'

abbrev pub ends_with_slash : Text → Bool
ends_with_slash [] = false
ends_with_slash (c ∷ []) = c == b'/'
ends_with_slash (c ∷ d ∷ cs) = ends_with_slash (d ∷ cs)

-- The file that a path names: several slashes are one.
unfoldable pub resolved : Text → Text
resolved [] = []
resolved (c ∷ cs) =
    let rest = resolved cs in
    if c == b'/' then (if starts_with_slash cs then rest else c ∷ rest) else c ∷ rest

module _ (name : Text) where
  -- A slash more makes no difference before or after a slash.
  slash_absorbed :
      (folder : Text)
      → (ends_with_slash folder || starts_with_slash name) ≡ true
      → resolved (folder ++ b'/' ∷ name) ≡ resolved (folder ++ name)
  unfolding resolved
  slash_absorbed [] h = rw h refl
  slash_absorbed (c ∷ []) h = ground arith
  slash_absorbed (c ∷ d ∷ cs) h = rw (slash_absorbed (d ∷ cs) h) refl

  slash_counts :
      (folder : Text)
      → (ends_with_slash folder || starts_with_slash name) ≡ false
      → length (resolved (folder ++ b'/' ∷ name)) ≡ suc (length (resolved (folder ++ name)))
  unfolding resolved
  slash_counts [] h = rw h refl
  slash_counts (c ∷ []) h = ground arith
  slash_counts (c ∷ d ∷ cs) h = ground (arith, slash_counts (d ∷ cs) h)

digits-start :
    (digits : Text) → AllDigits digits → starts_with_slash (digits ++ codes ".pem") ≡ false
digits-start [] h = refl
digits-start (c ∷ cs) h = let le : b'0' ≤ c = h.0.0 in ground arith

name-start :
    (prefix : Text) (id : ℕ)
    → starts_with_slash (key_file_name prefix id) ≡ starts_with_slash prefix
unfolding key_file_name to_string
name-start [] id = digits-start (digits 20 id) (digits-AllDigits 20 id)
name-start (c ∷ cs) id = refl

-- The path to which the service saves a client's key and the path from which it loads this key
-- later are the same, several slashes in a row counting as one, exactly if the setting of the folder
-- ends in a slash or the prefix begins with one.
pub saved_key_found :
    (folder prefix : Text) (id : ℕ)
    → (resolved (client_key_path folder prefix id) ≡ resolved (saved_key_path folder prefix id))
      ↔ ((ends_with_slash folder || starts_with_slash prefix) ≡ true)
unfolding saved_key_path client_key_path
saved_key_found folder prefix id =
    let name : Text = key_file_name prefix id in
    let same : (ends_with_slash folder || starts_with_slash name)
        ≡ (ends_with_slash folder || starts_with_slash prefix) =
      ap (λ b. ends_with_slash folder || b) (name-start prefix id) in
    (
      λ equal. elim (Bool-cases (ends_with_slash folder || starts_with_slash prefix)) [
        | inl yes_ ↦ yes_
        | inr apart ↦
            let longer = slash_counts name folder (same ∙ apart) in
            let kept = ap length equal in absurd (omega (arith, longer, kept))
      ],
      λ absorbed. slash_absorbed name folder (same ∙ absorbed),
    )
