-- ===== src/Warnings/Removal.antt =====
-- The command remove_warning of the query server, as warning_cache_client sends it.
use pollbook_server.Prelude.{
  ◌≡◌, refl, ap, ◌∙◌, ℕ, zero, suc, ◌<◌, ◌≤◌, true, false, some, List, [], ◌∷◌, ◌++◌, arith, leb,
  ltb, text_eq, nat_eq, if◌then◌else◌, Text, codes, length, get_elem?, text_beq,
}
use pollbook_server.Text.{to_string, u64_mod}
use pollbook_server.Text.Decimal.{stoul-to_string}
use pollbook_server.External.{External}
use pollbook_server.Warnings.{erase_at, remove_warning_at, remove_warning_at_index}
use pollbook_server.Warnings.Query.{removal_response, remove_warning, remove_or_reject, respond}

get_elem?-erase_at :
    (index i : ℕ) (ws : List Text)
    → get_elem? (erase_at index ws) i
      ≡ (if ltb i index then get_elem? ws i else get_elem? ws (suc i))
unfolding erase_at
get_elem?-erase_at zero i [] = ground arith
get_elem?-erase_at (suc index) i [] = ground arith
get_elem?-erase_at zero i (w ∷ ws) = ground arith
get_elem?-erase_at (suc index) zero (w ∷ ws) = ground arith
get_elem?-erase_at (suc index) (suc i) (w ∷ ws) = ground (arith, get_elem?-erase_at index i ws)

erase_at-past :
    (index i : ℕ) (ws : List Text)
    → index < length ws
    → suc (length (erase_at index ws)) ≡ length ws
unfolding erase_at
erase_at-past index i [] h = elim h [ ]
erase_at-past zero i (w ∷ ws) h = refl
erase_at-past (suc index) i (w ∷ ws) h = ap suc (erase_at-past index i ws (omega arith))

module _ (x : External) (of_texts : List Text → x.Json) where
  removal_command :
      (index : ℕ) (ws : List Text)
      → index < u64_mod
      → respond x of_texts (codes "remove_warning " ++ to_string index) (some ws)
        ≡ remove_warning x of_texts (some index) (some ws)
  unfolding respond text_beq remove_or_reject
  removal_command index ws fits =
      ap (λ o. remove_warning x of_texts o (some ws)) (stoul-to_string index fits)

  -- The command to remove a warning by its number in the list takes away this warning and no other,
  -- and says so; those after it move up by one. A number past the end changes nothing, and is
  -- called an invalid index.
  pub removal_exact :
      (index : ℕ) (ws : List Text)
      → index < u64_mod
      → let command = codes "remove_warning " ++ to_string index in
        (index < length ws
          → (ws' : List Text) × (respond x of_texts command (some ws)
              ≡ (some ws', removal_response x of_texts index true))
            × (suc (length ws') ≡ length ws)
            × ((i : ℕ)
                → get_elem? ws' i ≡ (if ltb i index then get_elem? ws i else get_elem? ws (suc i))))
        × (length ws ≤ index
            → respond x of_texts command (some ws)
              ≡ (some ws, removal_response x of_texts index false))
  unfolding remove_warning remove_warning_at_index remove_warning_at
  removal_exact index ws fits = (
    λ inside. (
      erase_at index ws,
      removal_command index ws fits ∙ rw (inside_test inside) refl,
      erase_at-past index 0 ws inside,
      λ i. get_elem?-erase_at index i ws,
    ),
    λ outside. removal_command index ws fits ∙ rw (outside_test outside) refl,
  )
    where
      inside_test : index < length ws → leb (length ws) index ≡ false
      inside_test h = ground arith

      outside_test : length ws ≤ index → leb (length ws) index ≡ true
      outside_test h = ground arith
