-- ===== src/Tests/KeyCopies.antt =====
-- Two EnvelopeKey objects for one key, assigned to each other and destroyed, and a key in a file.
use pollbook_server.Prelude.{ℕ, ◌≡◌, refl, sym, none, some, List, [], ◌∷◌, text_eq, text_beq, codes}
use pollbook_server.Keys.{
  KeyHeap, KeyRun, kept, null_key, up_ref, free_key, set_elem, remove_elem, with_key, wrap,
  copy_key, assign_key, move_key, move_assign_key, destroy_key, KeyOperation, wraps, copies, moves,
  destroys, assigns, move_assigns, key_step, key_run,
}
use pollbook_server.Keys.Pem.{
  loaded, raised, file_not_found, Files, PemFunctions, file_exception, read_file, open_read,
  write_file, from_pem_public, to_pem_public_file,
}
use pollbook_server.Keys.Saved.{saved_key_loads}
use pollbook_server.Map.{lookup, insert}
use pollbook_server.Keys.Counts.{IsSafe, key_run-IsSafe}

key_functions : ℕ
unfolding up_ref free_key set_elem remove_elem with_key wrap copy_key assign_key move_key
    move_assign_key destroy_key key_step key_run
key_functions = 0

abbrev no_keys : KeyHeap
no_keys = record { refs = λ p. 0; keys = [] }

abbrev key_uses : List KeyOperation
key_uses = wraps (some 5) ∷ copies 0 ∷ assigns 0 1 ∷ moves 0 ∷ move_assigns 1 2 ∷ destroys 0 ∷ []

references : KeyRun → ℕ
references (kept h) = h.refs 5
references _ = 100

one_left : references (key_run key_uses no_keys) ≡ 1
unfolding key_functions references
one_left = refl

-- A copy of an object that has been moved from passes a null pointer to EVP_PKEY_up_ref.
copy_of_empty : key_run (wraps (some 5) ∷ moves 0 ∷ copies 0 ∷ []) no_keys ≡ null_key
unfolding key_functions
copy_of_empty = refl

key_run-IsSafe_example : IsSafe (key_run key_uses no_keys)
key_run-IsSafe_example = key_run-IsSafe key_uses no_keys (λ p. refl)

-- A PEM of the sample repeats the key, and a private key begins with 1.
abbrev sample_pem : PemFunctions
sample_pem = record {
  read_public = λ text. some text;
  read_private = λ text. some (1 ∷ text);
  write_public = λ key. some key;
  written_before = λ key. [];
}

abbrev key_folder : Files
key_folder = record {
  contents = (codes "a.pem", 7 ∷ []) ∷ (codes "b.pem", 8 ∷ []) ∷ [];
  refuses_read = λ name. none;
  refuses_write = λ name. none;
  at_close = λ name bytes. bytes;
}

abbrev key_folder_after : Files
key_folder_after = record key_folder {
  contents = (codes "a.pem", 9 ∷ []) ∷ (codes "b.pem", 8 ∷ []) ∷ [];
}

key_file_missing :
    from_pem_public sample_pem (codes "c.pem") key_folder
    ≡ raised (file_not_found 2 (codes "c.pem"))
unfolding from_pem_public open_read read_file file_exception lookup text_beq
key_file_missing = refl

saved_key_loads_example :
    (from_pem_public sample_pem (codes "a.pem") key_folder_after ≡ loaded (9 ∷ []))
    × (lookup (codes "b.pem") key_folder_after.contents
        ≡ lookup (codes "b.pem") key_folder.contents)
unfolding from_pem_public open_read read_file to_pem_public_file write_file lookup insert text_beq
saved_key_loads_example =
    saved_key_loads sample_pem (9 ∷ []) (codes "a.pem") key_folder (9 ∷ []) (codes "b.pem")
      key_folder_after (λ pem h. sym h) (λ bytes. refl) refl refl refl
