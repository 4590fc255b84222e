-- ===== src/Keys/Saved.antt =====
-- EnvelopeKey::to_pem_public and EnvelopeKey::from_pem_public together, by way of a file.
use pollbook_server.Prelude.{
  ℕ, ◌≡◌, refl, sym, ap, false, Option, none, some, ◌==◌, text_eq, Text, codes,
}
use pollbook_server.Map.{lookup, insert, lookup-insert, beq_refl}
use pollbook_server.Keys.Pem.{
  loaded, Files, PemFunctions, file_exception, openssl_error, open_read, from_pem_public,
  to_pem_public_file, write_file, read_file,
}

module _ (p : PemFunctions) (key name : Text) (files : Files) where
  abbrev holding : Text → Files
  holding pem = record files { contents = insert name (files.at_close name pem) files.contents }

  -- A write that throws nothing has written what PEM makes of the key.
  written :
      (refused : Option ℕ) (made : Option Text) (files' : Files)
      → write_file p key name files refused made ≡ (files', none)
      → (pem : Text) × (made ≡ some pem) × (files' ≡ holding pem)
  unfolding write_file
  written (some errno) made files' h =
      let e : some (file_exception errno name) ≡ none = ap (λ r. r.1) h in cc
  written none none files' h =
      let e : some (openssl_error (codes "Write public key to file")) ≡ none = ap (λ r. r.1) h in cc
  written none (some pem) files' h = (pem, refl, sym (ap (λ r. r.0) h))

  loads :
      (pem public_key : Text)
      → p.read_public (files.at_close name pem) ≡ some public_key
      → files.refuses_read name ≡ none
      → from_pem_public p name (holding pem) ≡ loaded public_key
  unfolding from_pem_public open_read read_file
  loads pem public_key reads readable = rw (
    readable,
    lookup-insert name name (files.at_close name pem) files.contents,
    beq_refl name,
    reads,
  )

  -- A key that has been saved without an exception is the public key that is loaded from the file
  -- of this name afterwards, whatever the file held before, and every other file is as it was, if
  -- fclose brings all that was written to the file, which no exception tells of, the system lets the
  -- file be read, and PEM reads what it has written of this key.
  pub saved_key_loads :
      (public_key other : Text) (files' : Files)
      → ((pem : Text) → p.write_public key ≡ some pem → p.read_public pem ≡ some public_key)
      → ((bytes : Text) → files.at_close name bytes ≡ bytes)
      → files.refuses_read name ≡ none
      → (name == other) ≡ false
      → to_pem_public_file p key name files ≡ (files', none)
      → (from_pem_public p name files' ≡ loaded public_key)
        × (lookup other files'.contents ≡ lookup other files.contents)
  unfolding to_pem_public_file
  saved_key_loads public_key other files' reads flushes readable apart saves =
      let (pem, makes, holds) =
        written (files.refuses_write name) (p.write_public key) files' saves in
      (
        rw holds (loads pem public_key (rw (flushes pem) (reads pem makes)) readable),
        rw (holds, lookup-insert name other (files.at_close name pem) files.contents, apart),
      )
