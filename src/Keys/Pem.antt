-- ===== src/Keys/Pem.antt =====
-- openssl/envelope_key.cpp: keys read from PEM files and written to them.
use pollbook_server.Prelude.{
  ℕ, Option, none, some, ◌||◌, ◌==◌, nat_eq, text_eq, if◌then◌else◌, Text, codes,
}
use pollbook_server.Map.{Map, lookup, insert}

-- The exceptions, with errno and the name of the file, or with the call that failed.
pub data KeyError : Type 0 where
  permission_denied file_not_found file_error : ℕ → Text → KeyError
  openssl_error : Text → KeyError

pub data KeyResult {ℓ} (A : Type ℓ) : Type ℓ where
  loaded : A → KeyResult A
  raised : KeyError → KeyResult A

infixl 5 ◌>>=◌
abbrev pub ◌>>=◌ {ℓ κ} : {A : Type ℓ} {B : Type κ} → KeyResult A → (A → KeyResult B) → KeyResult B
loaded a >>= f = f a
raised e >>= f = raised e

-- EPERM, ENOENT and EACCES of Linux
abbrev pub eperm : ℕ
eperm = 1

abbrev pub enoent : ℕ
enoent = 2

abbrev pub eacces : ℕ
eacces = 13

-- The files by name, and the errno with which the system refuses to open one, if it does. What
-- PEM_write_PUBKEY writes is buffered: `at_close` says what of it fclose brings to the file of this
-- name, all or a part.
pub record Files : Type 0 where
  pub contents : Map Text Text
  pub refuses_read : Text → Option ℕ
  pub refuses_write : Text → Option ℕ
  pub at_close : Text → Text → Text

-- OpenSSL's PEM functions. A key is named by its encoding; `none` is a failure.
pub record PemFunctions : Type 0 where
  -- PEM_read_PUBKEY, PEM_read_PrivateKey and PEM_write_PUBKEY
  pub read_public : Text → Option Text
  pub read_private : Text → Option Text
  pub write_public : Text → Option Text
  -- what a write that fails has written before
  pub written_before : Text → Text

-- switch(errno)
unfoldable pub file_exception : ℕ → Text → KeyError
file_exception errno name =
    if errno == eacces || errno == eperm
    then permission_denied errno name
    else if errno == enoent
    then file_not_found errno name
    else file_error errno name

-- fopen(name, "r"): the errno, if the system refuses, and what the file holds, if there is one
unfoldable pub read_file : Text → Option ℕ → Option Text → KeyResult Text
unfolding file_exception
read_file name (some errno) text = raised (file_exception errno name)
read_file name none none = raised (file_exception enoent name)
read_file name none (some text) = loaded text

unfoldable pub open_read : Text → Files → KeyResult Text
unfolding read_file
open_read name files = read_file name (files.refuses_read name) (lookup name files.contents)

-- if(!key) throw openssl_error(…)
abbrev pub or_raise {ℓ} : {A : Type ℓ} → Text → Option A → KeyResult A
or_raise message none = raised (openssl_error message)
or_raise message (some a) = loaded a

module _ (p : PemFunctions) where
  unfoldable pub from_pem_public_buffer : Text → KeyResult Text
  from_pem_public_buffer bytes = or_raise (codes "Load public key") (p.read_public bytes)

  unfoldable pub from_pem_private_buffer : Text → KeyResult Text
  from_pem_private_buffer bytes = or_raise (codes "Load private key") (p.read_private bytes)

  unfoldable pub from_pem_public : Text → Files → KeyResult Text
  unfolding open_read
  from_pem_public name files = do
    text ← open_read name files
    or_raise (codes "Load public key") (p.read_public text)

  unfoldable pub from_pem_private : Text → Files → KeyResult Text
  unfolding open_read
  from_pem_private name files = do
    text ← open_read name files
    or_raise (codes "Load private key") (p.read_private text)

  unfoldable pub to_pem_public : Text → KeyResult Text
  to_pem_public key = or_raise (codes "Write public key to memory") (p.write_public key)

  -- The files afterwards, and the exception, if there is one. fopen(name, "w") empties the file
  -- before the key is written, and nothing looks at what fclose returns.
  unfoldable pub write_file : Text → Text → Files → Option ℕ → Option Text → Files × Option KeyError
  unfolding file_exception
  write_file key name files (some errno) pem = (files, some (file_exception errno name))
  write_file key name files none none = (
    record files {
      contents = insert name (files.at_close name (p.written_before key)) files.contents;
    },
    some (openssl_error (codes "Write public key to file")),
  )
  write_file key name files none (some pem) =
      (record files { contents = insert name (files.at_close name pem) files.contents }, none)

  unfoldable pub to_pem_public_file : Text → Text → Files → Files × Option KeyError
  unfolding write_file
  to_pem_public_file key name files =
      write_file key name files (files.refuses_write name) (p.write_public key)
