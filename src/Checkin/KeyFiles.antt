-- ===== src/Checkin/KeyFiles.antt =====
-- CheckinService::save_pub_key, and load_client_public_keys of a later start.
use pollbook_server.Prelude.{
  ◌≡◌, refl, ap, subst, ◌∙◌, ℕ, ◌<◌, Option, none, some, List, [], ◌∷◌, ◌++◌, append-nil,
  append_assoc, arith, nat_eq, nat_beq_iff, Text, codes,
}
use pollbook_server.Map.{Map, lookup, emplace, lookup-emplace}
use pollbook_server.Text.{to_string, u32_mod}
use pollbook_server.Text.Decimal.{stoul-to_string}
use pollbook_server.Run.{done, done-injective, >>=-eq-done}
use pollbook_server.Signature.{new_verifier}
use pollbook_server.Checkin.State.{Service}
use pollbook_server.Checkin.Startup.{
  before_last?, before_last, strip, erase_first, key_file_client, load_client_public_keys,
}

-- The last part of the path to which save_pub_key writes a client's key, after the setting of the
-- key folder: the file's name there, if this setting ends in a slash.
unfoldable pub key_file_name : Text → ℕ → Text
key_file_name prefix client_id = prefix ++ (to_string client_id ++ codes ".pem")

before_last?-append :
    (d : ℕ) (s t u : Text) → before_last? d t ≡ some u → before_last? d (s ++ t) ≡ some (s ++ u)
unfolding before_last?
before_last?-append d [] t u h = h
before_last?-append d (c ∷ s) t u h = rw (before_last?-append d s t u h)

strip-append : (p s : Text) → strip p (p ++ s) ≡ some s
unfolding strip
strip-append [] s = refl
strip-append (c ∷ p) s = rw ((nat_beq_iff c c).1 refl) (strip-append p s)

erase_first-strip : (p t r : Text) → strip p t ≡ some r → erase_first p t ≡ some r
unfolding erase_first
erase_first-strip p [] r h = h
erase_first-strip p (c ∷ cs) r h = rw (h, erase_first)

no_extension : (s : Text) → before_last b'.' (s ++ codes ".pem") ≡ s
unfolding before_last before_last?
no_extension s = rw (before_last?-append b'.' s (codes ".pem") [] refl, before_last) (append-nil s)

-- The client is told from the name.
key_file_client-key_file_name :
    (prefix : Text) (id : ℕ)
    → id < u32_mod
    → key_file_client prefix (key_file_name prefix id) ≡ done id
unfolding key_file_client key_file_name
key_file_client-key_file_name prefix id h =
    rw
      (
        ← append_assoc prefix (to_string id) (codes ".pem"),
        no_extension (prefix ++ to_string id),
        erase_first-strip prefix (prefix ++ to_string id) _ (strip-append prefix (to_string id)),
        stoul-to_string id (omega arith),
      )
      (ap done (omega arith))

-- A client who has an entry keeps it.
emplace-kept {ℓ} :
    {V : Type ℓ} (id j : ℕ) (v w : V) (m : Map ℕ V)
    → lookup id m ≡ some v
    → lookup id (emplace j w m) ≡ some v
emplace-kept id j v w m h = lookup-emplace j id w m ∙ rw h

emplace-new {ℓ} :
    {V : Type ℓ} (id : ℕ) (v : V) (m : Map ℕ V)
    → lookup id m ≡ none
    → lookup id (emplace id v m) ≡ some v
emplace-new id v m h = lookup-emplace id id v m ∙ rw (h, (nat_beq_iff id id).1 refl)

-- The keys of the client are these.
abbrev pub HasKey : ℕ → Text → Service → Type 0
HasKey id key s =
    (lookup id s.client_verifiers ≡ some (new_verifier key))
    × (lookup id s.client_public_keys ≡ some key)

load-HasKey :
    (prefix : Text) (entries : List (Text × Option Text)) (s s' : Service) (id : ℕ) (k : Text)
    → HasKey id k s
    → load_client_public_keys prefix entries s ≡ done s'
    → HasKey id k s'
unfolding load_client_public_keys
load-HasKey prefix [] s s' id k h e = subst (HasKey id k) (done-injective s s' e) h
load-HasKey prefix ((name, none) ∷ entries) s s' id k h e =
    subst (HasKey id k) (done-injective s s' e) h
load-HasKey prefix ((name, some key) ∷ entries) s s' id k h e =
    let (j, _, rest) = >>=-eq-done (key_file_client prefix name) _ e in
    load-HasKey prefix entries _ s' id k
      (emplace-kept id j _ (new_verifier key) _ h.0, emplace-kept id j k key _ h.1) rest

-- A key in a file of this name is the client's key after a load of a key folder in which this file
-- comes first, whatever other files follow, if the client had no key.
pub saved_key-HasKey :
    (prefix : Text) (id : ℕ) (key : Text) (entries : List (Text × Option Text)) (s s' : Service)
    → id < u32_mod
    → lookup id s.client_verifiers ≡ none
    → lookup id s.client_public_keys ≡ none
    → load_client_public_keys prefix ((key_file_name prefix id, some key) ∷ entries) s ≡ done s'
    → HasKey id key s'
unfolding load_client_public_keys
saved_key-HasKey prefix id key entries s s' fits none1 none2 e =
    load-HasKey prefix entries _ s' id key
      (
        emplace-new id (new_verifier key) s.client_verifiers none1,
        emplace-new id key s.client_public_keys none2,
      )
      (rw (key_file_client-key_file_name prefix id fits) at e)
