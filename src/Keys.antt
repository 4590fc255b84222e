-- ===== src/Keys.antt =====
-- openssl/envelope_key.cpp: the copies, moves and destruction of EnvelopeKey objects, and OpenSSL's
-- reference counts of the keys that they wrap.
pub mod Counts
pub mod Pem
pub mod Saved
use pollbook_server.Prelude.{
  ℕ, zero, suc, ◌-◌, Option, none, some, List, [], ◌∷◌, ◌++◌, get_elem?, ◌==◌, nat_eq,
  if◌then◌else◌,
}

-- The key objects of OpenSSL by their address, each with its number of references, which is zero
-- before it is allocated and after it is freed; and the EnvelopeKey objects that exist, each with
-- the pointer that it wraps.
pub record KeyHeap : Type 0 where
  pub refs : ℕ → ℕ
  pub keys : List (Option ℕ)

-- `null_key` is the reference count of the null pointer, and `freed_key` the use of a key that has
-- been freed: C++ promises nothing of either. `impossible` is an operation on an object that does
-- not exist, or the allocation of an address in use, neither of which a program can perform.
pub data KeyRun : Type 0 where
  kept : KeyHeap → KeyRun
  null_key freed_key impossible : KeyRun

infixl 5 ◌>>=◌
abbrev pub ◌>>=◌ : KeyRun → (KeyHeap → KeyRun) → KeyRun
kept h >>= f = f h
null_key >>= f = null_key
freed_key >>= f = freed_key
impossible >>= f = impossible

abbrev pub with_refs : ℕ → ℕ → KeyHeap → KeyHeap
with_refs p n h = record h { refs = λ q. if q == p then n else h.refs q }

-- EVP_PKEY_up_ref
unfoldable pub up_ref : Option ℕ → KeyHeap → KeyRun
up_ref none h = null_key
up_ref (some p) h = if h.refs p == 0 then freed_key else kept (with_refs p (suc (h.refs p)) h)

-- EVP_PKEY_free, as the deleter calls it
unfoldable pub free_key : Option ℕ → KeyHeap → KeyRun
free_key none h = kept h
free_key (some p) h = if h.refs p == 0 then freed_key else kept (with_refs p (h.refs p - 1) h)

unfoldable pub set_elem : ℕ → Option ℕ → List (Option ℕ) → List (Option ℕ)
set_elem i key [] = []
set_elem zero key (k ∷ ks) = key ∷ ks
set_elem (suc i) key (k ∷ ks) = k ∷ set_elem i key ks

unfoldable pub remove_elem : ℕ → List (Option ℕ) → List (Option ℕ)
remove_elem i [] = []
remove_elem zero (k ∷ ks) = ks
remove_elem (suc i) (k ∷ ks) = k ∷ remove_elem i ks

-- What is done with the pointer of the object at a place.
unfoldable pub with_key : ℕ → KeyHeap → (Option ℕ → KeyRun) → KeyRun
with_key i h f = elim (get_elem? h.keys i) [ none ↦ impossible | some key ↦ f key ]

-- EnvelopeKey(EVP_PKEY*), of what a function of OpenSSL has just allocated, or of its null pointer
unfoldable pub wrap : Option ℕ → KeyHeap → KeyRun
wrap none h = kept (record h { keys = h.keys ++ none ∷ [] })
wrap (some p) h =
    if h.refs p == 0
    then kept (record (with_refs p 1 h) { keys = h.keys ++ some p ∷ [] })
    else impossible

-- EnvelopeKey(const EnvelopeKey&)
unfoldable pub copy_key : ℕ → KeyHeap → KeyRun
unfolding with_key up_ref
copy_key i h = with_key i h λ key. up_ref key (record h { keys = h.keys ++ key ∷ [] })

-- operator=(const EnvelopeKey&): unique_ptr::reset frees the old key before the new one's count
-- goes up.
unfoldable pub assign_key : ℕ → ℕ → KeyHeap → KeyRun
unfolding with_key up_ref free_key set_elem
assign_key i j h = with_key i h λ old. with_key j h λ key.
    if i == j
    then kept h
    else (do h1 ← free_key old (record h { keys = set_elem i key h.keys }); up_ref key h1)

-- EnvelopeKey(EnvelopeKey&&)
unfoldable pub move_key : ℕ → KeyHeap → KeyRun
unfolding with_key set_elem
move_key i h = with_key i h λ key. kept (record h { keys = set_elem i none h.keys ++ key ∷ [] })

-- operator=(EnvelopeKey&&): a move to itself leaves a unique_ptr as it was.
unfoldable pub move_assign_key : ℕ → ℕ → KeyHeap → KeyRun
unfolding with_key free_key set_elem
move_assign_key i j h = with_key i h λ old. with_key j h λ key.
    if i == j
    then kept h
    else free_key old (record h { keys = set_elem j none (set_elem i key h.keys) })

-- The end of an object's life; those after it move up by one place.
unfoldable pub destroy_key : ℕ → KeyHeap → KeyRun
unfolding with_key free_key remove_elem
destroy_key i h = with_key i h λ key. free_key key (record h { keys = remove_elem i h.keys })

pub data KeyOperation : Type 0 where
  wraps : Option ℕ → KeyOperation
  copies moves destroys : ℕ → KeyOperation
  assigns move_assigns : ℕ → ℕ → KeyOperation

unfoldable pub key_step : KeyOperation → KeyHeap → KeyRun
unfolding wrap copy_key assign_key move_key move_assign_key destroy_key
key_step (wraps key) h = wrap key h
key_step (copies i) h = copy_key i h
key_step (moves i) h = move_key i h
key_step (destroys i) h = destroy_key i h
key_step (assigns i j) h = assign_key i j h
key_step (move_assigns i j) h = move_assign_key i j h

unfoldable pub key_run : List KeyOperation → KeyHeap → KeyRun
unfolding key_step
key_run [] h = kept h
key_run (op ∷ ops) h = do h1 ← key_step op h; key_run ops h1
