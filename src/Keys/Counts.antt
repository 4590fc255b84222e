-- ===== src/Keys/Counts.antt =====
-- The reference counts of the keys and the EnvelopeKey objects that hold them.
use pollbook_server.Prelude.{
  ℕ, zero, suc, ◌+◌, ◌-◌, ◌≤◌, ◌≡◌, refl, sym, ap, ◌∙◌, Bool, true, false, Option, none, some, List,
  [], ◌∷◌, ◌++◌, get_elem?, ◌==◌, nat_eq, nat_beq_iff, if◌then◌else◌, arith,
}
use pollbook_server.Keys.{
  KeyHeap, KeyRun, kept, null_key, freed_key, impossible, ◌>>=◌, with_refs, up_ref, free_key,
  set_elem, remove_elem, with_key, wrap, copy_key, assign_key, move_key, move_assign_key,
  destroy_key, KeyOperation, wraps, copies, moves, destroys, assigns, move_assigns, key_step,
  key_run,
}

-- Whether this is a pointer to the key at an address, as a number.
abbrev pub hits : ℕ → Option ℕ → ℕ
hits p none = 0
hits p (some q) = if p == q then 1 else 0

-- How many objects hold the key at an address.
abbrev pub holders : ℕ → List (Option ℕ) → ℕ
holders p [] = 0
holders p (k ∷ ks) = hits p k + holders p ks

-- Each key is counted exactly as often as objects hold it.
abbrev pub IsCounted : KeyHeap → Type 0
IsCounted h = (p : ℕ) → h.refs p ≡ holders p h.keys

-- No freed key has been used, and what is left is counted.
abbrev pub IsSafe : KeyRun → Type 0
IsSafe (kept h) = IsCounted h
IsSafe freed_key = ⊥
IsSafe _ = Unit

holders-append :
    (p : ℕ) (ks : List (Option ℕ)) (k : Option ℕ)
    → holders p (ks ++ k ∷ []) ≡ holders p ks + hits p k
holders-append p [] k = omega arith
holders-append p (l ∷ ks) k = omega (arith, holders-append p ks k)

holders-set :
    (p i : ℕ) (new old : Option ℕ) (ks : List (Option ℕ))
    → get_elem? ks i ≡ some old
    → holders p (set_elem i new ks) + hits p old ≡ holders p ks + hits p new
unfolding set_elem
holders-set p i new old [] h = cc
holders-set p zero new old (k ∷ ks) h = grind arith
holders-set p (suc i) new old (k ∷ ks) h = omega (arith, holders-set p i new old ks h)

holders-remove :
    (p i : ℕ) (old : Option ℕ) (ks : List (Option ℕ))
    → get_elem? ks i ≡ some old
    → holders p (remove_elem i ks) + hits p old ≡ holders p ks
unfolding remove_elem
holders-remove p i old [] h = cc
holders-remove p zero old (k ∷ ks) h = grind arith
holders-remove p (suc i) old (k ∷ ks) h = omega (arith, holders-remove p i old ks h)

get-set :
    (i j : ℕ) (new : Option ℕ) (ks : List (Option ℕ))
    → (i == j) ≡ false
    → get_elem? (set_elem i new ks) j ≡ get_elem? ks j
unfolding set_elem
get-set i j new [] h = refl
get-set zero zero new (k ∷ ks) h = cc
get-set zero (suc j) new (k ∷ ks) h = refl
get-set (suc i) zero new (k ∷ ks) h = refl
get-set (suc i) (suc j) new (k ∷ ks) h = get-set i j new ks (ground arith)

holds :
    (p i : ℕ) (k : Option ℕ) (ks : List (Option ℕ))
    → get_elem? ks i ≡ some k
    → hits p k ≤ holders p ks
holds p i k ks h = omega (arith, holders-remove p i k ks h)

lowered :
    (refs : ℕ → ℕ) (p q : ℕ)
    → 1 ≤ refs p
    → (if q == p then refs p - 1 else refs q) + hits q (some p) ≡ refs q
lowered refs p q h = grind arith

raised :
    (refs : ℕ → ℕ) (p q : ℕ) → (if q == p then suc (refs p) else refs q) ≡ refs q + hits q (some p)
raised refs p q = grind arith

allotted :
    (refs : ℕ → ℕ) (p q : ℕ)
    → refs p ≡ 0
    → (if q == p then 1 else refs q) ≡ refs q + hits q (some p)
allotted refs p q h = grind arith

hits_self : (p : ℕ) → hits p (some p) ≡ 1
hits_self p = rw ((nat_beq_iff p p).1 refl)

is_alive : (p : ℕ) (h : KeyHeap) → hits p (some p) ≤ h.refs p → (h.refs p == 0) ≡ false
is_alive p h le = let pos : 1 ≤ h.refs p = rw (← hits_self p) le in ground arith

free-then :
    (k : Option ℕ) (h : KeyHeap) (f : KeyHeap → KeyRun)
    → ((p : ℕ) → hits p k ≤ h.refs p)
    → ((h1 : KeyHeap)
        → h1.keys ≡ h.keys
        → ((p : ℕ) → h1.refs p + hits p k ≡ h.refs p)
        → IsSafe (f h1))
    → IsSafe (free_key k h >>= f)
unfolding free_key
free-then none h f le next = next h refl (λ p. omega arith)
free-then (some p) h f le next =
    let pos : 1 ≤ h.refs p = rw (← hits_self p) (le p) in
    rw (is_alive p h (le p))
      (next (with_refs p (h.refs p - 1) h) refl (λ q. lowered h.refs p q pos))

up_ref-IsSafe :
    (k : Option ℕ) (h : KeyHeap)
    → ((p : ℕ) → hits p k ≤ h.refs p)
    → ((p : ℕ) → h.refs p + hits p k ≡ holders p h.keys)
    → IsSafe (up_ref k h)
unfolding up_ref
up_ref-IsSafe none h le owed = tt
up_ref-IsSafe (some p) h le owed = rw (is_alive p h (le p)) (λ q. raised h.refs p q ∙ owed q)

free_key-IsSafe :
    (k : Option ℕ) (h : KeyHeap)
    → ((p : ℕ) → h.refs p ≡ holders p h.keys + hits p k)
    → IsSafe (free_key k h)
unfolding free_key
free_key-IsSafe none h owed = λ p. omega (arith, owed p)
free_key-IsSafe (some p) h owed =
    let le : (q : ℕ) → hits q (some p) ≤ h.refs q = λ q. omega (arith, owed q) in
    let pos : 1 ≤ h.refs p = rw (← hits_self p) (le p) in
    rw (is_alive p h (le p)) (λ q. omega (arith, lowered h.refs p q pos, owed q))

if-IsSafe :
    (b : Bool) (m n : KeyRun)
    → (b ≡ true → IsSafe m)
    → (b ≡ false → IsSafe n)
    → IsSafe (if b then m else n)
if-IsSafe true m n km kn = km refl
if-IsSafe false m n km kn = kn refl

option-IsSafe :
    (o : Option (Option ℕ)) (f : Option ℕ → KeyRun)
    → ((k : Option ℕ) → o ≡ some k → IsSafe (f k))
    → IsSafe (elim o [ none ↦ impossible | some key ↦ f key ])
option-IsSafe none f next = tt
option-IsSafe (some k) f next = next k refl

with_key-IsSafe :
    (i : ℕ) (h : KeyHeap) (f : Option ℕ → KeyRun)
    → ((k : Option ℕ) → get_elem? h.keys i ≡ some k → IsSafe (f k))
    → IsSafe (with_key i h f)
unfolding with_key
with_key-IsSafe i h f next = option-IsSafe (get_elem? h.keys i) f next

wrap-IsSafe : (k : Option ℕ) (h : KeyHeap) → IsCounted h → IsSafe (wrap k h)
unfolding wrap
wrap-IsSafe none h c = λ p. omega (arith, c p, holders-append p h.keys none)
wrap-IsSafe (some q) h c =
    if-IsSafe (h.refs q == 0) _ _
      (λ zeroed p.
        allotted h.refs q p ((nat_beq_iff (h.refs q) 0).0 zeroed)
        ∙ ap (λ n. n + hits p (some q)) (c p)
        ∙ sym (holders-append p h.keys (some q)))
      (λ _. tt)

copy_key-IsSafe : (i : ℕ) (h : KeyHeap) → IsCounted h → IsSafe (copy_key i h)
unfolding copy_key
copy_key-IsSafe i h c = with_key-IsSafe i h _ λ k at.
    up_ref-IsSafe k (record h { keys = h.keys ++ k ∷ [] })
      (λ p. omega (arith, c p, holds p i k h.keys at))
      (λ p. omega (arith, c p, holders-append p h.keys k))

assign_key-IsSafe : (i j : ℕ) (h : KeyHeap) → IsCounted h → IsSafe (assign_key i j h)
unfolding assign_key
assign_key-IsSafe i j h c = with_key-IsSafe i h _ λ old at_i. with_key-IsSafe j h _ λ k at_j.
    if-IsSafe (i == j) _ _ (λ _. c)
      λ apart.
        free-then old (record h { keys = set_elem i k h.keys }) (up_ref k)
          (λ p. omega (arith, c p, holds p i old h.keys at_i))
          λ h1 same less.
            up_ref-IsSafe k h1
              (λ p. omega (
                arith,
                c p,
                less p,
                holders-set p i none old h.keys at_i,
                holds p j k (set_elem i none h.keys) (get-set i j none h.keys apart ∙ at_j),
              ))
              (λ p. rw same (omega (arith, c p, less p, holders-set p i k old h.keys at_i)))

move_key-IsSafe : (i : ℕ) (h : KeyHeap) → IsCounted h → IsSafe (move_key i h)
unfolding move_key
move_key-IsSafe i h c = with_key-IsSafe i h _ λ k at p.
    omega
      (arith, c p, holders-set p i none k h.keys at, holders-append p (set_elem i none h.keys) k)

move_assign_key-IsSafe : (i j : ℕ) (h : KeyHeap) → IsCounted h → IsSafe (move_assign_key i j h)
unfolding move_assign_key
move_assign_key-IsSafe i j h c = with_key-IsSafe i h _ λ old at_i. with_key-IsSafe j h _ λ k at_j.
    if-IsSafe (i == j) _ _ (λ _. c)
      λ apart. free_key-IsSafe old _ λ p. omega (
        arith,
        c p,
        holders-set p i k old h.keys at_i,
        holders-set p j none k (set_elem i k h.keys) (get-set i j k h.keys apart ∙ at_j),
      )

destroy_key-IsSafe : (i : ℕ) (h : KeyHeap) → IsCounted h → IsSafe (destroy_key i h)
unfolding destroy_key
destroy_key-IsSafe i h c =
    with_key-IsSafe i h _
      λ k at. free_key-IsSafe k _ λ p. omega (arith, c p, holders-remove p i k h.keys at)

step-IsSafe : (op : KeyOperation) (h : KeyHeap) → IsCounted h → IsSafe (key_step op h)
unfolding key_step
step-IsSafe (wraps k) h c = wrap-IsSafe k h c
step-IsSafe (copies i) h c = copy_key-IsSafe i h c
step-IsSafe (moves i) h c = move_key-IsSafe i h c
step-IsSafe (destroys i) h c = destroy_key-IsSafe i h c
step-IsSafe (assigns i j) h c = assign_key-IsSafe i j h c
step-IsSafe (move_assigns i j) h c = move_assign_key-IsSafe i j h c

bind-IsSafe :
    (m : KeyRun) (f : KeyHeap → KeyRun)
    → IsSafe m
    → ((h : KeyHeap) → IsCounted h → IsSafe (f h))
    → IsSafe (m >>= f)
bind-IsSafe (kept h) f c next = next h c
bind-IsSafe null_key f c next = tt
bind-IsSafe impossible f c next = tt
bind-IsSafe freed_key f c next = c

-- However keys are copied, moved, assigned, also from one object to another that wraps the same
-- key, and destroyed, no run uses a key that has been freed, and after it each key is counted as
-- often as objects hold it: so it is freed with the last of them, and none is lost.
pub key_run-IsSafe : (ops : List KeyOperation) (h : KeyHeap) → IsCounted h → IsSafe (key_run ops h)
unfolding key_run
key_run-IsSafe [] h c = c
key_run-IsSafe (op ∷ ops) h c =
    bind-IsSafe (key_step op h) (key_run ops) (step-IsSafe op h c) (key_run-IsSafe ops)
