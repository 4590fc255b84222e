-- ===== src/Config/Phases.antt =====
-- The phases that the threads of Config::initialize and Config::getInstance go through together.
use pollbook_server.Prelude.{
  ◌≡◌, refl, sym, ap, subst, ◌∙◌, ◌≢◌, inl, inr, ℕ, Bool, Bool-cases, true, false, Option, none,
  some, ◌==◌, nat_eq, nat_beq_iff, if◌then◌else◌, Text,
}
use pollbook_server.Config.{IniFile}
use pollbook_server.Config.Threads.{
  Flag, uninitialized, initializing, initialized, Place, at_test, at_exchange, constructing,
  publishing, spinning, returned, threw, Singleton, move, exchange, step_at, thread_step,
  default_config_file, after_waiting, is_initialized,
}

-- A thread that neither makes the configuration, nor has made it, nor has seen it.
abbrev pub IsOutside : Place → Type 0
IsOutside at_test = Unit
IsOutside (at_exchange path inside) = Unit
IsOutside (constructing path inside) = ⊥
IsOutside (publishing inside) = ⊥
IsOutside (spinning inside) = Unit
IsOutside returned = ⊥
IsOutside threw = ⊥

abbrev pub IsSettled : Place → Type 0
IsSettled at_test = Unit
IsSettled (at_exchange path inside) = Unit
IsSettled (constructing path inside) = ⊥
IsSettled (publishing inside) = ⊥
IsSettled (spinning inside) = Unit
IsSettled returned = Unit
IsSettled threw = ⊥

-- The others are outside, and wait for the thread `o`.
abbrev pub IsBusy : ℕ → Singleton → Type 0
IsBusy o s = (s.flag ≡ initializing) × ((u : ℕ) → (u == o) ≡ false → IsOutside (s.place u))

pub data Phase (s : Singleton) : Type 0 where
  untouched : s.flag ≡ uninitialized → s.config ≡ none → ((u : ℕ) → IsOutside (s.place u)) → Phase s
  making :
      (o : ℕ) (path : Text) (inside : Bool)
      → IsBusy o s
      → s.config ≡ none
      → s.place o ≡ constructing path inside
      → Phase s
  storing :
      (o : ℕ) (inside : Bool) (file : IniFile)
      → IsBusy o s
      → s.config ≡ some file
      → s.place o ≡ publishing inside
      → Phase s
  failed : (o : ℕ) → IsBusy o s → s.config ≡ none → s.place o ≡ threw → Phase s
  ready :
      (file : IniFile)
      → s.flag ≡ initialized
      → s.config ≡ some file
      → ((u : ℕ) → IsSettled (s.place u))
      → Phase s

pub moved_self : (t : ℕ) (p : Place) (s : Singleton) → (move t p s).place t ≡ p
unfolding move
moved_self t p s = rw ((nat_beq_iff t t).1 refl)

pub moved_other :
    (t u : ℕ) (p : Place) (s : Singleton) → (u == t) ≡ false → (move t p s).place u ≡ s.place u
unfolding move
moved_other t u p s miss = rw miss

-- What all threads satisfy, but for those that `except` picks, after one has moved.
pub moved_all :
    (P : Place → Type 0) (except : ℕ → Type 0) (t : ℕ) (p : Place) (s : Singleton)
    → P p
    → ((u : ℕ) → except u → P (s.place u))
    → (u : ℕ) → except u
    → P ((move t p s).place u)
moved_all P except t p s here h u e = elim (Bool-cases (u == t)) [
  | inl hit ↦
      subst (λ v. P ((move t p s).place v)) (sym ((nat_beq_iff u t).0 hit))
        (subst P (sym (moved_self t p s)) here)
  | inr miss ↦ subst P (sym (moved_other t u p s miss)) (h u e)
]

module _ (contents : Text → Option IniFile) where
  -- A thread that waits for another changes its own place only.
  abbrev pub Waits : ℕ → Singleton → Singleton → Type 0
  Waits o s s' = IsBusy o s' × (s'.config ≡ s.config) × (s'.place o ≡ s.place o)

  moves :
      (t o : ℕ) (p : Place) (s : Singleton)
      → (o == t) ≡ false
      → IsOutside p
      → IsBusy o s
      → Waits o s (move t p s)
  unfolding move
  moves t o p s miss out (flag, others) = (
    (flag, moved_all IsOutside (λ u. (u == o) ≡ false) t p s out others),
    refl,
    moved_other t o p s miss,
  )

  -- What the step of a thread that is not the owner moves it to.
  abbrev pub next : Flag → Place → Place
  next f at_test = if is_initialized f then returned else at_exchange default_config_file true
  next f (at_exchange path inside) = spinning inside
  next f (constructing path inside) = constructing path inside
  next f (publishing inside) = publishing inside
  next f (spinning inside) =
      if is_initialized f then after_waiting contents inside else spinning inside
  next f returned = returned
  next f threw = threw

  pub step_at-move :
      (t : ℕ) (f : Flag) (p : Place) (s : Singleton)
      → f ≢ uninitialized
      → IsSettled p
      → p ≢ returned
      → s.flag ≡ f
      → step_at contents t p s ≡ move t (next f p) s
  unfolding step_at exchange
  step_at-move t f at_test s begun out ne e =
      ap
        (λ g.
          move t (if is_initialized g then returned else at_exchange default_config_file true) s)
        e
  step_at-move t f (at_exchange path inside) s begun out ne e =
      ap (λ g. exchange contents t path inside g s) e ∙ exchanged f begun
    where
      exchanged :
          (g : Flag)
          → g ≢ uninitialized
          → exchange contents t path inside g s ≡ move t (spinning inside) s
      exchanged uninitialized b = absurd (b refl)
      exchanged initializing b = refl
      exchanged initialized b = refl
  step_at-move t f (constructing path inside) s begun out ne e = absurd out
  step_at-move t f (publishing inside) s begun out ne e = absurd out
  step_at-move t f (spinning inside) s begun out ne e =
      ap
        (λ g.
          move t (if is_initialized g then after_waiting contents inside else spinning inside) s)
        e
  step_at-move t f returned s begun out ne e = absurd (ne refl)
  step_at-move t f threw s begun out ne e = absurd out

  next-IsOutside :
      (p : Place) → IsOutside p → IsOutside (next initializing p) × IsSettled p × (p ≢ returned)
  next-IsOutside at_test out = (tt, tt, λ e. cc)
  next-IsOutside (at_exchange path inside) out = (tt, tt, λ e. cc)
  next-IsOutside (constructing path inside) out = absurd out
  next-IsOutside (publishing inside) out = absurd out
  next-IsOutside (spinning inside) out = (tt, tt, λ e. cc)
  next-IsOutside returned out = absurd out
  next-IsOutside threw out = absurd out

  pub step-Waits :
      (t o : ℕ) (s : Singleton)
      → (o == t) ≡ false
      → IsOutside (s.place t)
      → IsBusy o s
      → Waits o s (thread_step contents t s)
  unfolding thread_step
  step-Waits t o s miss out b =
      let (out', settled, ne) = next-IsOutside (s.place t) out in
      subst (Waits o s) (sym (step_at-move t initializing (s.place t) s (λ e. cc) settled ne b.0))
        (moves t o (next initializing (s.place t)) s miss out' b)

  pub next-IsSettled : (p : Place) → IsSettled p → IsSettled (next initialized p)
  next-IsSettled at_test h = tt
  next-IsSettled (at_exchange path inside) h = tt
  next-IsSettled (constructing path inside) h = absurd h
  next-IsSettled (publishing inside) h = absurd h
  next-IsSettled (spinning true) h = tt
  next-IsSettled (spinning false) h = tt
  next-IsSettled returned h = tt
  next-IsSettled threw h = absurd h
