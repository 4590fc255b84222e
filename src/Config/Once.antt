-- ===== src/Config/Once.antt =====
-- Config::initialize and Config::getInstance in every schedule of the threads.
use pollbook_server.Prelude.{
  ◌≡◌, ◌≢◌, refl, sym, ap, subst, ◌∙◌, ◌⊎◌, inl, inr, ℕ, Bool, Bool-cases, true, false, Option,
  none, some, List, [], ◌∷◌, ◌==◌, nat_eq, nat_beq_iff, if◌then◌else◌, Text, arith,
}
use pollbook_server.Run.{Run, done, throws}
use pollbook_server.Config.{IniFile, new_config}
use pollbook_server.Config.Threads.{
  uninitialized, initialized, Place, at_test, at_exchange, constructing, publishing, spinning,
  returned, threw, Singleton, move, exchange, constructed, step_at, thread_step, schedule,
  default_config_file, after_waiting, is_initialized,
}
use pollbook_server.Config.Phases.{
  IsOutside, IsSettled, IsBusy, Phase, moved_self, moved_other, moved_all, step_at-move, step-Waits,
  next-IsSettled,
}

pub flip : (a b : ℕ) → (a == b) ≡ false → (b == a) ≡ false
flip a b h = ground (arith, h)

pub same : (P : ℕ → Type 0) (a b : ℕ) → (a == b) ≡ true → P a → P b
same P a b h = subst P ((nat_beq_iff a b).0 h)

others-move :
    (t : ℕ) (p : Place) (s : Singleton)
    → ((u : ℕ) → (u == t) ≡ false → IsOutside (s.place u))
    → (u : ℕ) → (u == t) ≡ false
    → IsOutside ((move t p s).place u)
others-move t p s h u miss = subst IsOutside (sym (moved_other t u p s miss)) (h u miss)

IsOutside-IsSettled : (p : Place) → IsOutside p → IsSettled p
IsOutside-IsSettled at_test h = tt
IsOutside-IsSettled (at_exchange path inside) h = tt
IsOutside-IsSettled (constructing path inside) h = absurd h
IsOutside-IsSettled (publishing inside) h = absurd h
IsOutside-IsSettled (spinning inside) h = tt
IsOutside-IsSettled returned h = absurd h
IsOutside-IsSettled threw h = absurd h

move-IsSettled :
    (t : ℕ) (p : Place) (s : Singleton)
    → IsSettled p
    → ((u : ℕ) → (u == t) ≡ false → IsOutside (s.place u))
    → (u : ℕ) → IsSettled ((move t p s).place u)
move-IsSettled t p s here h u = elim (Bool-cases (u == t)) [
  | inl hit ↦
      subst (λ v. IsSettled ((move t p s).place v)) (sym ((nat_beq_iff u t).0 hit))
        (subst IsSettled (sym (moved_self t p s)) here)
  | inr miss ↦ IsOutside-IsSettled _ (others-move t p s h u miss)
]

module _ (contents : Text → Option IniFile) where
  made-Phase :
      (t : ℕ) (inside : Bool) (s : Singleton) (r : Run IniFile)
      → IsBusy t s
      → s.config ≡ none
      → Phase (constructed contents t inside r s)
  unfolding constructed move
  made-Phase t inside s (done file) b c =
      Phase.storing t inside file (b.0, others-move t (publishing inside) s b.1) refl
        (moved_self t (publishing inside) s)
  made-Phase t inside s throws b c =
      Phase.failed t (b.0, others-move t threw s b.1) c (moved_self t threw s)

  -- The owner of the phase takes a step.
  construct-Phase :
      (t : ℕ) (path : Text) (inside : Bool) (s : Singleton)
      → IsBusy t s
      → s.config ≡ none
      → s.place t ≡ constructing path inside
      → Phase (thread_step contents t s)
  unfolding thread_step step_at
  construct-Phase t path inside s b c here =
      subst (λ p. Phase (step_at contents t p s)) (sym here)
        (made-Phase t inside s (new_config (contents path)) b c)

  publish-Phase :
      (t : ℕ) (inside : Bool) (file : IniFile) (s : Singleton)
      → IsBusy t s
      → s.config ≡ some file
      → s.place t ≡ publishing inside
      → Phase (thread_step contents t s)
  unfolding thread_step step_at move
  publish-Phase t inside file s b c here =
      subst (λ p. Phase (step_at contents t p s)) (sym here)
        (Phase.ready file refl c (move-IsSettled t (spinning inside) s tt b.1))

  pub failed-still : (t : ℕ) (s : Singleton) → s.place t ≡ threw → thread_step contents t s ≡ s
  unfolding thread_step step_at
  failed-still t s here = ap (λ p. step_at contents t p s) here

  pub returned-still : (t : ℕ) (s : Singleton) → s.place t ≡ returned → thread_step contents t s ≡ s
  unfolding thread_step step_at
  returned-still t s here = ap (λ p. step_at contents t p s) here

  untouched_at :
      (t : ℕ) (p : Place) (s : Singleton)
      → s.flag ≡ uninitialized
      → s.config ≡ none
      → ((u : ℕ) → IsOutside (s.place u))
      → IsOutside p
      → Phase (step_at contents t p s)
  unfolding step_at exchange move
  untouched_at t at_test s f c out here =
      subst Phase
        (ap
          (λ g.
            move t (if is_initialized g then returned else at_exchange default_config_file true) s)
          (sym f))
        (Phase.untouched f c (all_outside (at_exchange default_config_file true) tt))
    where
      all_outside : (p : Place) → IsOutside p → (u : ℕ) → IsOutside ((move t p s).place u)
      all_outside p h u = moved_all IsOutside (λ u. Unit {0}) t p s h (λ u e. out u) u tt
  untouched_at t (at_exchange path inside) s f c out here =
      subst Phase (ap (λ g. exchange contents t path inside g s) (sym f)) (
        Phase.making t path inside (refl, others-move t (constructing path inside) s (λ u e. out u))
          c (moved_self t (constructing path inside) s))
  untouched_at t (constructing path inside) s f c out here = absurd here
  untouched_at t (publishing inside) s f c out here = absurd here
  untouched_at t (spinning inside) s f c out here =
      subst Phase
        (ap
          (λ g.
            move t (if is_initialized g then after_waiting contents inside else spinning inside) s)
          (sym f))
        (Phase.untouched f c (all_outside (spinning inside) tt))
    where
      all_outside : (p : Place) → IsOutside p → (u : ℕ) → IsOutside ((move t p s).place u)
      all_outside p h u = moved_all IsOutside (λ u. Unit {0}) t p s h (λ u e. out u) u tt
  untouched_at t returned s f c out here = absurd here
  untouched_at t threw s f c out here = absurd here

  -- Everybody sees that the configuration is there.
  abbrev pub IsReady : IniFile → Singleton → Type 0
  IsReady file s =
      (s.flag ≡ initialized) × (s.config ≡ some file) × ((u : ℕ) → IsSettled (s.place u))

  pub returned? : (p : Place) → (p ≡ returned) ⊎ (p ≢ returned)
  returned? at_test = inr (λ e. cc)
  returned? (at_exchange path inside) = inr (λ e. cc)
  returned? (constructing path inside) = inr (λ e. cc)
  returned? (publishing inside) = inr (λ e. cc)
  returned? (spinning inside) = inr (λ e. cc)
  returned? returned = inl refl
  returned? threw = inr (λ e. cc)

  pub move-IsReady :
      (t : ℕ) (p : Place) (file : IniFile) (s : Singleton)
      → IsReady file s
      → IsSettled p
      → IsReady file (move t p s)
  unfolding move
  move-IsReady t p file s (f, c, all) h =
      (f, c, λ u. moved_all IsSettled (λ u. Unit {0}) t p s h (λ u e. all u) u tt)

  pub step-IsReady :
      (t : ℕ) (file : IniFile) (s : Singleton)
      → IsReady file s
      → IsReady file (thread_step contents t s)
  unfolding thread_step
  step-IsReady t file s (f, c, all) = elim (returned? (s.place t)) [
    | inl e ↦ subst (IsReady file) (sym (returned-still t s e)) (f, c, all)
    | inr ne ↦
        subst (IsReady file)
          (sym (step_at-move contents t initialized (s.place t) s (λ e. cc) (all t) ne f))
          (move-IsReady t _ file s (f, c, all) (next-IsSettled contents (s.place t) (all t)))
  ]

  pub step-Phase : (t : ℕ) (s : Singleton) → Phase s → Phase (thread_step contents t s)
  unfolding thread_step
  step-Phase t s (Phase.untouched f c out) = untouched_at t (s.place t) s f c out (out t)
  step-Phase t s (Phase.making o path inside b c here) = elim (Bool-cases (o == t)) [
    | inl hit ↦
        construct-Phase t path inside s (same (λ v. IsBusy v s) o t hit b) c
          (same (λ v. s.place v ≡ constructing path inside) o t hit here)
    | inr miss ↦
        let (b', c', p') = step-Waits contents t o s miss (b.1 t (flip o t miss)) b in
        Phase.making o path inside b' (c' ∙ c) (p' ∙ here)
  ]
  step-Phase t s (Phase.storing o inside file b c here) = elim (Bool-cases (o == t)) [
    | inl hit ↦
        publish-Phase t inside file s (same (λ v. IsBusy v s) o t hit b) c
          (same (λ v. s.place v ≡ publishing inside) o t hit here)
    | inr miss ↦
        let (b', c', p') = step-Waits contents t o s miss (b.1 t (flip o t miss)) b in
        Phase.storing o inside file b' (c' ∙ c) (p' ∙ here)
  ]
  step-Phase t s (Phase.failed o b c here) = elim (Bool-cases (o == t)) [
    | inl hit ↦
        subst Phase (sym (failed-still t s (same (λ v. s.place v ≡ threw) o t hit here)))
          (Phase.failed o b c here)
    | inr miss ↦
        let (b', c', p') = step-Waits contents t o s miss (b.1 t (flip o t miss)) b in
        Phase.failed o b' (c' ∙ c) (p' ∙ here)
  ]
  step-Phase t s (Phase.ready file f c all) =
      let (f', c', all') = step-IsReady t file s (f, c, all) in Phase.ready file f' c' all'

  pub schedule-Phase : (ts : List ℕ) (s : Singleton) → Phase s → Phase (schedule contents ts s)
  unfolding schedule
  schedule-Phase [] s h = h
  schedule-Phase (t ∷ ts) s h = schedule-Phase ts (thread_step contents t s) (step-Phase t s h)
