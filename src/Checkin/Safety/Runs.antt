-- ===== src/Checkin/Safety/Runs.antt =====
-- Runs of the check-in service, over any events in any order.
use pollbook_server.Prelude.{
  ◌≡◌, refl, subst, ◌⊎◌, inl, inr, ℕ, ◌+◌, ◌≤◌, Bool, true, false, Option, some, List, [], ◌∷◌,
  arith, nat_eq, if◌then◌else◌,
}
use pollbook_server.Map.{lookup}
use pollbook_server.Run.{Run, done, throws, >>=-eq-done, done-injective}
use pollbook_server.External.{External}
use pollbook_server.Checkin.State.{VoterStatus, checked_in, Service, Settings, Ambient}
use pollbook_server.Checkin.Network.{Event, step, run}
use pollbook_server.Checkin.Book.{book, IsConsistent, cause_of}
use pollbook_server.Checkin.Safety.{stays, step-IsConsistent, step-Changes}

abbrev is_checked_in : Option VoterStatus → Bool
is_checked_in (some checked_in) = true
is_checked_in _ = false

-- 1 if the status becomes checked in, 0 if not
abbrev pub turns : Option VoterStatus → Option VoterStatus → ℕ
turns before after = if is_checked_in before then 0 else (if is_checked_in after then 1 else 0)

turns_cases :
    (before after : Option VoterStatus)
    → (turns before after ≡ 0) ⊎ ((turns before after ≡ 1) × (after ≡ some checked_in))
turns_cases before after = ground arith

module _ (x : External) (st : Settings) where
  -- At each point of any run the timers agree with the statuses.
  pub run-IsConsistent :
      (events : List (Ambient × Event)) (s s' : Service)
      → IsConsistent (book s)
      → run x st events s ≡ done s'
      → IsConsistent (book s')
  unfolding run
  run-IsConsistent [] s s' c h = subst (λ t. IsConsistent (book t)) (done-injective s s' h) c
  run-IsConsistent ((a, e) ∷ events) s s' c h =
      let (t, k, l) = >>=-eq-done (step x st a e s) (run x st events) h in
      run-IsConsistent events t s' (step-IsConsistent x st a e s t c k) l

  -- A voter who is checked in stays so, whatever happens next.
  pub run_checked_in :
      (events : List (Ambient × Event)) (s s' : Service) (v : ℕ)
      → IsConsistent (book s)
      → lookup v s.voter_status_table ≡ some checked_in
      → run x st events s ≡ done s'
      → lookup v s'.voter_status_table ≡ some checked_in
  unfolding run
  run_checked_in [] s s' v c i h = rw (← done-injective s s' h) i
  run_checked_in ((a, e) ∷ events) s s' v c i h =
      let (t, k, l) = >>=-eq-done (step x st a e s) (run x st events) h in
      run_checked_in events t s' v (step-IsConsistent x st a e s t c k)
        (stays (cause_of e s) v _ _ i (step-Changes x st a e s t v c k)) l

  -- How often a voter's status becomes checked in during a run.
  unfoldable pub check_ins : ℕ → List (Ambient × Event) → Service → ℕ
  check_ins v [] s = 0
  check_ins v ((a, e) ∷ events) s = elim (step x st a e s) [
    | throws ↦ 0
    | done s' ↦
        turns (lookup v s.voter_status_table) (lookup v s'.voter_status_table)
        + check_ins v events s'
  ]

  after_check_in :
      (v : ℕ) (events : List (Ambient × Event)) (s : Service)
      → IsConsistent (book s)
      → lookup v s.voter_status_table ≡ some checked_in
      → check_ins v events s ≡ 0
  unfolding check_ins
  after_check_in v [] s c i = refl
  after_check_in v ((a, e) ∷ events) s c i =
      go (step x st a e s) refl (λ s'. after_check_in v events s')
    where
      go :
          (r : Run Service)
          → step x st a e s ≡ r
          → ((s' : Service)
              → IsConsistent (book s')
              → lookup v s'.voter_status_table ≡ some checked_in
              → check_ins v events s' ≡ 0)
          → check_ins v ((a, e) ∷ events) s ≡ 0
      go throws h ih = rw (h, check_ins)
      go (done s') h ih =
          let c' = step-IsConsistent x st a e s s' c h in
          let i' = stays (cause_of e s) v _ _ i (step-Changes x st a e s s' v c h) in
          rw (h, check_ins, i) (omega (arith, ih s' c' i'))

  -- From a state whose timers agree with its statuses, no run checks a voter in twice.
  pub check_ins-le-one :
      (v : ℕ) (events : List (Ambient × Event)) (s : Service)
      → IsConsistent (book s)
      → check_ins v events s ≤ 1
  unfolding check_ins
  check_ins-le-one v [] s c = omega arith
  check_ins-le-one v ((a, e) ∷ events) s c =
      go (step x st a e s) refl (λ s'. check_ins-le-one v events s')
    where
      go :
          (r : Run Service)
          → step x st a e s ≡ r
          → ((s' : Service) → IsConsistent (book s') → check_ins v events s' ≤ 1)
          → check_ins v ((a, e) ∷ events) s ≤ 1
      go throws h ih = rw (h, check_ins) (omega arith)
      go (done s') h ih =
          let c' = step-IsConsistent x st a e s s' c h in
          rw (h, check_ins)
            (elim (turns_cases (lookup v s.voter_status_table) (lookup v s'.voter_status_table)) [
              | inl t ↦ omega (arith, ih s' c')
              | inr (t, i) ↦ omega (arith, after_check_in v events s' c' i)
            ])
