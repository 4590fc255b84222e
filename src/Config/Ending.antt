-- ===== src/Config/Ending.antt =====
-- How the calls of Config::getInstance and Config::initialize end.
use pollbook_server.Prelude.{
  ◌≡◌, ◌≢◌, sym, subst, ◌∙◌, inl, inr, ℕ, Bool-cases, Option, none, some, List, [], ◌∷◌, ◌==◌,
  nat_eq, nat_beq_iff, Text,
}
use pollbook_server.Config.{IniFile}
use pollbook_server.Config.Threads.{
  uninitialized, Place, returned, threw, Singleton, thread_step, schedule,
}
use pollbook_server.Config.Phases.{IsOutside, IsSettled, IsBusy, Phase, step-Waits}
use pollbook_server.Config.Once.{flip, same, failed-still, IsReady, step-IsReady, schedule-Phase}

-- Nobody has called yet, or is past the test of the flag.
abbrev pub IsFresh : Singleton → Type 0
IsFresh s = (s.flag ≡ uninitialized) × (s.config ≡ none) × ((u : ℕ) → IsOutside (s.place u))

-- No thread is at `p`, which is not outside, but for the owner, who is at `q`.
busy_clash :
    (p q : Place) (o t : ℕ) (s : Singleton)
    → (IsOutside p → ⊥)
    → q ≢ p
    → IsBusy o s
    → s.place o ≡ q
    → s.place t ≡ p
    → ⊥
busy_clash p q o t s not_out ne b here e = elim (Bool-cases (t == o)) [
  | inl hit ↦ ne (sym here ∙ same (λ v. s.place v ≡ p) t o hit e)
  | inr miss ↦ not_out (subst IsOutside e (b.1 t miss))
]

-- The constructor has thrown in the thread `o`.
abbrev IsFailed : ℕ → Singleton → Type 0
IsFailed o s = IsBusy o s × (s.config ≡ none) × (s.place o ≡ threw)

module _ (contents : Text → Option IniFile) where
  -- Where a thread has returned.
  returned-IsReady :
      (t : ℕ) (s : Singleton)
      → Phase s
      → s.place t ≡ returned
      → (file : IniFile) × IsReady contents file s
  returned-IsReady t s (Phase.untouched f c out) e = absurd (subst IsOutside e (out t))
  returned-IsReady t s (Phase.making o path inside b c here) e =
      absurd (busy_clash returned _ o t s (λ h. h) (λ q. cc) b here e)
  returned-IsReady t s (Phase.storing o inside file b c here) e =
      absurd (busy_clash returned _ o t s (λ h. h) (λ q. cc) b here e)
  returned-IsReady t s (Phase.failed o b c here) e =
      absurd (busy_clash returned _ o t s (λ h. h) (λ q. cc) b here e)
  returned-IsReady t s (Phase.ready file f c all) e = (file, (f, c, all))

  schedule-IsReady :
      (ts : List ℕ) (file : IniFile) (s : Singleton)
      → IsReady contents file s
      → IsReady contents file (schedule contents ts s)
  unfolding schedule
  schedule-IsReady [] file s h = h
  schedule-IsReady (t ∷ ts) file s h =
      schedule-IsReady ts file (thread_step contents t s) (step-IsReady contents t file s h)

  -- Whatever calls are made and in whatever order the threads run, where one of them has returned
  -- there is a configuration, and it is never replaced.
  pub configuration_once :
      (before after : List ℕ) (t : ℕ) (s : Singleton)
      → IsFresh s
      → (schedule contents before s).place t ≡ returned
      → (file : IniFile) × ((schedule contents before s).config ≡ some file)
        × ((schedule contents after (schedule contents before s)).config ≡ some file)
  configuration_once before after t s (f, c, out) e =
      let s1 : Singleton = schedule contents before s in
      let (file, ready) =
        returned-IsReady t s1 (schedule-Phase contents before s (Phase.untouched f c out)) e in
      (file, ready.1, (schedule-IsReady after file s1 ready).1)

  threw-IsFailed : (t : ℕ) (s : Singleton) → Phase s → s.place t ≡ threw → IsFailed t s
  threw-IsFailed t s (Phase.untouched f c out) e = absurd (subst IsOutside e (out t))
  threw-IsFailed t s (Phase.making o path inside b c here) e =
      absurd (busy_clash threw _ o t s (λ h. h) (λ q. cc) b here e)
  threw-IsFailed t s (Phase.storing o inside file b c here) e =
      absurd (busy_clash threw _ o t s (λ h. h) (λ q. cc) b here e)
  threw-IsFailed t s (Phase.failed o b c here) e = elim (Bool-cases (t == o)) [
    | inl hit ↦ (subst (λ v. IsBusy v s) (sym ((nat_beq_iff t o).0 hit)) b, c, e)
    | inr miss ↦ absurd (subst IsOutside e (b.1 t miss))
  ]
  threw-IsFailed t s (Phase.ready file f c all) e = absurd (subst IsSettled e (all t))

  schedule-IsFailed :
      (ts : List ℕ) (o : ℕ) (s : Singleton) → IsFailed o s → IsFailed o (schedule contents ts s)
  unfolding schedule
  schedule-IsFailed [] o s h = h
  schedule-IsFailed (t ∷ ts) o s (b, c, here) =
      schedule-IsFailed ts o (thread_step contents t s) (elim (Bool-cases (o == t)) [
        | inl hit ↦
            subst (IsFailed o)
              (sym (failed-still contents t s (same (λ v. s.place v ≡ threw) o t hit here)))
              (b, c, here)
        | inr miss ↦
            let (b', c', p') = step-Waits contents t o s miss (b.1 t (flip o t miss)) b in
            (b', c' ∙ c, p' ∙ here)
      ])

  -- Once the constructor has thrown in one thread, no call returns, before or after, in no thread
  -- and in no order of the steps: every caller waits for a flag that nobody sets.
  pub failed_construction_blocks :
      (before after : List ℕ) (t u : ℕ) (s : Singleton)
      → IsFresh s
      → (schedule contents before s).place t ≡ threw
      → (schedule contents after (schedule contents before s)).place u ≢ returned
  failed_construction_blocks before after t u s (f, c, out) e returns =
      let s1 : Singleton = schedule contents before s in
      let s2 : Singleton = schedule contents after s1 in
      let (b, _, here) : IsFailed t s2 =
        schedule-IsFailed after t s1
          (threw-IsFailed t s1 (schedule-Phase contents before s (Phase.untouched f c out)) e) in
      busy_clash returned threw t u s2 (λ h. h) (λ q. cc) b here returns
