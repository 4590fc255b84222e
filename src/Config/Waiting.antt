-- ===== src/Config/Waiting.antt =====
-- Config::getInstance and Config::initialize once the configuration is there.
use pollbook_server.Prelude.{
  ◌≡◌, refl, sym, ap, subst, ◌∙◌, inl, inr, ℕ, suc, ◌≤◌, Bool-cases, true, false, Option, List, [],
  ◌∷◌, ◌==◌, nat_eq, nat_beq_iff, if◌then◌else◌, Text, arith,
}
use pollbook_server.Config.{IniFile}
use pollbook_server.Config.Threads.{
  initialized, Place, at_test, at_exchange, constructing, publishing, spinning, returned, threw,
  Singleton, thread_step, schedule,
}
use pollbook_server.Config.Phases.{IsSettled, moved_self, moved_other, step_at-move, next}
use pollbook_server.Config.Once.{returned-still, returned?, IsReady, step-IsReady}

-- How many steps a thread that has not seen the configuration may still need.
abbrev pub steps_left : Place → ℕ
steps_left at_test = 1
steps_left (at_exchange path inside) = 3
steps_left (constructing path inside) = 0
steps_left (publishing inside) = 0
steps_left (spinning inside) = 2
steps_left returned = 0
steps_left threw = 0

-- How often a schedule lets the thread `t` take a step.
abbrev pub turns : ℕ → List ℕ → ℕ
turns t [] = 0
turns t (u ∷ us) = if t == u then suc (turns t us) else turns t us

module _ (contents : Text → Option IniFile) where
  next-nearer :
      (p : Place) (n : ℕ)
      → IsSettled p
      → steps_left p ≤ suc n
      → steps_left (next contents initialized p) ≤ n
  next-nearer at_test n h le = omega arith
  next-nearer (at_exchange path inside) n h le = omega arith
  next-nearer (constructing path inside) n h le = absurd h
  next-nearer (publishing inside) n h le = absurd h
  next-nearer (spinning true) n h le = omega arith
  next-nearer (spinning false) n h le = omega arith
  next-nearer returned n h le = omega arith
  next-nearer threw n h le = absurd h

  nowhere : (p : Place) → IsSettled p → steps_left p ≤ 0 → p ≡ returned
  nowhere at_test h le = absurd (omega (arith, le))
  nowhere (at_exchange path inside) h le = absurd (omega (arith, le))
  nowhere (constructing path inside) h le = absurd h
  nowhere (publishing inside) h le = absurd h
  nowhere (spinning inside) h le = absurd (omega (arith, le))
  nowhere returned h le = refl
  nowhere threw h le = absurd h

  own_step :
      (t : ℕ) (file : IniFile) (s : Singleton)
      → IsReady contents file s
      → (thread_step contents t s).place t ≡ next contents initialized (s.place t)
  unfolding thread_step
  own_step t file s (f, c, all) = elim (returned? contents (s.place t)) [
    | inl e ↦
        ap (λ r. r.place t) (returned-still contents t s e)
        ∙ (e ∙ sym (ap (next contents initialized) e))
    | inr ne ↦
        ap (λ r. r.place t)
          (step_at-move contents t initialized (s.place t) s (λ e. cc) (all t) ne f)
        ∙ moved_self t _ s
  ]

  other_step :
      (t u : ℕ) (file : IniFile) (s : Singleton)
      → (t == u) ≡ false
      → IsReady contents file s
      → (thread_step contents u s).place t ≡ s.place t
  unfolding thread_step
  other_step t u file s miss (f, c, all) = elim (returned? contents (s.place u)) [
    | inl e ↦ ap (λ r. r.place t) (returned-still contents u s e)
    | inr ne ↦
        ap (λ r. r.place t)
          (step_at-move contents u initialized (s.place u) s (λ e. cc) (all u) ne f)
        ∙ moved_other u t _ s miss
  ]

  arrives :
      (us : List ℕ) (t : ℕ) (file : IniFile) (s : Singleton)
      → IsReady contents file s
      → steps_left (s.place t) ≤ turns t us
      → (schedule contents us s).place t ≡ returned
  unfolding schedule
  arrives [] t file s (f, c, all) le = nowhere (s.place t) (all t) le
  arrives (u ∷ us) t file s (f, c, all) le =
      let s' : Singleton = thread_step contents u s in
      let ready' = step-IsReady contents u file s (f, c, all) in
      elim (Bool-cases (t == u)) [
        | inl hit ↦ arrives us t file s' ready' (
            subst (λ v. steps_left ((thread_step contents v s).place t) ≤ turns t us)
              ((nat_beq_iff t u).0 hit)
              (rw (own_step t file s (f, c, all))
                (next-nearer (s.place t) (turns t us) (all t) (rw hit at le))))
        | inr miss ↦
            arrives us t file s' ready'
              (rw (other_step t u file s miss (f, c, all)) (rw miss at le))
      ]

  -- Once the flag says that the configuration is there, every call returns within three steps of
  -- its thread, whatever the other threads do between these.
  pub waiting_ends :
      (us : List ℕ) (t : ℕ) (file : IniFile) (s : Singleton)
      → IsReady contents file s
      → 3 ≤ turns t us
      → (schedule contents us s).place t ≡ returned
  waiting_ends us t file s (f, c, all) enough =
      arrives us t file s (f, c, all) (at_most_three (s.place t) (turns t us) enough)
    where
      at_most_three : (p : Place) (n : ℕ) → 3 ≤ n → steps_left p ≤ n
      at_most_three at_test n h = omega arith
      at_most_three (at_exchange path inside) n h = omega arith
      at_most_three (constructing path inside) n h = omega arith
      at_most_three (publishing inside) n h = omega arith
      at_most_three (spinning inside) n h = omega arith
      at_most_three returned n h = omega arith
      at_most_three threw n h = omega arith
