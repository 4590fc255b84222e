-- ===== src/Checkin/Safety.antt =====
-- The moves of the abstract machine of Book, and the status and timer of a voter.
pub mod Runs
use pollbook_server.Prelude.{
  ◌≡◌, refl, sym, subst, ap, ◌∙◌, ◌≢◌, ◌⊎◌, inl, inr, ℕ, zero, suc, ◌+◌, ◌≤◌, Bool, true, false,
  Option, none, some, List, [], ◌∷◌, arith, ◌==◌, nat_eq, if◌then◌else◌, nat_beq_iff, Bool-cases,
}
use pollbook_server.Map.{lookup, lookup-insert, lookup-erase}
use pollbook_server.Run.{Run, done, throws, ◌>>=◌, Ensures, Ensures-eq, >>=-eq-done}
use pollbook_server.External.{External}
use pollbook_server.Checkin.State.{
  VoterStatus, eligible, pending, checked_in, ClientType, trusted_client, untrusted_client, Timer,
  Service, Settings, Ambient, Endpoint,
}
use pollbook_server.Checkin.Network.{Event, payload_read, received, timed_out, step, run}
use pollbook_server.Checkin.Book.{
  Book, book, Move, Cause, kiosk, device, connection, clock, idle, begin, complete, expire, lapse,
  Agree, IsConsistent, cause_of, cause_of_type, sender,
}
use pollbook_server.Checkin.Refines.{step-Move}

-- The status of a voter after a move, by what caused it.
abbrev pub Changes : Cause → ℕ → Option VoterStatus → Option VoterStatus → Type 0
Changes cause v before after =
    (after ≡ before)
    ⊎ ((cause ≡ kiosk) × (before ≡ some eligible) × (after ≡ some pending))
    ⊎ ((cause ≡ device) × (before ≡ some pending) × (after ≡ some checked_in))
    ⊎ ((cause ≡ clock v) × (before ≡ some pending) × (after ≡ some eligible))

Move-Changes :
    (b c : Book) (cause : Cause) (v : ℕ)
    → Move b c cause
    → Changes cause v (lookup v b.statuses) (lookup v c.statuses)
Move-Changes b c cause v (idle e) = inl (ap (λ k. lookup v k.statuses) e)
Move-Changes b c cause v (begin u t h e) =
    let after = ap (λ k. lookup v k.statuses) e ∙ lookup-insert u v pending b.statuses in
    ground (arith, after)
Move-Changes b c cause v (complete u t g h e) =
    let after = ap (λ k. lookup v k.statuses) e ∙ lookup-insert u v checked_in b.statuses in
    ground (arith, after)
Move-Changes b c cause v (expire u h e) =
    let after = ap (λ k. lookup v k.statuses) e ∙ lookup-insert u v eligible b.statuses in
    ground (arith, after)
Move-Changes b c cause v (lapse u h e) = inl (ap (λ k. lookup v k.statuses) e)

-- What a change of one entry does to the agreement of a voter's timer and status.
Agree-if :
    (hit : Bool) (timer timer' : Option Timer) (status status' : Option VoterStatus)
    → Agree timer' status'
    → Agree timer status
    → Agree (if hit then timer' else timer) (if hit then status' else status)
Agree-if true timer timer' status status' h k = h
Agree-if false timer timer' status status' h k = k

-- No timer agrees with any status but pending.
Agree-none : (status : Option VoterStatus) → status ≢ some pending → Agree none status
Agree-none none h = tt
Agree-none (some eligible) h = tt
Agree-none (some pending) h = h refl
Agree-none (some checked_in) h = tt

pub stays :
    (cause : Cause) (v : ℕ) (before after : Option VoterStatus)
    → before ≡ some checked_in
    → Changes cause v before after
    → after ≡ some checked_in
stays cause v before after i h = ground arith

Agree-Move : (b c : Book) (cause : Cause) → Move b c cause → IsConsistent b → IsConsistent c
Agree-Move b c cause (idle e) k = subst IsConsistent (sym e) k
Agree-Move b c cause (begin u t h e) k = subst IsConsistent (sym e) (record {
  timed = λ v.
      rw (lookup-insert u v t b.timers, lookup-insert u v pending b.statuses)
        (Agree-if (u == v) _ _ _ _ tt (k.timed v));
})
Agree-Move b c cause (complete u t g h e) k = subst IsConsistent (sym e) (record {
  timed = λ v.
      rw (lookup-erase u v b.timers, lookup-insert u v checked_in b.statuses)
        (Agree-if (u == v) _ _ _ _ tt (k.timed v));
})
Agree-Move b c cause (expire u h e) k = subst IsConsistent (sym e) (record {
  timed = λ v.
      rw (lookup-erase u v b.timers, lookup-insert u v eligible b.statuses)
        (Agree-if (u == v) _ _ _ _ tt (k.timed v));
})
Agree-Move b c cause (lapse u h e) k = subst IsConsistent (sym e) (record {
  timed = λ v. rw (lookup-erase u v b.timers) (elim (Bool-cases (u == v)) [
    | inl hit ↦ rw hit (
        Agree-none (lookup v b.statuses)
          (subst (λ w. lookup w b.statuses ≢ some pending) ((nat_beq_iff u v).0 hit) h))
    | inr miss ↦ rw miss (k.timed v)
  ]);
})

module _ (x : External) (st : Settings) where
  -- Every event that does not end the process keeps the timers in agreement with the statuses: a
  -- voter has a timer exactly if the voter is pending.
  pub step-IsConsistent :
      (a : Ambient) (e : Event) (s s' : Service)
      → IsConsistent (book s)
      → step x st a e s ≡ done s'
      → IsConsistent (book s')
  step-IsConsistent a e s s' c h =
      Agree-Move _ _ (cause_of e s) (Ensures-eq _ _ s' h (step-Move x st a e s c)) c

  -- A voter's status changes in three ways only: from eligible to pending by a message of a kiosk,
  -- from pending to checked in by a message of a trusted device, and from pending to eligible by
  -- the voter's own timer. Every other event, and every other change, leaves it as it was.
  pub step-Changes :
      (a : Ambient) (e : Event) (s s' : Service) (v : ℕ)
      → IsConsistent (book s)
      → step x st a e s ≡ done s'
      → Changes (cause_of e s) v (lookup v s.voter_status_table) (lookup v s'.voter_status_table)
  step-Changes a e s s' v c h =
      Move-Changes (book s) (book s') (cause_of e s) v
        (Ensures-eq _ _ s' h (step-Move x st a e s c))
