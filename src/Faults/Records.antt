-- ===== src/Faults/Records.antt =====
-- FaultTracker::reportFault, clearClient and clearOldRecords together.
use pollbook_server.Prelude.{
  ◌≡◌, refl, ◌∙◌, ℕ, ◌+◌, false, Option, none, some, [], ◌∷◌, ◌++◌, arith, ltb, ◌==◌, nat_eq,
  nat_beq_iff, if◌then◌else◌, Text, Bool-cases, inl, inr,
}
use pollbook_server.Map.{lookup, insert, lookup-insert, erase, lookup-erase}
use pollbook_server.Faults.{
  FaultyClientRecord, FaultMap, descriptions, report_fault, clear_client, is_old, clear_old_records,
}

-- No client has two records.
abbrev pub IsDistinct : FaultMap → Type 0
IsDistinct [] = Unit {0}
IsDistinct ((c, r) ∷ m) = (lookup c m ≡ none) × IsDistinct m

insert-none :
    (c d : ℕ) (r : FaultyClientRecord) (m : FaultMap)
    → (c == d) ≡ false
    → lookup d m ≡ none
    → lookup d (insert c r m) ≡ none
insert-none c d r m miss h = lookup-insert c d r m ∙ rw (miss, h)

insert-IsDistinct :
    (c : ℕ) (r : FaultyClientRecord) (m : FaultMap) → IsDistinct m → IsDistinct (insert c r m)
unfolding insert lookup
insert-IsDistinct c r [] h = (refl, tt)
insert-IsDistinct c r ((d, q) ∷ m) h = elim (Bool-cases (d == c)) [
  | inl hit ↦ rw hit h
  | inr miss ↦ rw miss (insert-none c d r m (ground (arith, miss)) h.0, insert-IsDistinct c r m h.1)
]

clear_old-none :
    (now threshold c : ℕ) (m : FaultMap)
    → lookup c m ≡ none
    → lookup c (clear_old_records now threshold m) ≡ none
unfolding clear_old_records lookup
clear_old-none now threshold c [] h = refl
clear_old-none now threshold c ((d, q) ∷ m) h = elim (Bool-cases (d == c)) [
  | inl hit ↦ ground arith
  | inr miss ↦ ground (arith, clear_old-none now threshold c m (ground (arith, h, miss)))
]

clear_old-IsDistinct :
    (now threshold : ℕ) (m : FaultMap)
    → IsDistinct m
    → IsDistinct (clear_old_records now threshold m)
unfolding clear_old_records
clear_old-IsDistinct now threshold [] h = tt
clear_old-IsDistinct now threshold ((d, q) ∷ m) h = elim (Bool-cases (is_old now threshold q)) [
  | inl old ↦ rw old (clear_old-IsDistinct now threshold m h.1)
  | inr recent ↦
      rw recent (clear_old-none now threshold d m h.0, clear_old-IsDistinct now threshold m h.1)
]

-- What the cleanup leaves of a client's record.
abbrev pub recent_part : ℕ → ℕ → Option FaultyClientRecord → Option FaultyClientRecord
recent_part now threshold none = none
recent_part now threshold (some r) = if is_old now threshold r then none else some r

lookup-clear_old :
    (now threshold c : ℕ) (m : FaultMap)
    → IsDistinct m
    → lookup c (clear_old_records now threshold m) ≡ recent_part now threshold (lookup c m)
unfolding clear_old_records lookup
lookup-clear_old now threshold c [] h = refl
lookup-clear_old now threshold c ((d, q) ∷ m) h =
    let gone = clear_old-none now threshold d m h.0 in
    let rest = lookup-clear_old now threshold c m h.1 in
    elim (Bool-cases (d == c)) [
      | inl hit ↦ ground (arith, gone, (nat_beq_iff d c).0 hit)
      | inr miss ↦ ground (arith, rest, miss)
    ]

erase-none : (c d : ℕ) (m : FaultMap) → lookup d m ≡ none → lookup d (erase c m) ≡ none
erase-none c d m h = lookup-erase c d m ∙ ground (arith, h)

erase-IsDistinct : (c : ℕ) (m : FaultMap) → IsDistinct m → IsDistinct (erase c m)
unfolding erase
erase-IsDistinct c [] h = tt
erase-IsDistinct c ((d, q) ∷ m) h = elim (Bool-cases (d == c)) [
  | inl hit ↦ rw hit (erase-IsDistinct c m h.1)
  | inr miss ↦ rw miss (erase-none c d m h.0, erase-IsDistinct c m h.1)
]

-- Reporting a fault, clearing a client and the cleanup all keep at most one record of each client.
pub faults-IsDistinct :
    (now threshold id : ℕ) (description : Text) (m : FaultMap)
    → IsDistinct m
    → IsDistinct (report_fault now id description m)
      × IsDistinct (clear_client id m)
      × IsDistinct (clear_old_records now threshold m)
unfolding report_fault clear_client
faults-IsDistinct now threshold id description m h =
    (insert-IsDistinct id _ m h, erase-IsDistinct id m h, clear_old-IsDistinct now threshold m h)

-- A report followed by a cleanup: the client's record, with the new fault after its earlier ones,
-- is gone exactly if the cleanup comes more than the threshold after the report, however old the
-- earlier faults are; every other client keeps its record exactly if that is recent.
pub report_then_clear :
    (t now threshold id c : ℕ) (description : Text) (m : FaultMap)
    → IsDistinct m
    → lookup c (clear_old_records now threshold (report_fault t id description m)) ≡ (
        if id == c
        then (if ltb (t + threshold) now
            then none
            else some (record {
              last_report_time = t;
              fault_descriptions = descriptions (lookup id m) ++ description ∷ [];
            }))
        else recent_part now threshold (lookup c m))
unfolding report_fault
report_then_clear t now threshold id c description m h =
    lookup-clear_old now threshold c (report_fault t id description m) (insert-IsDistinct id _ m h)
    ∙ rw (lookup-insert id c _ m)
        (elim (Bool-cases (id == c)) [ inl hit ↦ rw hit refl | inr miss ↦ rw miss refl ])
