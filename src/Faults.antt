-- ===== src/Faults.antt =====
-- include/epollbook/faulty_clients.hpp: the record of misbehaving clients. Times are ticks of the
-- system clock.
pub mod Records
pub mod Commands
pub mod Control
use pollbook_server.Prelude.{
  ℕ, ◌+◌, Bool, Option, none, some, List, [], ◌∷◌, ◌++◌, ltb, nat_eq, if◌then◌else◌, Text,
}
use pollbook_server.Map.{Map, lookup, insert, erase}

pub record FaultyClientRecord : Type 0 where
  pub last_report_time : ℕ
  pub fault_descriptions : List Text

-- The clientMap of FaultTracker.
abbrev pub FaultMap : Type 0
FaultMap = Map ℕ FaultyClientRecord

abbrev pub descriptions : Option FaultyClientRecord → List Text
descriptions none = []
descriptions (some r) = r.fault_descriptions

unfoldable pub report_fault : ℕ → ℕ → Text → FaultMap → FaultMap
report_fault now client_id description m =
    insert client_id
      (record {
        last_report_time = now;
        fault_descriptions = descriptions (lookup client_id m) ++ description ∷ [];
      })
      m

unfoldable pub clear_client : ℕ → FaultMap → FaultMap
clear_client client_id m = erase client_id m

-- now - lastReportTime > threshold
abbrev pub is_old : ℕ → ℕ → FaultyClientRecord → Bool
is_old now threshold r = ltb (r.last_report_time + threshold) now

unfoldable pub clear_old_records : ℕ → ℕ → FaultMap → FaultMap
clear_old_records now threshold [] = []
clear_old_records now threshold ((c, r) ∷ m) =
    if is_old now threshold r
    then clear_old_records now threshold m
    else (c, r) ∷ clear_old_records now threshold m
