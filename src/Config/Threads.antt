-- ===== src/Config/Threads.antt =====
-- Config::initialize and Config::getInstance, with threads that run between one another's steps. A
-- step is one access to the shared variables; each is atomic in the source, or is ordered by the
-- release and acquire of singleton_initialized_flag.
use pollbook_server.Prelude.{
  ℕ, Bool, true, false, Option, some, List, [], ◌∷◌, ◌==◌, nat_eq, if◌then◌else◌, Text, codes,
}
use pollbook_server.Run.{Run, done, throws}
use pollbook_server.Config.{IniFile, new_config}

pub data Flag : Type 0 where
  uninitialized initializing initialized : Flag

abbrev pub is_initialized : Flag → Bool
is_initialized initialized = true
is_initialized _ = false

-- Where a thread is; the Boolean says whether getInstance has called initialize.
pub data Place : Type 0 where
  -- the test of the loop in getInstance
  at_test : Place
  -- compare_exchange_strong
  at_exchange : Text → Bool → Place
  -- the constructor
  constructing : Text → Bool → Place
  -- singleton_initialized_flag.store
  publishing : Bool → Place
  -- the waiting loop
  spinning : Bool → Place
  returned : Place
  threw : Place

pub record Singleton : Type 0 where
  pub flag : Flag
  pub config : Option IniFile
  pub place : ℕ → Place

abbrev pub default_config_file : Text
default_config_file = codes "config.ini"

unfoldable pub move : ℕ → Place → Singleton → Singleton
move t p s = record s { place = λ u. if u == t then p else s.place u }

-- What ini::IniFile::load gives of a path; `none` is an exception.
module _ (contents : Text → Option IniFile) where
  unfoldable pub exchange : ℕ → Text → Bool → Flag → Singleton → Singleton
  unfolding move
  exchange t path inside uninitialized s =
      move t (constructing path inside) (record s { flag = initializing })
  exchange t path inside _ s = move t (spinning inside) s

  unfoldable pub constructed : ℕ → Bool → Run IniFile → Singleton → Singleton
  unfolding move
  constructed t inside (done file) s = move t (publishing inside) (record s { config = some file })
  constructed t inside throws s = move t threw s

  abbrev pub after_waiting : Bool → Place
  after_waiting true = at_test
  after_waiting false = returned

  unfoldable pub step_at : ℕ → Place → Singleton → Singleton
  unfolding move exchange constructed
  step_at t at_test s =
      move t (if is_initialized s.flag then returned else at_exchange default_config_file true) s
  step_at t (at_exchange path inside) s = exchange t path inside s.flag s
  step_at t (constructing path inside) s = constructed t inside (new_config (contents path)) s
  step_at t (publishing inside) s = move t (spinning inside) (record s { flag = initialized })
  step_at t (spinning inside) s =
      move t (if is_initialized s.flag then after_waiting inside else spinning inside) s
  step_at t returned s = s
  step_at t threw s = s

  unfoldable pub thread_step : ℕ → Singleton → Singleton
  unfolding step_at
  thread_step t s = step_at t (s.place t) s

  -- A schedule says which thread takes the next step.
  unfoldable pub schedule : List ℕ → Singleton → Singleton
  unfolding thread_step
  schedule [] s = s
  schedule (t ∷ ts) s = schedule ts (thread_step t s)
