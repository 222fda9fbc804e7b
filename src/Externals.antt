-- ===== src/Externals.antt =====
-- What the daemon calls and this repository does not hold: the crates `wildmatch`, `ioprio`, `atoi` and
-- `bstr`, and the standard library's `DefaultHasher`, whose algorithm is left open.
use system76_scheduler.Base.{ℕ, String, Option, List, Bool}

pub record Externals : Type 0 where
  -- `WildMatch::new(pattern).matches(input)`
  pub wild_match : String → String → Bool
  -- `Process::hash_id`: `id` and `parent_id` are fed to a `DefaultHasher`, and `finish` is its value
  pub finish_hash : ℕ → ℕ → ℕ
  -- `BePriorityLevel::from_level`, `BePriorityLevel::lowest`: a level stands for its number
  pub be_from_level : ℕ → Option ℕ
  pub be_lowest : ℕ
  -- `RtPriorityLevel::from_level`, `RtPriorityLevel::lowest`
  pub rt_from_level : ℕ → Option ℕ
  pub rt_lowest : ℕ
  -- `atoi::atoi::<u32>`
  pub atoi : List ℕ → Option ℕ
  -- `BStr::fields`, `BStr::trim`
  pub fields : List ℕ → List (List ℕ)
  pub trim : List ℕ → List ℕ
