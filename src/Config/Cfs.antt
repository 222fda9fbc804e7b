-- ===== src/Config/Cfs.antt =====
-- config/src/cfs.rs: CFS profiles. A `f64` is the number of its bit pattern.
use system76_scheduler.Base.{ℕ, String, Bool, false, [], string_eq}
use system76_scheduler.Base.Dict.{Dict, insert}

abbrev pub F64 : Type 0
F64 = ℕ

-- The bit patterns of 1.0 and 0.5
abbrev pub f64_one : F64
f64_one = 0x3ff0_0000_0000_0000

abbrev pub f64_half : F64
f64_half = 0x3fe0_0000_0000_0000

pub record CfsProfile : Type 0 where
  pub latency : ℕ
  pub nr_latency : ℕ
  pub wakeup_granularity : F64
  pub bandwidth_size : ℕ
  pub preempt : String

abbrev pub profile_default : CfsProfile
profile_default = record {
  latency = 6;
  nr_latency = 8;
  wakeup_granularity = f64_one;
  bandwidth_size = 5;
  preempt = "voluntary";
}

abbrev pub profile_responsive : CfsProfile
profile_responsive = record {
  latency = 4;
  nr_latency = 10;
  wakeup_granularity = f64_half;
  bandwidth_size = 3;
  preempt = "full";
}

pub record CfsConfig : Type 0 where
  pub enable : Bool
  pub profiles : Dict String CfsProfile

-- `Default for Config`
unfoldable pub default_cfs_config : CfsConfig
default_cfs_config = record {
  enable = false;
  profiles = insert "responsive" profile_responsive (insert "default" profile_default []);
}
