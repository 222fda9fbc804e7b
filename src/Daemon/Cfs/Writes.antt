-- ===== src/Daemon/Cfs/Writes.antt =====
-- daemon/src/cfs/mod.rs: the products that are written do not wrap around.
use native.Mathlib.Nat.{mod-eq_of_lt, mul-le-mul, lt_of_le_of_lt}
use system76_scheduler.Base.{arith, nat_eq, refl, string_eq, ℕ, ◌*◌, ◌<◌, ◌^◌, ◌∷◌, ◌≡◌, ◌≤◌}
use system76_scheduler.Config.Cfs.{CfsProfile, f64_one}
use system76_scheduler.Daemon.Cfs.{
  Floats, bandwidth_size_path, f64_two, latency_modifier, min_granularity, mul_u64, preempt_calls,
  tweak, wakeup_granularity,
}
use system76_scheduler.Kernel.{write_number}
use system76_scheduler.Service.State.{SchedPaths}

mul_u64-exact : (a b m n : ℕ) → a ≤ m → b ≤ n → m * n < 2 ^ 64 → mul_u64 a b ≡ a * b
unfolding mul_u64
mul_u64-exact a b m n h g small = mod-eq_of_lt (lt_of_le_of_lt (mul-le-mul h g) small)

-- The factor in the modifier
abbrev pub factor : Floats → ℕ → ℕ
factor f cpus = f.to_u64 (f.add f64_one (f.div (f.ln (f.from_u64 cpus)) (f.ln f64_two)))

-- Where the logarithm gives a factor of 64 at most, a latency of at most 2^37 is written as the factor
-- times a million times the latency, and a bandwidth of at most 2^54 as a thousand times the bandwidth,
-- without wrapping around.
pub tweak-exact :
    (f : Floats) (cpus : ℕ) (paths : SchedPaths) (conf : CfsProfile)
    → factor f cpus ≤ 64
    → conf.latency ≤ 2 ^ 37
    → conf.bandwidth_size ≤ 2 ^ 54
    → tweak f cpus paths conf
      ≡ write_number paths.latency (10 ^ 6 * factor f cpus * conf.latency)
        ∷ write_number paths.min_gran (min_granularity f (10 ^ 6 * factor f cpus) conf)
        ∷ write_number paths.wakeup_gran (wakeup_granularity f (10 ^ 6 * factor f cpus) conf)
        ∷ write_number bandwidth_size_path (conf.bandwidth_size * 1000)
        ∷ preempt_calls f paths.preempt conf.preempt
unfolding tweak latency_modifier
tweak-exact f cpus paths conf small short narrow =
    rw
      (
        mul_u64-exact (10 ^ 6) (factor f cpus) (10 ^ 6) 64 (omega arith) small (omega arith),
        mul_u64-exact (10 ^ 6 * factor f cpus) conf.latency (10 ^ 6 * 64) (2 ^ 37) (omega arith)
            short (omega arith),
        mul_u64-exact conf.bandwidth_size 1000 (2 ^ 54) 1000 narrow (omega arith) (omega arith),
      )
      refl
