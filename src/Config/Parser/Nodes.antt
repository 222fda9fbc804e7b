-- ===== src/Config/Parser/Nodes.antt =====
-- `Config::read` of config/src/parser/scheduler.rs and of config/src/parser/cfs.rs, and `parse` of
-- config/src/cfs.rs. Log messages are left out.
use system76_scheduler.Base.{
  List, String, [], if◌then◌else◌, map, nat_eq, none, some, string_eq, true, unwrap_or, ℕ, ◌==◌,
  ◌∷◌,
}
use system76_scheduler.Base.Dict.{Dict, insert}
use system76_scheduler.Config.Cfs.{CfsConfig, CfsProfile, profile_default}
use system76_scheduler.Config.Kdl.{Kdl, as_u64, enabled, fields, get_bool, get_u16, iter_properties}
use system76_scheduler.Config.Parser.Rules.{parse_assignments, parse_exceptions}
use system76_scheduler.Config.Scheduler.{SchedulerConfig}
use system76_scheduler.Externals.{Externals}

module _ (x : Externals) (k : Kdl) where
  open k use {Node}

  -- One field of the node `process-scheduler`
  unfoldable pub scheduler_field : SchedulerConfig → String → Node → SchedulerConfig
  scheduler_field c name node =
      if name == "refresh-rate"
      then record c { refresh_rate = unwrap_or (get_u16 k node 0) c.refresh_rate }
      else if name == "execsnoop"
      then record c { execsnoop = unwrap_or (get_bool k node 0) c.execsnoop }
      else if name == "assignments"
      then record c { assignments = parse_assignments x k c.assignments node }
      else if name == "exceptions"
      then record c { assignments = parse_exceptions k c.assignments node }
      else c

  unfoldable pub scheduler_fields : SchedulerConfig → List (String × Node) → SchedulerConfig
  scheduler_fields c [] = c
  scheduler_fields c ((name, node) ∷ rest) = scheduler_fields (scheduler_field c name node) rest

  -- `scheduler::Config::read`
  unfoldable pub read_scheduler : SchedulerConfig → Node → SchedulerConfig
  read_scheduler c node =
      let c' : SchedulerConfig = record c { enable = unwrap_or (enabled k node) true } in
      if c'.enable
      then elim (k.node_children node) [
        | none ↦ c'
        | some document ↦ scheduler_fields c' (fields k document)
      ]
      else c'

module _ (k : Kdl) where
  open k use {Node, Entry}

  -- `preempt`, of the two texts that are allowed
  unfoldable pub read_preempt : String → String → String
  read_preempt old value =
      if value == "voluntary" then "voluntary" else if value == "full" then "full" else old

  -- `if let Some(value) = entry.value().as_i64() { .. = value as u64 }`
  unfoldable pub read_u64 : ℕ → Entry → ℕ
  read_u64 old entry = elim (k.as_i64 entry) [ none ↦ old | some value ↦ as_u64 value ]

  -- One property of a CFS profile
  unfoldable pub cfs_property : CfsProfile → String → Entry → CfsProfile
  unfolding read_preempt read_u64
  cfs_property c name entry =
      if name == "latency"
      then record c { latency = read_u64 c.latency entry }
      else if name == "nr-latency"
      then record c { nr_latency = read_u64 c.nr_latency entry }
      else if name == "wakeup-granularity"
      then record c { wakeup_granularity = unwrap_or (k.as_f64 entry) c.wakeup_granularity }
      else if name == "bandwidth-size"
      then record c { bandwidth_size = read_u64 c.bandwidth_size entry }
      else if name == "preempt"
      then record c {
        preempt = elim (k.as_string entry) [
          | none ↦ c.preempt
          | some value ↦ read_preempt c.preempt value
        ];
      }
      else c

  unfoldable pub cfs_properties : CfsProfile → List (String × Entry) → CfsProfile
  cfs_properties c [] = c
  cfs_properties c ((name, entry) ∷ rest) = cfs_properties (cfs_property c name entry) rest

  -- `cfs::parse`
  unfoldable pub parse_cfs : List Node → List (String × CfsProfile)
  parse_cfs nodes =
      map (λ node. (k.node_name node, cfs_properties profile_default (iter_properties k node)))
        nodes

  unfoldable pub insert_profiles :
      Dict String CfsProfile → List (String × CfsProfile) → Dict String CfsProfile
  insert_profiles profiles [] = profiles
  insert_profiles profiles ((name, profile) ∷ rest) =
      insert_profiles (insert name profile profiles) rest

  -- `cfs::Config::read`
  unfoldable pub read_cfs : CfsConfig → Node → CfsConfig
  read_cfs c node =
      let c' : CfsConfig = record c { enable = unwrap_or (enabled k node) true } in
      if c'.enable
      then elim (k.node_children node) [
        | none ↦ c'
        | some document ↦ record c' {
          profiles = insert_profiles c'.profiles (parse_cfs (k.nodes document));
        }
      ]
      else c'
