-- ===== src/Config/Parser/Profiles.antt =====
-- config/src/parser/scheduler.rs, `impl Profile`. Log messages are left out.
use system76_scheduler.Base.{
  List, Option, String, [], if◌then◌else◌, nat_eq, none, some, string_eq, unwrap_or, ◌==◌, ◌∷◌,
}
use system76_scheduler.Config.Kdl.{Kdl, as_i8, as_u8, iter_properties, parse_to}
use system76_scheduler.Config.Policy.{
  IoClass, io_class_from_str, niceness_from, sched_policy_from_str, sched_priority_from,
}
use system76_scheduler.Config.Profile.{Class, Profile}
use system76_scheduler.Externals.{Externals}

module _ (x : Externals) (k : Kdl) where
  open k use {Node, Entry}

  -- `entry.ty().map(KdlIdentifier::value).or_else(|| entry.value().as_string())`
  unfoldable pub io_class_name : Entry → Option String
  io_class_name entry = elim (k.entry_type entry) [
    | some class ↦ some class
    | none ↦ k.as_string entry
  ]

  -- The class with its level: 7 where no level is given, and the lowest where it is out of range
  unfoldable pub io_class : Entry → IoClass → Class
  io_class entry IoClass.best_effort =
      Class.best_effort (unwrap_or (x.be_from_level (unwrap_or (as_u8 k entry) 7)) x.be_lowest)
  io_class entry IoClass.idle = Class.idle
  io_class entry IoClass.realtime =
      Class.realtime (unwrap_or (x.rt_from_level (unwrap_or (as_u8 k entry) 7)) x.rt_lowest)

  -- `Profile::parse_io`
  unfoldable pub parse_io : Profile → Entry → Profile
  unfolding io_class_name io_class
  parse_io p entry = elim (io_class_name entry) [
    | none ↦ p
    | some class ↦ elim (io_class_from_str class) [
      | none ↦ p
      | some c ↦ record p { io = io_class entry c }
    ]
  ]

  -- `Profile::parse_nice`
  unfoldable pub parse_nice : Profile → Entry → Profile
  parse_nice p entry = elim (as_i8 k entry) [
    | none ↦ p
    | some niceness ↦ record p { nice = some (niceness_from niceness) }
  ]

  -- `parse_sched` for an entry with a type, as in `(fifo)50`
  unfoldable pub parse_sched_typed : Profile → Entry → String → Profile
  parse_sched_typed p entry name = elim (sched_policy_from_str name) [
    | none ↦ p
    | some policy ↦ elim (as_u8 k entry) [
      | none ↦ p
      | some priority ↦ record p {
        sched_policy = policy;
        sched_priority = sched_priority_from priority;
      }
    ]
  ]

  -- `Profile::parse_sched`
  unfoldable pub parse_sched : Profile → Entry → Profile
  unfolding parse_sched_typed
  parse_sched p entry = elim (k.entry_type entry) [
    | some name ↦ parse_sched_typed p entry name
    | none ↦ elim (parse_to k sched_policy_from_str entry) [
      | none ↦ p
      | some policy ↦ record p { sched_policy = policy }
    ]
  ]

  -- `Profile::parse_properties`: the profile when all entries are gone through, and those that are
  -- passed on
  unfoldable pub parse_properties :
      Profile → List (String × Entry) → Profile × List (String × Entry)
  parse_properties p [] = (p, [])
  parse_properties p ((property, entry) ∷ rest) =
      let io = parse_properties (parse_io p entry) rest in
      let nice = parse_properties (parse_nice p entry) rest in
      let sched = parse_properties (parse_sched p entry) rest in
      let other = parse_properties p rest in
      if property == "io"
      then io
      else if property == "nice"
      then nice
      else if property == "sched"
      then sched
      else (other.0, (property, entry) ∷ other.1)

  -- `Profile::parse`
  unfoldable pub parse_profile : Profile → Node → Profile
  parse_profile p node = (parse_properties p (iter_properties k node)).0
