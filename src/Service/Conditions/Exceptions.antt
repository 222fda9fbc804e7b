-- ===== src/Service/Conditions/Exceptions.antt =====
-- daemon/src/service.rs: which processes are excepted.
use system76_scheduler.Base.{
  Bool, List, [], any, ap, arith, false, nat_eq, string_eq, true, ◌++◌, ◌==◌, ◌∷◌, ◌≡◌,
}
use system76_scheduler.Config.Assignments.{Assignments, Condition}
use system76_scheduler.Config.Kdl.{Kdl, iter_properties}
use system76_scheduler.Config.Parser.Exceptions.{names_ancestor, parse_exception-HasNoAncestor}
use system76_scheduler.Config.Parser.Rules.{parse_exception}
use system76_scheduler.Externals.{Externals}
use system76_scheduler.Process.Cell.{Process}
use system76_scheduler.Service.Conditions.{is_excepted_by, process_is_exception}
use system76_scheduler.Service.State.{Service}

any-last :
    (f : Condition → Bool) (c : Condition) (before : List Condition)
    → f c ≡ true
    → any f (before ++ c ∷ []) ≡ true
any-last f c [] h = rw h
any-last f c (b ∷ before) h = ground (arith, any-last f c before h)

-- An exception `include` that names neither `descends` nor `parent` excepts every process, whatever
-- `cgroup` it names: the loop over the conditional exceptions does not look at the cgroup.
pub process_is_exception-no_ancestor :
    (x : Externals) (k : Kdl) (a : Assignments) (node : k.Node) (s : Service) (p : Process)
    → (k.node_name node == "include") ≡ true
    → any (names_ancestor k) (iter_properties k node) ≡ false
    → s.config.process_scheduler.assignments ≡ parse_exception k a node
    → process_is_exception x s p ≡ true
unfolding process_is_exception is_excepted_by
process_is_exception-no_ancestor x k a node s p h e same =
    let (c, (no_descends, no_parent), last) = parse_exception-HasNoAncestor k a node h e in
    ground (
      arith,
      ap (λ (b : Assignments). any (is_excepted_by x s.owner p) b.exceptions_conditions) same,
      ap (any (is_excepted_by x s.owner p)) last,
      any-last (is_excepted_by x s.owner p) c a.exceptions_conditions (rw (no_descends, no_parent)),
    )
