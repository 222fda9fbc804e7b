-- ===== src/Config/Assignments/Negation.antt =====
-- config/src/scheduler/assignments.rs: conditions that start with `!`.
use Prim.Native.Char.{Char, code}
use system76_scheduler.Base.{String, false, nat_eq, not, refl, string_eq, true, ◌==◌, ◌≡◌}
use system76_scheduler.Base.Text.{starts_with}
use system76_scheduler.Config.Assignments.{matches, new_condition}
use system76_scheduler.Externals.{Externals}

-- A pattern that has no `!` in front is met exactly when it matches, and with one put in front exactly
-- when it does not.
pub matches-negated :
    (x : Externals) (bang : Char) (pattern input : String)
    → (code bang == b'!') ≡ true
    → starts_with b'!' pattern ≡ false
    → (matches x (new_condition pattern) input ≡ x.wild_match pattern input)
      × (matches x (new_condition (String.◌∷◌ bang pattern)) input
          ≡ not (x.wild_match pattern input))
unfolding matches new_condition
matches-negated x bang String.[] input h k = (refl, rw h)
matches-negated x bang (String.◌∷◌ c s) input h k = (rw k, rw h)
