-- ===== src/Count.antt =====
-- packages/agent_core/src/utils/instance_count.rs: how many instances there are of each key. The
-- hash map is a function from keys to counts; keys are compared by `same`.
pub mod Laws
use playit_ios.Common.{ℕ, ◌+◌, ◌-◌, Bool, true, false, Option, none, some, if◌then◌else◌, ◌==◌}
use playit_ios.Slab.{Outcome, done, panicked, undefined}
use playit_ios.Keys.{with_key}

pub record InstanceCount (K : Type 0) : Type 0 where
  pub counters : K → Option ℕ

unfoldable pub no_instances : {K : Type 0} → InstanceCount K
no_instances = record { counters = λ key. none }

unfoldable pub has_instance : {K : Type 0} → InstanceCount K → K → Bool
has_instance t key = elim (t.counters key) [ none ↦ false | some n ↦ true ]

module _ {K : Type 0} (same : K → K → Bool) where
  unfoldable pub inc : InstanceCount K → K → ℕ × InstanceCount K
  inc t key = elim (t.counters key) [
    | some count ↦
        (count + 1, record { counters = with_key same t.counters key (some (count + 1)) })
    | none ↦ (1, record { counters = with_key same t.counters key (some 1) })
  ]

  -- `assert_ne!(*count, 0)`
  unfoldable pub dec : InstanceCount K → K → Outcome (Option ℕ × InstanceCount K)
  dec t key = elim (t.counters key) [
    | none ↦ done (none, t)
    | some count ↦
        if count == 0
        then panicked
        else (if count - 1 == 0
            then done (some 0, record { counters = with_key same t.counters key none })
            else done (
              some (count - 1),
              record { counters = with_key same t.counters key (some (count - 1)) },
            ))
  ]
