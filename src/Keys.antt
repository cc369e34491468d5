-- ===== src/Keys.antt =====
-- packages/agent_core/src/utils/key_to_id.rs: ids for keys. The hash map is a function from keys to
-- ids; keys are compared by `same`.
pub mod Invariant
pub mod Laws
use playit_ios.Common.{ℕ, Bool, Option, none, some, if◌then◌else◌, ◌*◌}
use playit_ios.Slab.{
  IdSlab, Outcome, done, panicked, undefined, with_capacity, vacant_entry, insert_vacant,
  VacantEntry,
}
use playit_ios.Slab

pub record KeyToId (K V : Type 0) : Type 0 where
  pub items : IdSlab V
  pub lookup : K → Option ℕ

unfoldable pub default : {K V : Type 0} → KeyToId K V
default = record { items = with_capacity (1024 * 1024); lookup = λ key. none }

module _ {K : Type 0} (same : K → K → Bool) where
  -- `HashMap::insert` and `HashMap::remove`
  unfoldable pub with_key : (K → Option ℕ) → K → Option ℕ → K → Option ℕ
  with_key lookup key id x = if same x key then id else lookup x

module _ {K V : Type 0} (same : K → K → Bool) where
  unfoldable pub add_entry : KeyToId K V → K → V → VacantEntry V → Outcome (Option ℕ × KeyToId K V)
  add_entry t key value entry = elim (insert_vacant entry value) [
    | done (id, items) ↦ done (
      some entry.id,
      record { items = items; lookup = with_key same t.lookup key (some entry.id) },
    )
    | panicked ↦ panicked
    | undefined ↦ undefined
  ]

  -- `value` is what `value_fn` returns, which is called only where the key is new.
  unfoldable pub get_or_add : KeyToId K V → K → V → Outcome (Option ℕ × KeyToId K V)
  get_or_add t key value = elim (t.lookup key) [
    | some id ↦ done (some id, t)
    | none ↦ (elim (vacant_entry t.items) [
      | done none ↦ done (none, t)
      | done (some entry) ↦ add_entry t key value entry
      | panicked ↦ panicked
      | undefined ↦ undefined
    ])
  ]

  -- `expect("item at id not found")`
  unfoldable pub remove : KeyToId K V → K → Outcome (Option (ℕ × V) × KeyToId K V)
  remove t key = elim (t.lookup key) [
    | none ↦ done (none, t)
    | some id ↦ (elim (Slab.remove t.items id) [
      | done (some value, items) ↦
          done
            (some (id, value), record { items = items; lookup = with_key same t.lookup key none })
      | done (none, items) ↦ panicked
      | panicked ↦ panicked
      | undefined ↦ undefined
    ])
  ]
