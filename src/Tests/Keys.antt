-- ===== src/Tests/Keys.antt =====
-- Keys that are numbers.
use playit_ios.Tests.Slab.{with_seven, with_seven-Stored}
use playit_ios.Common.{
  ◌∙◌, sym, if◌then◌else◌, ℕ, ◌+◌, ◌<◌, ◌≡◌, refl, arith, Option, none, some, ◌==◌, ==_iff, inl,
  inr,
}
use playit_ios.Slab.{done, get, available, with_capacity, fresh_slots}
use playit_ios.Slab.Start.{with_capacity-IsValid, get-with_capacity}
use playit_ios.Keys.{KeyToId, get_or_add, remove}
use playit_ios.Keys.Invariant.{IsKeyed, OthersKept}
use playit_ios.Keys.Laws.{get_or_add-IsKeyed, remove-IsKeyed}
use playit_ios.Count.{InstanceCount, dec}
use playit_ios.Count.Laws.{Changed, IsCounted, dec-Changed}

-- A table of two slots.
abbrev two_keys : KeyToId ℕ ℕ
two_keys = record { items = with_capacity 2; lookup = λ key. none }

two_keys-IsKeyed : IsKeyed two_keys
two_keys-IsKeyed = record {
  valid = with_capacity-IsValid 2 (omega arith);
  found = λ key id p. absurd (cc);
  apart = λ key other i j p q e. absurd (cc);
  keyed = λ id v p.
      let q : done none ≡ done (some v) = sym (get-with_capacity 2 id (omega arith)) ∙ p in
      absurd (cc);
}

two_keys-available : 0 < available two_keys.items
unfolding available with_capacity fresh_slots
two_keys-available = omega arith

get_or_add-IsKeyed_example :
    (id : ℕ) × (t' : KeyToId ℕ ℕ) × (get_or_add ◌==◌ two_keys 5 7 ≡ done (some id, t'))
    × IsKeyed t'
    × (t'.lookup 5 ≡ some id)
    × (get t'.items id ≡ done (some 7))
    × (get_or_add ◌==◌ t' 5 7 ≡ done (some id, t'))
    × OthersKept two_keys 5 t'
get_or_add-IsKeyed_example =
    get_or_add-IsKeyed ◌==◌ ==_iff two_keys 5 7 two_keys-IsKeyed refl two_keys-available

abbrev five : ℕ → Option ℕ
five key = if key == 5 then some 0 else none

-- The key 5 has the id of the value 7.
abbrev with_five : KeyToId ℕ ℕ
with_five = record { items = with_seven; lookup = five }

five_lem : (key id : ℕ) → five key ≡ some id → (key ≡ 5) × (id ≡ 0)
five_lem key id p = ground arith

with_five-IsKeyed : IsKeyed with_five
with_five-IsKeyed = record {
  valid = with_seven-Stored.0;
  found = λ key id p. (7, rw (five_lem key id p).1 with_seven-Stored.2);
  apart = λ key other i j p q e. (five_lem key i p).0 ∙ sym (five_lem other j q).0;
  keyed = λ id v p. elim (with_seven-Stored.3 id) [
    | inl e ↦ (5, 0, refl, sym e)
    | inr e ↦
        let q : done none ≡ done (some v) =
          sym (get-with_capacity 2 id (omega arith)) ∙ sym e ∙ p in
        absurd (cc)
  ];
}

remove-IsKeyed_example :
    (v : ℕ) × (t' : KeyToId ℕ ℕ) × (get with_five.items 0 ≡ done (some v))
    × (remove ◌==◌ with_five 5 ≡ done (some (0, v), t'))
    × IsKeyed t'
    × (t'.lookup 5 ≡ none)
    × (get t'.items 0 ≡ done none)
    × OthersKept with_five 5 t'
remove-IsKeyed_example = remove-IsKeyed ◌==◌ ==_iff with_five 5 0 with_five-IsKeyed refl

abbrev some_counts : InstanceCount ℕ
some_counts = record { counters = λ key. some (key + 1) }

some_counts-IsCounted : IsCounted some_counts
some_counts-IsCounted key e = (let p : key + 1 ≡ 0 = cc in omega arith)

dec-Changed_example :
    (t' : InstanceCount ℕ) × (dec ◌==◌ some_counts 4 ≡ done (some 4, t'))
    × Changed ◌==◌ ==_iff some_counts 4 4 t'
dec-Changed_example = dec-Changed ◌==◌ ==_iff some_counts 4 some_counts-IsCounted (omega arith)
