-- ===== src/Proto/Wire/Cut.antt =====
-- A message that is cut off.
use playit_ios.Common.{
  ℕ, ◌≤◌, ◌<◌, ◌≡◌, ◌≢◌, refl, ◌∙◌, arith, List, [], ◌∷◌, ◌++◌, ◌⊎◌, inl, inr, length, take, drop,
  leb, Bool-cases, take-append-drop, length-drop, sym, ap,
}
use playit_ios.Common.Io.{ok}
use playit_ios.Proto.Wire.{MessageEncoding, Reader}
use playit_ios.Proto.Wire.Readers.{Takes, Takes-truncated, Reads}
use playit_ios.Proto.Wire.Laws.{ReadsBack}

-- `a` is written, and its first `k` bytes are all of it or are not read.
abbrev pub CutShort : {A : Type 0} → MessageEncoding A → A → ℕ → Type 0
CutShort {A} m a k =
    (bytes : List ℕ) × (m.write_to a [] ≡ ok (length bytes, bytes))
    × ((b : A) (rest : List ℕ) → (length bytes ≤ k) ⊎ (m.read_from (take k bytes) ≢ ok (b, rest)))

not_empty : (bs : List ℕ) → 0 < length bs → (x : ℕ) × (back : List ℕ) × (bs ≡ x ∷ back)
not_empty [] h = absurd (omega arith)
not_empty (x ∷ back) h = (x, back, refl)

cut_lem :
    {A : Type 0} (r : Reader A) (bytes : List ℕ) (k : ℕ) {a : A}
    → Takes r
    → Reads r bytes a
    → (b : A) (rest : List ℕ) → (length bytes ≤ k) ⊎ (r (take k bytes) ≢ ok (b, rest))
cut_lem r bytes k h reads b rest = elim (Bool-cases (leb (length bytes) k)) [
  | inl e ↦ inl (ground arith)
  | inr e ↦
      let more : 0 < length (drop k bytes) = ground (arith, length-drop k bytes) in
      let (x, back, p) = not_empty (drop k bytes) more in
      let split : bytes ≡ take k bytes ++ (x ∷ back) =
        sym (take-append-drop k bytes) ∙ ap (λ t. take k bytes ++ t) p in
      inr (Takes-truncated r (take k bytes) back x h (rw split at reads) b rest)
]

pub CutShort-of_Takes :
    {A : Type 0} (m : MessageEncoding A) (a : A) (k : ℕ) {b : A}
    → Takes m.read_from
    → ReadsBack m a b
    → CutShort m a k
CutShort-of_Takes m a k h sent =
    (sent.bytes, sent.writes [], cut_lem m.read_from sent.bytes k h sent.reads)
