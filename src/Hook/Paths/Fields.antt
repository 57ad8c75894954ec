-- ===== src/Hook/Paths/Fields.antt =====
-- payload/paths.h: a reference definition of the fields of a search path.
use catter.Prelude.{
  ℕ, zero, suc, ◌+◌, ◌<◌, ◌≡◌, refl, sym, ap, ◌∙◌, List, [], ◌∷◌, ◌==◌, if◌then◌else◌, Bytes,
  length, arith,
}
use catter.Hook.Config.{os_path_separator}
use catter.Hook.Paths.{span, first, next, collect, entries}

abbrev pub cons_head : ℕ → List Bytes → List Bytes
cons_head c [] = (c ∷ []) ∷ []
cons_head c (f ∷ fs) = (c ∷ f) ∷ fs

-- A reference definition, by recursion on the string.
unfoldable pub fields : Bytes → List Bytes
fields [] = []
fields (c ∷ s) =
    let rest = fields s in if c == os_path_separator then [] ∷ rest else cons_head c rest

abbrev behind : Bytes → Bytes
behind [] = []
behind (c ∷ s) = s

next-first : (s : Bytes) → next s ≡ first (behind s)
unfolding next first
next-first [] = refl
next-first (c ∷ []) = refl
next-first (c ∷ d ∷ s) = refl

fields-span :
    (c : ℕ) (s : Bytes)
    → (fields (c ∷ s) ≡ (span (c ∷ s)).0 ∷ fields (behind (span (c ∷ s)).1))
      × (length (behind (span (c ∷ s)).1) < length (c ∷ s))
unfolding fields span
fields-span c [] = ground arith
fields-span c (d ∷ s) = ground (arith, fields-span d s)

collect-fields : (fuel : ℕ) (s : Bytes) → length s < fuel → collect fuel (first s) ≡ fields s
unfolding collect first
collect-fields zero s h = absurd (omega arith)
collect-fields (suc fuel) [] h = unfold fields in refl
collect-fields (suc fuel) (c ∷ s) h =
    let (e, less) = fields-span c s in
    let rest = (span (c ∷ s)).1 in
    ap (λ l. (span (c ∷ s)).0 ∷ l)
      (ap (collect fuel) (next-first rest) ∙ collect-fields fuel (behind rest) (omega arith))
    ∙ sym e

-- The iteration over a search path gives its fields: its parts between separators, empty ones too,
-- but for an empty part at the very end.
pub entries-fields : (path : Bytes) → entries path ≡ fields path
unfolding entries
entries-fields path = collect-fields (length path + 1) path (omega arith)
