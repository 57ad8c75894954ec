-- ===== src/Hook/Paths.antt =====
-- payload/paths.h: the iteration over a PATH-like list. An iterator is the entry and what stands
-- behind it (its `end_` up to the end of the string); `none` is the end iterator.
pub mod Fields
use catter.Prelude.{
  ℕ, zero, suc, ◌+◌, Option, none, some, List, [], ◌∷◌, ◌==◌, if◌then◌else◌, Bytes, length,
}
use catter.Hook.Config.{os_path_separator}

pub record Iterator : Type 0 where
  pub entry : Bytes
  pub rest : Bytes

-- next_path_separator: the bytes before the separator, and those from it on.
unfoldable pub span : Bytes → Bytes × Bytes
span [] = ([], [])
span (c ∷ s) =
    let (entry, rest) = span s in if c == os_path_separator then ([], c ∷ s) else (c ∷ entry, rest)

abbrev pub of_span : Bytes × Bytes → Iterator
of_span (entry, rest) = record { entry = entry; rest = rest }

-- Splitter::begin
unfoldable pub first : Bytes → Option Iterator
first [] = none
first (c ∷ s) = some (of_span (span (c ∷ s)))

-- Splitter::next, from the end of an entry
unfoldable pub next : Bytes → Option Iterator
next [] = none
next (c ∷ []) = none
next (c ∷ d ∷ s) = some (of_span (span (d ∷ s)))

-- for(const auto& path: Paths(search_path)), the entries in order
unfoldable pub collect : ℕ → Option Iterator → List Bytes
collect zero it = []
collect (suc fuel) none = []
collect (suc fuel) (some it) = it.entry ∷ collect fuel (next it.rest)

-- Every entry but the first takes a separator, so the length of the string bounds their number.
unfoldable pub entries : Bytes → List Bytes
unfolding collect first next span
entries path = collect (length path + 1) (first path)
