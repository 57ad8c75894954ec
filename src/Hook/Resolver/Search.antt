-- ===== src/Hook/Resolver/Search.antt =====
-- payload/resolver.cc: what an answer of the search is.
use mathlib.Core.Path.{subst}
use catter.Prelude.{
  ◌+◌, ◌≤◌, ◌<◌, ◌≡◌, refl, sym, ◌⊎◌, true, false, List, [], ◌∷◌, ◌++◌, Bytes, length, All, arith,
  Bool-cases, inl, inr, length-append,
}
use catter.Hook.Config.{path_max, os_dir_separator}
use catter.Hook.Paths.{entries}
use catter.Hook.Paths.Fields.{fields, entries-fields}
use catter.Hook.Resolver.{
  FileSystem, Resolved, found, failed, overrun, enoent, candidate, from_current_directory,
  is_skipped, search_entries, from_search_path, contains_dir_separator, or_else,
}

module _ (fs : FileSystem) where
  pub record Accepted (path : Bytes) : Type 0 where
    pub regular : fs.is_regular path ≡ true
    pub executable : fs.is_executable path ≡ true

  abbrev pub Rejected : Bytes → Type 0
  Rejected path = (fs.is_regular path ≡ false) ⊎ (fs.is_executable path ≡ false)

  -- What a right answer for one path is.
  abbrev pub Judged : Bytes → Resolved → Type 0
  Judged path (found p) = (p ≡ path) × Accepted path
  Judged path (failed e) = Rejected path
  Judged path overrun = ⊥

  pub from_current_directory-Judged :
      (file : Bytes) → length file + 1 ≤ path_max → Judged file (from_current_directory fs file)
  unfolding from_current_directory
  from_current_directory-Judged file fits = ground arith

  abbrev pub Unusable : Bytes → Bytes → Type 0
  Unusable file path =
      (path ≡ []) ⊎ ((path_max < length file + length path + 2) ⊎ Rejected (path ++ b'/' ∷ file))

  -- An entry that is not empty and whose candidate, with its 0, fits.
  abbrev pub Usable : Bytes → Bytes → Type 0
  Usable file path = (0 < length path) × (length file + length path + 2 ≤ path_max)

  is_skipped-Unusable : (path file : Bytes) → is_skipped path file ≡ true → Unusable file path
  unfolding is_skipped
  is_skipped-Unusable [] file h = inl refl
  is_skipped-Unusable (c ∷ path) file h = inr (inl (ground arith))

  is_skipped-Usable : (path file : Bytes) → is_skipped path file ≡ false → Usable file path
  unfolding is_skipped
  is_skipped-Usable [] file h = absurd (ground arith)
  is_skipped-Usable (c ∷ path) file h = (omega arith, ground arith)

  -- `p` is the path/file of the first entry for which it is usable and a regular executable file.
  pub data Picks (file : Bytes) : List Bytes → Bytes → Type 0 where
    here :
        (path : Bytes) (paths : List Bytes)
        → Usable file path
        → Accepted (path ++ b'/' ∷ file)
        → Picks file (path ∷ paths) (path ++ b'/' ∷ file)
    later :
        (path : Bytes) {paths : List Bytes} {p : Bytes}
        → Unusable file path
        → Picks file paths p
        → Picks file (path ∷ paths) p

  abbrev pub Answer : Bytes → List Bytes → Resolved → Type 0
  Answer file paths (found p) = Picks file paths p
  Answer file paths (failed e) = (e ≡ enoent) × All (Unusable file) paths
  Answer file paths overrun = ⊥

  Answer-later :
      (file path : Bytes) (paths : List Bytes) (r : Resolved)
      → Unusable file path
      → Answer file paths r
      → Answer file (path ∷ paths) r
  Answer-later file path paths (found p) u a = later path u a
  Answer-later file path paths (failed e) u a = (a.0, (u, a.1))
  Answer-later file path paths overrun u a = a

  Answer-or_else :
      (file path : Bytes) (paths : List Bytes) (r rest : Resolved)
      → is_skipped path file ≡ false
      → Judged (candidate path file) r
      → Answer file paths rest
      → Answer file (path ∷ paths) (or_else r rest)
  Answer-or_else file path paths (found p) rest s j a =
      subst (Picks file (path ∷ paths)) (sym j.0)
        (here path paths (is_skipped-Usable path file s) j.1)
  Answer-or_else file path paths (failed e) rest s j a =
      Answer-later file path paths rest (inr (inr j)) a
  Answer-or_else file path paths overrun rest s j a = absurd j

  candidate_fits :
      (path file : Bytes)
      → is_skipped path file ≡ false
      → length (candidate path file) + 1 ≤ path_max
  unfolding is_skipped
  candidate_fits path file s = ground (arith, length-append path (os_dir_separator ∷ file))

  search_entries-Answer :
      (file : Bytes) (paths : List Bytes) → Answer file paths (search_entries fs file paths)
  unfolding search_entries
  search_entries-Answer file [] = (refl, tt)
  search_entries-Answer file (path ∷ paths) = elim (Bool-cases (is_skipped path file)) [
    | inl s ↦ rw s (
        Answer-later file path paths _ (is_skipped-Unusable path file s)
          (search_entries-Answer file paths))
    | inr s ↦ rw s (
        Answer-or_else file path paths _ _ s
          (from_current_directory-Judged _ (candidate_fits path file s))
          (search_entries-Answer file paths))
  ]

  -- A name with no '/' is looked up in the fields of the search path, in order: the answer is the
  -- first path/file that is a regular executable file, where an empty field and one whose path/file
  -- does not fit in PATH_MAX have none, or ENOENT when no field has one. The buffer is never overrun.
  pub from_search_path-Answer :
      (file search_path : Bytes)
      → contains_dir_separator file ≡ false
      → Answer file (fields search_path) (from_search_path fs file search_path)
  unfolding from_search_path
  from_search_path-Answer file search_path plain = rw plain (
      subst (λ l. Answer file l (search_entries fs file (entries search_path)))
        (entries-fields search_path) (search_entries-Answer file (entries search_path)))
