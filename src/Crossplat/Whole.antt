-- ===== src/Crossplat/Whole.antt =====
-- common/util/crossplat.cc: theorems about the paths that the platforms give.
use catter.Prelude.{
  ℕ, zero, suc, ◌+◌, ◌-◌, ◌*◌, ◌≤◌, ◌<◌, ◌≡◌, refl, ap, ◌∙◌, true, false, Option, some, [], ◌∷◌,
  ◌==◌, ◌&&◌, if◌then◌else◌, Bytes, length, take, arith, All, if-eq_true, if-eq_false,
}
use native.Mathlib.Decide.{dec_lt}
use catter.Launch.{ok, c_str}
use catter.Crossplat.{
  Module, FileName, module_loop, module_path, max_path, get_executable_path, Failure,
}

abbrev NoZero : Bytes → Type 0
NoZero = All (λ c. (c == 0) ≡ false)

c_str-NoZero : (s : Bytes) → NoZero s → c_str s ≡ s
unfolding c_str
c_str-NoZero [] h = refl
c_str-NoZero (c ∷ s) h = if-eq_false (c == 0) _ _ h.0 ∙ ap (λ l. c ∷ l) (c_str-NoZero s h.1)

take-NoZero : (n : ℕ) (s : Bytes) → NoZero s → NoZero (take n s)
take-NoZero zero s h = tt
take-NoZero (suc n) [] h = tt
take-NoZero (suc n) (c ∷ s) h = (h.0, take-NoZero n s h.1)

-- The path of the program on Linux is cut off behind 1023 bytes, and is whole if it has no more.
get_executable_path-take :
    (e : Failure) (c : ℕ) (link : Bytes)
    → NoZero (c ∷ link)
    → get_executable_path e (some (c ∷ link)) ≡ ok (c ∷ take 1022 link)
unfolding get_executable_path
get_executable_path-take e c link h =
    ap ok (c_str-NoZero (c ∷ take 1022 link) (h.0, take-NoZero 1022 link h.1))

-- What Windows documents of GetModuleFileNameA, for a module at `path`.
pub record IsModule (m : Module) (path : Bytes) : Type 0 where
  pub fits :
      (size : ℕ)
      → length path < size
      → m size ≡ record { returned = length path; buffer = path; insufficient = false }
  pub too_small :
      (size : ℕ)
      → size ≤ length path
      → m size ≡ record { returned = size; buffer = take (size - 1) path; insufficient = true }

module _ (m : Module) (path : Bytes) (is : IsModule m path) (no_zero : NoZero path) where
  -- A round of the loop, by what GetModuleFileNameA leaves.
  abbrev round : ℕ → ℕ → FileName → Option Bytes
  round fuel size d =
      if d.returned == size && d.insufficient
      then module_loop fuel m (size * 2)
      else some (c_str d.buffer)

  module_loop-fits :
      (fuel size : ℕ) → length path < size → module_loop (suc fuel) m size ≡ some path
  unfolding module_loop
  module_loop-fits fuel size lt =
      ap (round fuel size) (is.fits size lt)
      ∙ if-eq_false ((length path == size) && false) _ _ (ground arith)
      ∙ ap some (c_str-NoZero path no_zero)

  module_loop-whole :
      (fuel size : ℕ)
      → 0 < size
      → length path < size + fuel
      → module_loop (suc fuel) m size ≡ some path
  unfolding module_loop
  module_loop-whole zero size pos enough = module_loop-fits zero size (omega arith)
  module_loop-whole (suc fuel) size pos enough = elim (dec_lt (length path) size) [
    | yes lt ↦ module_loop-fits (suc fuel) size lt
    | no ge ↦
        ap (round (suc fuel) size) (is.too_small size (omega arith))
        ∙ if-eq_true ((size == size) && true) _ _ (ground arith)
        ∙ module_loop-whole fuel (size * 2) (omega arith) (omega arith)
  ]

  -- The buffer grows until it holds the whole path, however long that is.
  pub module_path-whole : module_path (suc (length path)) m ≡ some path
  unfolding module_path
  module_path-whole = module_loop-whole (length path) max_path (omega arith) (omega arith)
