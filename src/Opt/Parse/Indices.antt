-- ===== src/Opt/Parse/Indices.antt =====
-- common/option/opt_table.cc: the indices that a parse reads, round by round.
use mathlib.Core.Bool.{false≢true}
use catter.Prelude.{
  ℕ, zero, suc, ◌+◌, ◌⊎◌, ◌∙◌, sym, codes, is_empty, ◌%◌, ◌≤◌, ◌<◌, ◌≡◌, ◌≢◌, refl, ap, Bool, true,
  false, none, some, List, [], ◌∷◌, leb, ◌==◌, ◌&&◌, if◌then◌else◌, Bytes, length, drop, set, arith,
  inl, inr, length-drop, not,
}
use catter.Opt.{sub32, u32, assertion}
use catter.Opt.Argument.{ParsedArgument}
use catter.Opt.Accept.{Accepted, arg_at}
use catter.Opt.ParseOne.{Grouped}
use catter.Opt.Accept.Progress.{Advances}
use catter.Opt.ParseOne.Grouped.{Progresses}
use catter.Opt.Parse.{
  Ending, missing, failed, finished, running, Parsed, stop, emit, missing_from, total,
}

-- Indices from `lo` on that do not fall and are below `size`.
abbrev pub Indices : ℕ → ℕ → List ParsedArgument → Type 0
Indices lo size [] = Unit
Indices lo size (a ∷ args) = (lo ≤ a.index) × (a.index < size) × Indices a.index size args

-- Whether the entry `j` of argv is one of the arguments `args` or one of their values.
abbrev pub Takes : ℕ → List ParsedArgument → Type 0
Takes j [] = ⊥
Takes j (a ∷ args) = ((a.index ≤ j) × (j ≤ a.index + length a.values)) ⊎ Takes j args

-- Every entry from `lo` on is taken, but for empty ones and "--".
abbrev pub Covers : List Bytes → ℕ → List ParsedArgument → Type 0
Covers argv lo args =
    (j : ℕ)
    → lo ≤ j
    → j < length argv
    → arg_at argv j ≢ []
    → arg_at argv j ≢ codes "--"
    → Takes j args

-- An end of the parse: the loop is not cut off, argv has kept its size, the arguments come in the
-- order of argv, and if the parse is finished they cover it.
abbrev pub Reads : List Bytes → ℕ → Parsed → Type 0
Reads argv lo r =
    (r.ending ≢ running)
    × (length r.argv ≡ length argv)
    × Indices lo (length argv) r.args
    × (r.ending ≡ finished → Covers argv lo r.args)

Indices-mono :
    (lo lo' size : ℕ) (args : List ParsedArgument)
    → lo ≤ lo'
    → Indices lo' size args
    → Indices lo size args
Indices-mono lo lo' size [] le h = tt
Indices-mono lo lo' size (a ∷ args) le (h, k, rest) = (omega arith, k, rest)

lt_cases : (a b : ℕ) → (a < b) ⊎ (b ≤ a)
lt_cases a b = omega arith

pub le_cases : (a b : ℕ) → a ≤ b → (a ≡ b) ⊎ (a + 1 ≤ b)
le_cases a b h = omega arith

is_empty→eq : (s : Bytes) → is_empty s ≡ true → s ≡ []
is_empty→eq [] h = refl
is_empty→eq (c ∷ s) h = absurd (false≢true h)

-- An empty entry is passed over.
pub skip-Reads :
    (argv : List Bytes) (lo : ℕ) (r : Parsed)
    → is_empty (arg_at argv lo) ≡ true
    → Reads argv (lo + 1) r
    → Reads argv lo r
skip-Reads argv lo r empty (ends, same, rest, covers) = (
  ends,
  same,
  Indices-mono lo (lo + 1) (length argv) r.args (omega arith) rest,
  λ done j le inside some_bytes word. elim (le_cases lo j le) [
    | inl here ↦ absurd (some_bytes (rw (← here) (is_empty→eq (arg_at argv lo) empty)))
    | inr behind ↦ covers done j behind inside some_bytes word
  ],
)

total_le : (argv : List Bytes) (n : ℕ) → total (drop n argv) ≤ total argv
total_le [] zero = omega arith
total_le [] (suc n) = omega arith
total_le (a ∷ argv) zero = omega arith
total_le (a ∷ argv) (suc n) = omega (arith, total_le argv n)

pub total-drop :
    (argv : List Bytes) (i n : ℕ)
    → i < n
    → i < length argv
    → total (drop n argv) < total (drop i argv)
total-drop [] i n lt inside = absurd (omega arith)
total-drop (a ∷ argv) i zero lt inside = absurd (omega arith)
total-drop (a ∷ argv) zero (suc n) lt inside = omega (arith, total_le argv n)
total-drop (a ∷ argv) (suc i) (suc n) lt inside = total-drop argv i n (omega arith) (omega arith)

-- Where a group becomes one byte shorter.
total-set :
    (argv : List Bytes) (i : ℕ)
    → i < length argv
    → 2 ≤ length (arg_at argv i)
    → total (drop i (set argv i (b'-' ∷ drop 2 (arg_at argv i)))) < total (drop i argv)
total-set [] i inside two = absurd (omega arith)
total-set (a ∷ argv) zero inside two = omega (arith, length-drop 2 a)
total-set (a ∷ argv) (suc i) inside two = total-set argv i (omega arith) two

length-set : (argv : List Bytes) (i : ℕ) (a : Bytes) → length (set argv i a) ≡ length argv
length-set [] i a = refl
length-set (b ∷ argv) zero a = refl
length-set (b ∷ argv) (suc i) a = ap suc (length-set argv i a)

arg_at-set :
    (argv : List Bytes) (i j : ℕ) (a : Bytes) → j ≢ i → arg_at (set argv i a) j ≡ arg_at argv j
arg_at-set [] i j a other = refl
arg_at-set (b ∷ argv) zero zero a other = absurd (other refl)
arg_at-set (b ∷ argv) zero (suc j) a other = refl
arg_at-set (b ∷ argv) (suc i) zero a other = refl
arg_at-set (b ∷ argv) (suc i) (suc j) a other = arg_at-set argv i j a (λ e. other (ap suc e))

-- What a round of the loop leaves, where it emits an argument.
abbrev pub Leaves : List Bytes → ℕ → Grouped → Type 0
Leaves argv index ((none, next), argv') = length argv' ≡ length argv
Leaves argv index ((some a, next), argv') =
    (a.index ≡ index)
    × (index ≤ next)
    × (next ≤ length argv)
    × (length argv' ≡ length argv)
    × (total (drop next argv') < total (drop index argv))
    × (next ≤ index + 1 + length a.values)
    × ((j : ℕ) → j ≢ index → arg_at argv' j ≡ arg_at argv j)

pub advanced-Leaves :
    (argv : List Bytes) (index : ℕ) (a : Accepted)
    → index < length argv
    → Advances argv index a
    → Leaves argv index (a, argv)
advanced-Leaves argv index (none, next) inside h = refl
advanced-Leaves argv index (some a, next) inside (lt, le, e, few) =
    (e, omega arith, le, refl, total-drop argv index next lt inside, few, λ j other. refl)

pub progressed-Leaves :
    (argv : List Bytes) (index : ℕ) (g : Grouped)
    → index < length argv
    → Progresses argv index g
    → Leaves argv index g
progressed-Leaves argv index ((none, next), argv') inside h = ap length h
progressed-Leaves argv index ((some a, next), argv') inside (e, inl (lt, le, few, same)) = (
  e,
  omega arith,
  le,
  ap length same,
  rw (same) (total-drop argv index next lt inside),
  few,
  λ j other. ap (λ l. arg_at l j) same,
)
progressed-Leaves argv index ((some a, next), argv') inside (e, inr (stay, two, cut)) = (
  e,
  omega arith,
  omega arith,
  rw (cut) (length-set argv index (b'-' ∷ drop 2 (arg_at argv index))),
  rw (stay, cut) (total-set argv index inside two),
  omega arith,
  λ j other.
      ap (λ l. arg_at l j) cut ∙ arg_at-set argv index j (b'-' ∷ drop 2 (arg_at argv index)) other,
)

pub if-Indices :
    (b : Bool) (lo size : ℕ) (xs ys : List ParsedArgument)
    → Indices lo size xs
    → Indices lo size ys
    → Indices lo size (if b then xs else ys)
if-Indices true lo size xs ys h k = h
if-Indices false lo size xs ys h k = k

pub if-Covers :
    (b : Bool) (argv : List Bytes) (lo : ℕ) (xs ys : List ParsedArgument)
    → Covers argv lo xs
    → Covers argv lo ys
    → Covers argv lo (if b then xs else ys)
if-Covers true argv lo xs ys h k = h
if-Covers false argv lo xs ys h k = k

pub if-Reads :
    (b : Bool) (argv : List Bytes) (lo : ℕ) (x y : Parsed)
    → (b ≡ true → Reads argv lo x)
    → (b ≡ false → Reads argv lo y)
    → Reads argv lo (if b then x else y)
if-Reads true argv lo x y h k = h refl
if-Reads false argv lo x y h k = k refl

-- A parse that ends here without being finished.
pub stop-Reads :
    (argv argv' : List Bytes) (lo : ℕ) (ending : Ending)
    → ending ≢ running
    → ending ≢ finished
    → length argv' ≡ length argv
    → Reads argv lo (stop argv' ending)
stop-Reads argv argv' lo ending ends unfinished size =
    (ends, size, tt, λ done. absurd (unfinished done))

pub missing_from-Reads :
    (argv argv' : List Bytes) (index next : ℕ)
    → length argv' ≡ length argv
    → Reads argv index (missing_from argv' (length argv % u32) index next)
missing_from-Reads argv argv' index next size =
    if-Reads (leb (length argv % u32) next && not (count == 0)) argv index
      (stop argv' (missing index count)) (stop argv' (failed assertion))
      (λ e. stop-Reads argv argv' index (missing index count) (λ r. (cc)) (λ r. (cc)) size)
      (λ e. stop-Reads argv argv' index (failed assertion) (λ r. (cc)) (λ r. (cc)) size)
  where
    count : ℕ
    count = sub32 (sub32 next index) 1

-- An argument at the index, before what the rest of argv gives.
pub emit-Reads :
    (a : ParsedArgument) (r : Parsed) (argv argv' : List Bytes) (index next : ℕ)
    → index < length argv
    → Leaves argv index ((some a, next), argv')
    → Reads argv' next r
    → Reads argv index (emit a r)
emit-Reads a r argv argv' index next inside (at, le, within, size, less, few, kept)
      (ends, same, rest, covers) =
    (
      ends,
      same ∙ size,
      (
        omega arith,
        omega arith,
        Indices-mono a.index next (length argv) r.args (omega arith) (rw (← size) rest),
      ),
      λ done j le' inside' some_bytes word.
          elim (le_or_later a.index (length a.values) next j (omega arith) (omega arith)) [
            | inl here ↦ inl here
            | inr (behind, other) ↦
                let e = kept j (λ same_index. other (same_index ∙ sym at)) in
                inr (
                  covers done j behind (omega arith) (λ h. some_bytes (sym e ∙ h))
                    (λ h. word (sym e ∙ h)))
          ],
    )
  where
    le_or_later :
        (at n next j : ℕ)
        → at ≤ j
        → next ≤ at + 1 + n
        → ((at ≤ j) × (j ≤ at + n)) ⊎ ((next ≤ j) × (j ≢ at))
    le_or_later at n next j le few = elim (lt_cases (at + n) j) [
      | inl more ↦ inr (omega arith, λ e. (omega arith))
      | inr less ↦ inl (le, less)
    ]
