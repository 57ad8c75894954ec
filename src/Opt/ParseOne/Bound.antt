-- ===== src/Opt/ParseOne/Bound.antt =====
-- common/option/opt_table.cc: theorems about std::lower_bound in the search for an option.
use catter.Prelude.{
  ℕ, zero, suc, ◌+◌, ◌-◌, ◌/◌, ◌≤◌, ◌<◌, ◌≡◌, refl, ap, ◌∙◌, Bool, true, false, List, [], ◌∷◌, ◌++◌,
  Bytes, length, get_elem?, arith, All, length-append, if-eq_true, if-eq_false, Bool-cases, inl,
  inr, ◌==◌, ◌⊎◌, IsByte,
}
use catter.Opt.Info.{name, Info}
use catter.Opt.Match.Order.{cmp_trans, str_cmp_opt_name-cmp}
use catter.Opt.Match.{less_at, bound_loop, lower_bound, opt_name_less}

module _ (less : Info → Bool) where
  less_at-false :
      (hi : List Info) (k : ℕ)
      → All (λ i. less i ≡ false) hi
      → less_at less (get_elem? hi k) ≡ false
  less_at-false [] k h = refl
  less_at-false (i ∷ hi) zero h = h.0
  less_at-false (i ∷ hi) (suc k) h = less_at-false hi k h.1

  less_at-partition :
      (lo hi : List Info) (k : ℕ)
      → All (λ i. less i ≡ true) lo
      → All (λ i. less i ≡ false) hi
      → ((less_at less (get_elem? (lo ++ hi) k) ≡ true) × (k < length lo))
        ⊎ ((less_at less (get_elem? (lo ++ hi) k) ≡ false) × (length lo ≤ k))
  less_at-partition [] hi k h n = inr (less_at-false hi k n, omega arith)
  less_at-partition (i ∷ lo) hi zero h n = inl (h.0, omega arith)
  less_at-partition (i ∷ lo) hi (suc k) h n = elim (less_at-partition lo hi k h.1 n) [
    | inl (e, lt) ↦ inl (e, omega arith)
    | inr (e, le) ↦ inr (e, omega arith)
  ]

  module _ (lo hi : List Info) (below : All (λ i. less i ≡ true) lo)
      (above : All (λ i. less i ≡ false) hi) where
    bound_loop-partition :
        (fuel first len : ℕ)
        → len < fuel
        → first ≤ length lo
        → length lo ≤ first + len
        → bound_loop fuel less (lo ++ hi) first len ≡ length lo
    unfolding bound_loop
    bound_loop-partition zero first len enough from to = absurd (omega arith)
    bound_loop-partition (suc fuel) first len enough from to = elim (Bool-cases (len == 0)) [
      | inl empty ↦ if-eq_true (len == 0) _ _ empty ∙ ground arith
      | inr more ↦
          if-eq_false (len == 0) _ _ more
          ∙ elim (less_at-partition lo hi (first + len / 2) below above) [
            | inl (e, lt) ↦
                if-eq_true (less_at less (get_elem? (lo ++ hi) (first + len / 2))) _ _ e
                ∙ bound_loop-partition fuel (first + len / 2 + 1) (len - len / 2 - 1) (ground arith)
                    (omega arith) (omega arith)
            | inr (e, le) ↦
                if-eq_false (less_at less (get_elem? (lo ++ hi) (first + len / 2))) _ _ e
                ∙ bound_loop-partition fuel first (len / 2) (ground arith) from le
          ]
    ]

    pub lower_bound-partition : lower_bound less (lo ++ hi) ≡ length lo
    unfolding lower_bound
    lower_bound-partition =
        bound_loop-partition (suc (length (lo ++ hi))) 0 (length (lo ++ hi)) (omega arith)
          (omega arith) (omega (arith, length-append lo hi))

-- Names that do not fall in the order of str_cmp_opt_name.
abbrev pub Sorted : List Info → Type 0
Sorted [] = Unit
Sorted (i ∷ infos) = All (λ j. opt_name_less j (name i) ≡ false) infos × Sorted infos

abbrev pub ByteNames : List Info → Type 0
ByteNames = All (λ i. All IsByte (name i))

less_trans :
    (i j : Info) (s : Bytes)
    → All IsByte (name i)
    → All IsByte (name j)
    → All IsByte s
    → opt_name_less j (name i) ≡ false
    → opt_name_less j s ≡ true
    → opt_name_less i s ≡ true
unfolding opt_name_less
less_trans i j s hi hj hs later before = rw (str_cmp_opt_name-cmp (name i) s) (
    cmp_trans (name i) (name j) s hi hj hs (rw (str_cmp_opt_name-cmp (name j) (name i)) at later)
      (rw (str_cmp_opt_name-cmp (name j) s) at before))

pub true_or_false : (b : Bool) → b ≡ true → b ≡ false → ⊥
true_or_false b h k = cc

not_less_after :
    (i : Info) (infos : List Info) (s : Bytes)
    → All IsByte (name i)
    → ByteNames infos
    → All IsByte s
    → All (λ j. opt_name_less j (name i) ≡ false) infos
    → opt_name_less i s ≡ false
    → All (λ j. opt_name_less j s ≡ false) infos
not_less_after i [] s hi hn hs sorted after = tt
not_less_after i (j ∷ infos) s hi hn hs sorted after =
    (not_before (opt_name_less j s) refl, not_less_after i infos s hi hn.1 hs sorted.1 after)
  where
    not_before : (b : Bool) → opt_name_less j s ≡ b → opt_name_less j s ≡ false
    not_before false e = e
    not_before true e =
        absurd (true_or_false (opt_name_less i s) (less_trans i j s hi hn.0 hs sorted.0 e) after)

-- Sorted options are cut in two by any name.
abbrev pub Partition : List Info → Bytes → Type 0
Partition infos s =
    (lo : List Info) × (hi : List Info) × (infos ≡ lo ++ hi)
    × All (λ i. opt_name_less i s ≡ true) lo
    × All (λ i. opt_name_less i s ≡ false) hi

Partition-cons :
    (i : Info) (infos : List Info) (s : Bytes)
    → opt_name_less i s ≡ true
    → Partition infos s
    → Partition (i ∷ infos) s
Partition-cons i infos s before (lo, hi, e, below, above) =
    (i ∷ lo, hi, ap (λ l. i ∷ l) e, (before, below), above)

pub partition :
    (infos : List Info) (s : Bytes)
    → ByteNames infos
    → All IsByte s
    → Sorted infos
    → Partition infos s
partition [] s hn hs sorted = ([], [], refl, tt, tt)
partition (i ∷ infos) s hn hs sorted = elim (Bool-cases (opt_name_less i s)) [
  | inl before ↦ Partition-cons i infos s before (partition infos s hn.1 hs sorted.1)
  | inr after ↦
      ([], i ∷ infos, refl, tt, (after, not_less_after i infos s hn.0 hn.1 hs sorted.0 after))
]
