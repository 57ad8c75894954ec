-- ===== src/Opt/Match/Order.antt =====
-- common/option/opt_table.cc: theorems about str_cmp_opt_name, the order of the options' names.
use catter.Prelude.{
  ℕ, suc, ◌<◌, ◌≡◌, refl, ap, ◌∙◌, true, false, [], ◌∷◌, if◌then◌else◌, Bytes, length, take, arith,
  All, ◌==◌, IsByte,
}
use catter.Opt.Text.{
  Sign, negative, zero_sign, positive, safe_tolower, char_lt, compare_insensitive, min_size,
  unless_zero, str_cmp_opt_name, is_negative,
}

-- The order by recursion: an end comes behind every letter.
unfoldable pub cmp : Bytes → Bytes → Sign
cmp [] [] = zero_sign
cmp [] (d ∷ b) = positive
cmp (c ∷ a) [] = negative
cmp (c ∷ a) (d ∷ b) =
    let rest = cmp a b in
    if safe_tolower c == safe_tolower d
    then rest
    else if char_lt (safe_tolower c) (safe_tolower d)
    then negative
    else positive

min_size-cons : (c d : ℕ) (a b : Bytes) → min_size (c ∷ a) (d ∷ b) ≡ suc (min_size a b)
min_size-cons c d a b = ground arith

abbrev pick : ℕ → ℕ → Sign → Sign
pick x y rest = if x == y then rest else if char_lt x y then negative else positive

-- The end of str_cmp_opt_name, by the sizes.
abbrev by_sizes : ℕ → ℕ → ℕ → Sign
by_sizes n m least = if n == m then zero_sign else if n == least then positive else negative

by_sizes-suc : (n m least : ℕ) → by_sizes (suc n) (suc m) (suc least) ≡ by_sizes n m least
by_sizes-suc n m least = ground arith

unless_zero-pick :
    (x y : ℕ) (rest tail : Sign)
    → unless_zero (pick x y rest) tail ≡ pick x y (unless_zero rest tail)
unless_zero-pick x y rest tail = ground arith

str_cmp-cons :
    (c d : ℕ) (a b : Bytes)
    → str_cmp_opt_name (c ∷ a) (d ∷ b) false
      ≡ pick (safe_tolower c) (safe_tolower d) (str_cmp_opt_name a b false)
unfolding str_cmp_opt_name compare_insensitive
str_cmp-cons c d a b =
    ap
      (λ n.
        unless_zero (compare_insensitive (take n (c ∷ a)) (take n (d ∷ b)))
          (by_sizes (length (c ∷ a)) (length (d ∷ b)) n))
      (min_size-cons c d a b)
    ∙ ap (λ r. unless_zero (pick (safe_tolower c) (safe_tolower d) matched) r)
        (by_sizes-suc (length a) (length b) (min_size a b))
    ∙ unless_zero-pick (safe_tolower c) (safe_tolower d) matched
        (by_sizes (length a) (length b) (min_size a b))
  where
    matched : Sign
    matched = compare_insensitive (take (min_size a b) a) (take (min_size a b) b)

pub str_cmp_opt_name-cmp : (a b : Bytes) → str_cmp_opt_name a b false ≡ cmp a b
unfolding cmp
str_cmp_opt_name-cmp [] [] = unfold str_cmp_opt_name compare_insensitive in refl
str_cmp_opt_name-cmp [] (d ∷ b) = unfold str_cmp_opt_name compare_insensitive in ground arith
str_cmp_opt_name-cmp (c ∷ a) [] = unfold str_cmp_opt_name compare_insensitive in ground arith
str_cmp_opt_name-cmp (c ∷ a) (d ∷ b) =
    str_cmp-cons c d a b ∙ ap (pick (safe_tolower c) (safe_tolower d)) (str_cmp_opt_name-cmp a b)

pick_trans :
    (x y z : ℕ) (r q p : Sign)
    → x < 256
    → y < 256
    → z < 256
    → is_negative (pick y x r) ≡ false
    → is_negative (pick y z q) ≡ true
    → (is_negative r ≡ false → is_negative q ≡ true → is_negative p ≡ true)
    → is_negative (pick x z p) ≡ true
pick_trans x y z r q p hx hy hz h k l = ground arith

safe_tolower-IsByte : (c : ℕ) → IsByte c → IsByte (safe_tolower c)
safe_tolower-IsByte c h = ground arith

-- If `b` is not before `a`, but before `s`, then `a` is before `s`.
pub cmp_trans :
    (a b s : Bytes)
    → All IsByte a
    → All IsByte b
    → All IsByte s
    → is_negative (cmp b a) ≡ false
    → is_negative (cmp b s) ≡ true
    → is_negative (cmp a s) ≡ true
unfolding cmp
cmp_trans a [] [] ha hb hs h k = ground arith
cmp_trans a [] (e ∷ s) ha hb hs h k = ground arith
cmp_trans [] (d ∷ b) s ha hb hs h k = ground arith
cmp_trans (c ∷ a) (d ∷ b) [] ha hb hs h k = refl
cmp_trans (c ∷ a) (d ∷ b) (e ∷ s) ha hb hs h k =
    pick_trans (safe_tolower c) (safe_tolower d) (safe_tolower e) (cmp b a) (cmp b s) (cmp a s)
      (safe_tolower-IsByte c ha.0) (safe_tolower-IsByte d hb.0) (safe_tolower-IsByte e hs.0) h k
      (cmp_trans a b s ha.1 hb.1 hs.1)
