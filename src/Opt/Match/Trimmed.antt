-- ===== src/Opt/Match/Trimmed.antt =====
-- common/option/opt_table.cc: theorems about match_opt and the name that ltrim_all_of leaves.
use catter.Prelude.{
  ℕ, ◌≡◌, refl, ap, ◌∙◌, sym, Bool, true, false, List, [], ◌∷◌, ◌++◌, if◌then◌else◌, Bytes,
  starts_with, length, drop, arith, All, Bool-cases, inl, inr, ◌==◌, ◌⊎◌, IsByte, ◌&&◌, if-eq_true,
  if-eq_false, ==_iff,
}
use catter.Opt.Text.{safe_tolower, contains, ltrim_all_of, starts_with_insensitive, is_negative}
use catter.Opt.Info.{Info, name}
use catter.Opt.Match.{starts, match_prefixes, match_opt, opt_name_less}
use catter.Opt.Match.Order.{cmp, str_cmp_opt_name-cmp}

-- A name that does not begin with a prefix character, in either case.
abbrev Named : List ℕ → Bytes → Type 0
Named chars [] = ⊥
Named chars (c ∷ n) = (d : ℕ) → safe_tolower d ≡ safe_tolower c → contains chars d ≡ false

-- The prefixes of an option are made of prefix characters, and its name begins with another.
abbrev pub WellNamed : List ℕ → Info → Type 0
WellNamed chars i =
    All (All (λ c. contains chars c ≡ true)) i.prefixes × Named chars (name i) × All IsByte (name i)

starts_with-split : (w p : Bytes) → starts_with w p ≡ true → p ++ drop (length p) w ≡ w
starts_with-split w [] h = refl
starts_with-split [] (a ∷ p) h = cc
starts_with-split (b ∷ w) (a ∷ p) h = ground (arith, starts_with-split w p)

starts_with-insensitive :
    (w p : Bytes) → starts_with w p ≡ true → starts_with_insensitive w p ≡ true
unfolding starts_with_insensitive
starts_with-insensitive w [] h = refl
starts_with-insensitive [] (a ∷ p) h = h
starts_with-insensitive (b ∷ w) (a ∷ p) h = ground (arith, starts_with-insensitive w p)

starts-insensitive :
    (ignore_case : Bool) (w p : Bytes)
    → starts ignore_case w p ≡ true
    → starts_with_insensitive w p ≡ true
starts-insensitive true w p h = h
starts-insensitive false w p h = starts_with-insensitive w p h

&&-true : (b c : Bool) → (b && c) ≡ true → (b ≡ true) × (c ≡ true)
&&-true b c h = ground arith

cmp-start : (w n : Bytes) → starts_with_insensitive w n ≡ true → is_negative (cmp n w) ≡ false
unfolding starts_with_insensitive cmp
cmp-start [] [] h = refl
cmp-start (d ∷ w) [] h = refl
cmp-start [] (c ∷ n) h = cc
cmp-start (d ∷ w) (c ∷ n) h =
    let both = &&-true (safe_tolower d == safe_tolower c) (starts_with_insensitive w n) h in
    ap is_negative (
      if-eq_true (safe_tolower c == safe_tolower d) (cmp n w) _ (
        (==_iff (safe_tolower c) (safe_tolower d)).1
          (sym ((==_iff (safe_tolower d) (safe_tolower c)).0 both.0))))
    ∙ cmp-start w n both.1

ltrim-prefix :
    (chars : List ℕ) (p w : Bytes)
    → All (λ c. contains chars c ≡ true) p
    → ltrim_all_of (p ++ w) chars ≡ ltrim_all_of w chars
unfolding ltrim_all_of
ltrim-prefix chars [] w h = refl
ltrim-prefix chars (c ∷ p) w h =
    if-eq_true (contains chars c) _ (c ∷ (p ++ w)) h.0 ∙ ltrim-prefix chars p w h.1

ltrim-name :
    (chars : List ℕ) (w n : Bytes)
    → Named chars n
    → starts_with_insensitive w n ≡ true
    → ltrim_all_of w chars ≡ w
unfolding ltrim_all_of starts_with_insensitive
ltrim-name chars w [] named h = absurd named
ltrim-name chars [] (c ∷ n) named h = cc
ltrim-name chars (d ∷ w) (c ∷ n) named h =
    if-eq_false (contains chars d) _ (d ∷ w)
      (named d ((==_iff (safe_tolower d) (safe_tolower c)).0 (&&-true _ _ h).0))

if-All : (P : ℕ → Type 0) (b : Bool) (x y : Bytes) → All P x → All P y → All P (if b then x else y)
if-All P true x y h k = h
if-All P false x y h k = k

pub ltrim-All :
    (P : ℕ → Type 0) (chars : List ℕ) (w : Bytes) → All P w → All P (ltrim_all_of w chars)
unfolding ltrim_all_of
ltrim-All P chars [] h = h
ltrim-All P chars (c ∷ w) h =
    if-All P (contains chars c) (ltrim_all_of w chars) (c ∷ w) (ltrim-All P chars w h.1) h

match_prefixes-order :
    (chars : List ℕ) (prefixes : List Bytes) (n str : Bytes) (ignore_case : Bool)
    → All (All (λ c. contains chars c ≡ true)) prefixes
    → Named chars n
    → (match_prefixes prefixes n str ignore_case ≡ 0)
      ⊎ (is_negative (cmp n (ltrim_all_of str chars)) ≡ false)
unfolding match_prefixes
match_prefixes-order chars [] n str ignore_case h named = inl refl
match_prefixes-order chars (p ∷ prefixes) n str ignore_case h named =
    elim (Bool-cases (starts_with str p && starts ignore_case (drop (length p) str) n)) [
      | inr no_match ↦
          rw (no_match) (match_prefixes-order chars prefixes n str ignore_case h.1 named)
      | inl matches ↦ inr (
          matched (&&-true _ _ matches).0
            (starts-insensitive ignore_case (drop (length p) str) n (&&-true _ _ matches).1))
    ]
  where
    matched :
        starts_with str p ≡ true
        → starts_with_insensitive (drop (length p) str) n ≡ true
        → is_negative (cmp n (ltrim_all_of str chars)) ≡ false
    matched prefix begins =
        ap (λ s. is_negative (cmp n (ltrim_all_of s chars))) (sym (starts_with-split str p prefix))
        ∙ ap (λ s. is_negative (cmp n s))
            (ltrim-prefix chars p (drop (length p) str) h.0
              ∙ ltrim-name chars (drop (length p) str) n named begins)
        ∙ cmp-start (drop (length p) str) n begins

-- The order of the names never puts an option that matches before the argument's name.
pub match_opt-order :
    (chars : List ℕ) (i : Info) (str : Bytes) (ignore_case : Bool)
    → WellNamed chars i
    → (match_opt i str ignore_case ≡ 0) ⊎ (opt_name_less i (ltrim_all_of str chars) ≡ false)
unfolding match_opt opt_name_less
match_opt-order chars i str ignore_case h =
    rw (str_cmp_opt_name-cmp (name i) (ltrim_all_of str chars))
      (match_prefixes-order chars i.prefixes (name i) str ignore_case h.0 h.1)
