-- ===== src/Win/Quote/Arguments.antt =====
-- catter-hook/win/impl.cc: theorems about the arguments that a program reads from cmdline_of.
use catter.Prelude.{
  ℕ, suc, ◌≡◌, refl, ap, ◌∙◌, sym, Bool, true, false, not, List, [], ◌∷◌, ◌++◌, ◌==◌, ◌||◌, ◌&&◌,
  Bytes, append_assoc, append-nil, arith, if-eq_true, if-eq_false, Bool-cases, inl, inr, ==_iff,
}
use catter.Win.Quote.{backslashes, is_special, has_special, quoted, quote_win32_arg, append_args}
use catter.Win.Quote.Split.{
  split, arguments, is_blank, split-backslash, split-even, split-other, split-quoted, one_more,
  regroup,
}

-- What can follow an argument: the end, or the blank before the next.
abbrev pub Ends : Bytes → Type 0
Ends [] = Unit {0}
Ends (c ∷ s) = c ≡ b' '

abbrev pub after : Bytes → List Bytes
after [] = []
after (c ∷ s) = arguments s

pub split-end :
    (n : ℕ) (cur s : Bytes) → Ends s → split false n cur true s ≡ (cur ++ backslashes n) ∷ after s
unfolding split
split-end n cur [] ends = refl
split-end n cur (c ∷ s) ends = rw (ends) refl

arguments-end : (s : Bytes) → Ends s → arguments s ≡ after s
unfolding split
arguments-end [] ends = refl
arguments-end (c ∷ s) ends = rw (ends) refl

-- Characters that are not special.
abbrev Plain : ℕ → Type 0
Plain c = ((c == b'"') ≡ false) × (is_blank c ≡ false)

pub plain : (c : ℕ) → is_special c ≡ false → Plain c
plain c h = ground arith

pub no_blank : (c : ℕ) → is_special c ≡ false → (is_blank c && not false) ≡ false
no_blank c h = ground (arith, plain c h)

pub ||-false : (b d : Bool) → (b || d) ≡ false → (b ≡ false) × (d ≡ false)
||-false b d h = ground arith

pub split-plain :
    (n : ℕ) (cur arg s : Bytes)
    → has_special arg ≡ false
    → Ends s
    → split false n cur true (arg ++ s) ≡ (cur ++ backslashes n ++ arg) ∷ after s
unfolding has_special
split-plain n cur [] s h ends =
    split-end n cur s ends ∙ ap (λ l. l ∷ after s) (sym (append-nil (cur ++ backslashes n)))
split-plain n cur (c ∷ arg) s h ends = elim (Bool-cases (c == b'\\')) [
  | inl backslash ↦
      let is_backslash = (==_iff c b'\\').0 backslash in
      ap (λ d. split false n cur true (d ∷ (arg ++ s))) is_backslash
      ∙ split-backslash false n cur (arg ++ s) true
      ∙ split-plain (suc n) cur arg s (||-false (is_special c) (has_special arg) h).1 ends
      ∙ ap (λ l. l ∷ after s)
          (one_more cur n arg ∙ ap (λ d. cur ++ backslashes n ++ d ∷ arg) (sym is_backslash))
  | inr other ↦
      let (no_special, rest) = ||-false (is_special c) (has_special arg) h in
      split-other false n cur (arg ++ s) true c other (plain c no_special).0 (no_blank c no_special)
      ∙ split-plain 0 (cur ++ backslashes n ++ c ∷ []) arg s rest ends
      ∙ ap (λ l. l ∷ after s) (regroup cur (backslashes n) c arg)
]

pub split-start :
    (c : ℕ) (s : Bytes) → is_special c ≡ false → arguments (c ∷ s) ≡ split false 0 [] true (c ∷ s)
unfolding split
split-start c s h = ground (arith, plain c h)

abbrev pub without_empty : List Bytes → List Bytes
without_empty [] = []
without_empty ([] ∷ args) = without_empty args
without_empty ((c ∷ arg) ∷ args) = (c ∷ arg) ∷ without_empty args

arguments-quote :
    (c : ℕ) (arg s : Bytes)
    → Ends s
    → arguments (quote_win32_arg (c ∷ arg) ++ s) ≡ (c ∷ arg) ∷ after s
unfolding quote_win32_arg
arguments-quote c arg s ends = elim (Bool-cases (has_special (c ∷ arg))) [
  | inl special ↦
      ap (λ q. arguments (q ++ s)) (if-eq_true (has_special (c ∷ arg)) _ _ special)
      ∙ split-even false 0 [] (quoted 0 (c ∷ arg) ++ s) false refl
      ∙ split-quoted 0 [] (c ∷ arg) s
      ∙ split-end 0 (c ∷ arg) s ends
      ∙ ap (λ l. l ∷ after s) (append-nil (c ∷ arg))
  | inr no_special ↦
      ap (λ q. arguments (q ++ s)) (if-eq_false (has_special (c ∷ arg)) _ _ no_special)
      ∙ split-start c (arg ++ s)
          (unfold has_special in (||-false (is_special c) (has_special arg) no_special).0)
      ∙ split-plain 0 [] (c ∷ arg) s no_special ends
]

quote-empty : quote_win32_arg [] ≡ []
unfolding quote_win32_arg has_special
quote-empty = refl

-- The arguments as cmdline_of writes them behind the executable.
abbrev pub joined : List Bytes → Bytes
joined [] = []
joined (arg ∷ args) = b' ' ∷ quote_win32_arg arg ++ joined args

pub joined-Ends : (args : List Bytes) → Ends (joined args)
joined-Ends [] = tt
joined-Ends (arg ∷ args) = refl

pub append_args-joined :
    (full_cmd : Bytes) (args : List Bytes) → append_args full_cmd args ≡ full_cmd ++ joined args
unfolding append_args
append_args-joined full_cmd [] = sym (append-nil full_cmd)
append_args-joined full_cmd (arg ∷ args) =
    append_args-joined (full_cmd ++ b' ' ∷ quote_win32_arg arg) args
    ∙ append_assoc full_cmd (b' ' ∷ quote_win32_arg arg) (joined args)

pub after-joined : (args : List Bytes) → after (joined args) ≡ without_empty args
after-joined [] = refl
after-joined ([] ∷ args) =
    ap (λ q. arguments (q ++ joined args)) quote-empty
    ∙ arguments-end (joined args) (joined-Ends args)
    ∙ after-joined args
after-joined ((c ∷ arg) ∷ args) =
    arguments-quote c arg (joined args) (joined-Ends args)
    ∙ ap (λ l. (c ∷ arg) ∷ l) (after-joined args)
