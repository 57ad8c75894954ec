-- ===== src/Win/Quote/Split.antt =====
-- catter-hook/win/impl.cc: theorems about the command line and how a program takes it apart.
use catter.Prelude.{
  ℕ, zero, suc, ◌+◌, ◌*◌, ◌/◌, ◌%◌, ◌≡◌, refl, ap, ◌∙◌, sym, Bool, true, false, not, List, [], ◌∷◌,
  ◌++◌, ◌==◌, ◌||◌, ◌&&◌, if◌then◌else◌, Bytes, append_assoc, append-nil, arith, if-eq_true,
  if-eq_false, Bool-cases, inl, inr, ==_iff,
}
use native.Mathlib.Nat.{zero-add}
use catter.Win.Quote.{backslashes, quoted}

abbrev pub is_blank : ℕ → Bool
is_blank c = c == b' ' || c == 9

-- How a program of the Microsoft C runtime splits its arguments, as documented: blanks end an
-- argument outside quotes; 2n backslashes before a quote are n backslashes, and the quote opens or
-- closes; 2n + 1 are n and a quote as it is; other backslashes are themselves. `open` is whether a
-- quote is open, `n` the backslashes just read, `cur` the argument so far, if it is `started`.
unfoldable pub split : Bool → ℕ → Bytes → Bool → Bytes → List Bytes
split quoting n cur started [] = if started then (cur ++ backslashes n) ∷ [] else []
split quoting n cur started (c ∷ s) =
    let counted = split quoting (suc n) cur true s in
    let literal = split quoting 0 (cur ++ backslashes (n / 2) ++ c ∷ []) true s in
    let toggled = split (not quoting) 0 (cur ++ backslashes (n / 2)) true s in
    let next = split false 0 [] false s in
    let more = split quoting 0 (cur ++ backslashes n ++ c ∷ []) true s in
    if c == b'\\'
    then counted
    else if c == b'"'
    then (if n % 2 == 1 then literal else toggled)
    else if is_blank c && not quoting
    then (if started then (cur ++ backslashes n) ∷ next else next)
    else more

abbrev pub arguments : Bytes → List Bytes
arguments s = split false 0 [] false s

-- One step on an ordinary character inside quotes, and on the others.
module _ (quoting : Bool) (n : ℕ) (cur s : Bytes) (started : Bool) where
  pub split-backslash : split quoting n cur started (b'\\' ∷ s) ≡ split quoting (suc n) cur true s
  unfolding split
  split-backslash = refl

  pub split-even :
      n % 2 ≡ 0
      → split quoting n cur started (b'"' ∷ s)
        ≡ split (not quoting) 0 (cur ++ backslashes (n / 2)) true s
  unfolding split
  split-even e = if-eq_false (n % 2 == 1) _ _ (ground arith)

  split-odd :
      n % 2 ≡ 1
      → split quoting n cur started (b'"' ∷ s)
        ≡ split quoting 0 (cur ++ backslashes (n / 2) ++ b'"' ∷ []) true s
  unfolding split
  split-odd e = if-eq_true (n % 2 == 1) _ _ (ground arith)

  pub split-other :
      (c : ℕ)
      → (c == b'\\') ≡ false
      → (c == b'"') ≡ false
      → (is_blank c && not quoting) ≡ false
      → split quoting n cur started (c ∷ s)
        ≡ split quoting 0 (cur ++ backslashes n ++ c ∷ []) true s
  unfolding split
  split-other c no_backslash no_quote no_blank =
      if-eq_false (c == b'\\') _ _ no_backslash
      ∙ if-eq_false (c == b'"') _ _ no_quote
      ∙ if-eq_false (is_blank c && not quoting) _ _ no_blank

split-backslashes :
    (quoting : Bool) (n m : ℕ) (cur s : Bytes)
    → split quoting n cur true (backslashes m ++ s) ≡ split quoting (n + m) cur true s
split-backslashes quoting n zero cur s = ap (λ k. split quoting k cur true s) (omega arith)
split-backslashes quoting n (suc m) cur s =
    split-backslash quoting n cur (backslashes m ++ s) true
    ∙ split-backslashes quoting (suc n) m cur s
    ∙ ap (λ k. split quoting k cur true s) (omega arith)

pub backslashes-cons : (n : ℕ) (s : Bytes) → backslashes n ++ b'\\' ∷ s ≡ backslashes (suc n) ++ s
backslashes-cons zero s = refl
backslashes-cons (suc n) s = ap (λ l. b'\\' ∷ l) (backslashes-cons n s)

pub and_false : (b : Bool) → (b && false) ≡ false
and_false b = ground arith

pub regroup :
    (cur b : Bytes) (c : ℕ) (arg : Bytes) → (cur ++ b ++ c ∷ []) ++ [] ++ arg ≡ cur ++ b ++ c ∷ arg
regroup cur b c arg = simp (append_assoc)

pub one_more :
    (cur : Bytes) (n : ℕ) (arg : Bytes)
    → cur ++ backslashes (suc n) ++ arg ≡ cur ++ backslashes n ++ b'\\' ∷ arg
one_more cur n arg =
    append_assoc cur (backslashes (suc n)) arg
    ∙ ap (λ l. cur ++ l) (sym (backslashes-cons n arg))
    ∙ sym (append_assoc cur (backslashes n) (b'\\' ∷ arg))

half_double : (n : ℕ) → (0 + n * 2) / 2 ≡ n
half_double n = omega arith

half_odd : (n : ℕ) → (0 + (n * 2 + 1)) / 2 ≡ n
half_odd n = omega arith

-- What the loop writes for an argument is read back by a program inside quotes.
pub split-quoted :
    (n : ℕ) (cur arg rest : Bytes)
    → split true 0 cur true (quoted n arg ++ rest)
      ≡ split false 0 (cur ++ backslashes n ++ arg) true rest
unfolding quoted
split-quoted n cur [] rest =
    ap (split true 0 cur true) (append_assoc (backslashes (n * 2)) (b'"' ∷ []) rest)
    ∙ split-backslashes true 0 (n * 2) cur (b'"' ∷ rest)
    ∙ split-even true (0 + n * 2) cur rest true (omega arith)
    ∙ ap (λ l. split false 0 l true rest)
        (ap (λ k. cur ++ backslashes k) (half_double n) ∙ sym (append-nil (cur ++ backslashes n)))
split-quoted n cur (c ∷ arg) rest = elim (Bool-cases (c == b'\\')) [
  | inl backslash ↦
      ap (λ l. split true 0 cur true (l ++ rest)) (if-eq_true (c == b'\\') _ _ backslash)
      ∙ split-quoted (suc n) cur arg rest
      ∙ ap (λ l. split false 0 l true rest)
          (one_more cur n arg
            ∙ ap (λ d. cur ++ backslashes n ++ d ∷ arg) (sym ((==_iff c b'\\').0 backslash)))
  | inr other ↦ elim (Bool-cases (c == b'"')) [
    | inl quote ↦
        let is_quote = (==_iff c b'"').0 quote in
        ap (λ l. split true 0 cur true (l ++ rest))
          (if-eq_false (c == b'\\') _ _ other
            ∙ if-eq_true (c == b'"') _ _ quote
            ∙ ap (λ d. backslashes (n * 2 + 1) ++ d ∷ quoted 0 arg) is_quote)
        ∙ ap (split true 0 cur true)
            (append_assoc (backslashes (n * 2 + 1)) (b'"' ∷ quoted 0 arg) rest)
        ∙ split-backslashes true 0 (n * 2 + 1) cur (b'"' ∷ quoted 0 arg ++ rest)
        ∙ split-odd true (0 + (n * 2 + 1)) cur (quoted 0 arg ++ rest) true (omega arith)
        ∙ ap (λ k. split true 0 (cur ++ backslashes k ++ b'"' ∷ []) true (quoted 0 arg ++ rest))
            (half_odd n)
        ∙ split-quoted 0 (cur ++ backslashes n ++ b'"' ∷ []) arg rest
        ∙ ap (λ l. split false 0 l true rest)
            (regroup cur (backslashes n) b'"' arg
              ∙ ap (λ d. cur ++ backslashes n ++ d ∷ arg) (sym is_quote))
    | inr plain ↦
        ap (λ l. split true 0 cur true (l ++ rest))
          (if-eq_false (c == b'\\') _ _ other ∙ if-eq_false (c == b'"') _ _ plain)
        ∙ ap (split true 0 cur true) (append_assoc (backslashes n) (c ∷ quoted 0 arg) rest)
        ∙ split-backslashes true 0 n cur (c ∷ quoted 0 arg ++ rest)
        ∙ split-other true (0 + n) cur (quoted 0 arg ++ rest) true c other plain
            (and_false (is_blank c))
        ∙ ap (λ k. split true 0 (cur ++ backslashes k ++ c ∷ []) true (quoted 0 arg ++ rest))
            (zero-add n)
        ∙ split-quoted 0 (cur ++ backslashes n ++ c ∷ []) arg rest
        ∙ ap (λ l. split false 0 l true rest) (regroup cur (backslashes n) c arg)
  ]
]
