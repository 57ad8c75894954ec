-- ===== src/Decimal.antt =====
-- std::format("{}", id), std::to_string and std::stoi, on the 32-bit patterns of int.
use catter.Prelude.{
  ℕ, zero, suc, ◌+◌, ◌-◌, ◌*◌, ◌/◌, ◌%◌, ◌^◌, ◌≤◌, ◌<◌, ◌≡◌, ap, ◌∙◌, Bool, true, false, length,
  length-append, Option, none, some, [], ◌∷◌, ◌++◌, Bytes, All, All-append, ltb, leb, ◌==◌, ◌&&◌,
  ◌||◌, Bool-cases, ltb→lt, inl, inr, if◌then◌else◌, arith,
}

-- The digits of a number below `10 ^ fuel`.
unfoldable pub digits : ℕ → ℕ → Bytes
digits zero n = []
digits (suc fuel) n =
    let front = digits fuel (n / 10) in
    if ltb n 10 then (b'0' + n) ∷ [] else front ++ (b'0' + n % 10) ∷ []

-- An int has at most ten digits.
unfoldable pub to_string : ℕ → Bytes
to_string n = if ltb n (2 ^ 31) then digits 10 n else b'-' ∷ digits 10 (2 ^ 32 - n)

abbrev pub is_digit : ℕ → Bool
is_digit c = leb (b'0') c && leb c (b'9')

abbrev pub is_space : ℕ → Bool
is_space c = (c == 32) || (leb 9 c && leb c 13)

unfoldable pub skip_spaces : Bytes → Bytes
skip_spaces [] = []
skip_spaces (c ∷ s) = let rest = skip_spaces s in if is_space c then rest else c ∷ s

unfoldable pub read_number : ℕ → Bytes → ℕ
read_number n [] = n
read_number n (c ∷ s) =
    let rest = read_number (n * 10 + (c - b'0')) s in if is_digit c then rest else n

-- The value after the sign; `none` when there is no digit.
abbrev pub magnitude : Bytes → Option ℕ
magnitude [] = none
magnitude (c ∷ s) = if is_digit c then some (read_number 0 (c ∷ s)) else none

-- The range of int, as a bit pattern.
abbrev pub in_range : Bool → Option ℕ → Option ℕ
in_range negative none = none
in_range true (some n) = if leb n (2 ^ 31) then some ((2 ^ 32 - n) % 2 ^ 32) else none
in_range false (some n) = if ltb n (2 ^ 31) then some n else none

abbrev pub signed : Bytes → Option ℕ
signed [] = none
signed (c ∷ s) =
    if c == b'-'
    then in_range true (magnitude s)
    else if c == b'+'
    then in_range false (magnitude s)
    else in_range false (magnitude (c ∷ s))

-- `none` is std::invalid_argument or std::out_of_range.
unfoldable pub stoi : Bytes → Option ℕ
stoi str = signed (skip_spaces str)

abbrev IsDigit : ℕ → Type 0
IsDigit c = (48 ≤ c) × (c < 58)

digits-IsDigit : (fuel n : ℕ) → All IsDigit (digits fuel n)
unfolding digits
digits-IsDigit zero n = tt
digits-IsDigit (suc fuel) n = elim (Bool-cases (ltb n 10)) [
  | inl h ↦ rw h ((omega arith, omega (arith, ltb→lt n 10 h)), tt)
  | inr h ↦ rw h (
      All-append IsDigit (digits fuel (n / 10)) ((b'0' + n % 10) ∷ [])
        (digits-IsDigit fuel (n / 10)) ((omega arith, omega arith), tt))
]

read_number-append :
    (n : ℕ) (s : Bytes) (d : ℕ)
    → All IsDigit s
    → d < 10
    → read_number n (s ++ (b'0' + d) ∷ []) ≡ read_number n s * 10 + d
unfolding read_number
read_number-append n [] d t h = ground arith
read_number-append n (c ∷ s) d (t, ts) h =
    let c_digit : is_digit c ≡ true = ground arith in
    rw (read_number, c_digit) (read_number-append (n * 10 + (c - b'0')) s d ts h)

read_number-digits : (fuel n : ℕ) → n < 10 ^ fuel → read_number 0 (digits fuel n) ≡ n
unfolding digits read_number
read_number-digits zero n h = omega arith
read_number-digits (suc fuel) n h = elim (Bool-cases (ltb n 10)) [
  | inl k ↦ rw k (ground (arith, ltb→lt n 10 k))
  | inr k ↦ rw k (
      read_number-append 0 (digits fuel (n / 10)) (n % 10) (digits-IsDigit fuel (n / 10))
        (omega arith)
      ∙ omega (arith, read_number-digits fuel (n / 10) (omega arith)))
]

length-digits : (fuel n : ℕ) → 0 < length (digits (suc fuel) n)
unfolding digits
length-digits fuel n =
    let more = length-append (digits fuel (n / 10)) ((b'0' + n % 10) ∷ []) in ground (arith, more)

magnitude-IsDigit :
    (s : Bytes) → All IsDigit s → 0 < length s → magnitude s ≡ some (read_number 0 s)
magnitude-IsDigit [] t h = absurd (omega arith)
magnitude-IsDigit (c ∷ s) (t, ts) h = let c_digit : is_digit c ≡ true = ground arith in rw c_digit

stoi-IsDigit :
    (s : Bytes) → All IsDigit s → 0 < length s → stoi s ≡ in_range false (some (read_number 0 s))
unfolding stoi skip_spaces
stoi-IsDigit [] t h = absurd (omega arith)
stoi-IsDigit (c ∷ s) (t, ts) h =
    let no_space : is_space c ≡ false = ground arith in
    let no_minus : (c == b'-') ≡ false = ground arith in
    let no_plus : (c == b'+') ≡ false = ground arith in
    rw (no_space, no_minus, no_plus) (ap (in_range false) (magnitude-IsDigit (c ∷ s) (t, ts) h))

stoi-minus :
    (s : Bytes)
    → All IsDigit s
    → 0 < length s
    → stoi (b'-' ∷ s) ≡ in_range true (some (read_number 0 s))
unfolding stoi skip_spaces
stoi-minus s t h = ap (in_range true) (magnitude-IsDigit s t h)

in_range-positive : (n : ℕ) → ltb n (2 ^ 31) ≡ true → in_range false (some n) ≡ some n
in_range-positive n h = rw h

in_range-negative :
    (n : ℕ) → n < 2 ^ 32 → ltb n (2 ^ 31) ≡ false → in_range true (some (2 ^ 32 - n)) ≡ some n
in_range-negative n h k = ground arith

-- An id survives the way through a command line: std::stoi reads back what std::to_string and
-- std::format have written, for every 32-bit pattern.
pub stoi-to_string : (n : ℕ) → n < 2 ^ 32 → stoi (to_string n) ≡ some n
unfolding to_string
stoi-to_string n h = elim (Bool-cases (ltb n (2 ^ 31))) [
  | inl k ↦ rw k (
      stoi-IsDigit (digits 10 n) (digits-IsDigit 10 n) (length-digits 9 n)
      ∙ ap (λ m. in_range false (some m))
          (read_number-digits 10 n (omega (arith, ltb→lt n (2 ^ 31) k)))
      ∙ in_range-positive n k)
  | inr k ↦ rw k (
      stoi-minus (digits 10 (2 ^ 32 - n)) (digits-IsDigit 10 (2 ^ 32 - n))
        (length-digits 9 (2 ^ 32 - n))
      ∙ ap (λ m. in_range true (some m)) (read_number-digits 10 (2 ^ 32 - n) (negative n h k))
      ∙ in_range-negative n h k)
]
  where
    negative : (n : ℕ) → n < 2 ^ 32 → ltb n (2 ^ 31) ≡ false → 2 ^ 32 - n < 10 ^ 10
    negative n h k = ground arith
