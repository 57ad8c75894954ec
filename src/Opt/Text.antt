-- ===== src/Opt/Text.antt =====
-- common/option/opt_table.cc: the functions on strings.
use catter.Prelude.{
  ℕ, ◌+◌, ◌-◌, Bool, true, false, List, [], ◌∷◌, ◌&&◌, ◌||◌, ltb, leb, ◌==◌, if◌then◌else◌, Bytes,
  bytes_eq, length, take, drop,
}

-- std::tolower in the C locale
abbrev pub safe_tolower : ℕ → ℕ
safe_tolower c = if leb (b'A') c && leb c (b'Z') then c + 32 else c

abbrev pub contains : List ℕ → ℕ → Bool
contains [] c = false
contains (d ∷ ds) c = (c == d) || contains ds c

unfoldable pub ltrim_all_of : Bytes → List ℕ → Bytes
ltrim_all_of [] prefixes = []
ltrim_all_of (c ∷ str) prefixes =
    let rest = ltrim_all_of str prefixes in if contains prefixes c then rest else c ∷ str

unfoldable pub starts_with_insensitive : Bytes → Bytes → Bool
starts_with_insensitive text [] = true
starts_with_insensitive [] (p ∷ prefix) = false
starts_with_insensitive (t ∷ text) (p ∷ prefix) =
    (safe_tolower t == safe_tolower p) && starts_with_insensitive text prefix

-- The sign of an int that a comparison returns.
pub data Sign : Type 0 where
  negative zero_sign positive : Sign

-- A char is signed: a byte from 128 on is negative.
abbrev pub char_lt : ℕ → ℕ → Bool
char_lt a b =
    ltb ((a + 128) - (if leb 128 a then 256 else 0)) ((b + 128) - (if leb 128 b then 256 else 0))

abbrev compare_sizes : ℕ → ℕ → Sign
compare_sizes a b = if a == b then zero_sign else if ltb a b then negative else positive

-- The loop over the common length, and the sizes.
unfoldable pub compare_insensitive : Bytes → Bytes → Sign
compare_insensitive [] [] = zero_sign
compare_insensitive [] (d ∷ str2) = negative
compare_insensitive (c ∷ str1) [] = positive
compare_insensitive (c ∷ str1) (d ∷ str2) =
    let rest = compare_insensitive str1 str2 in
    if safe_tolower c == safe_tolower d
    then rest
    else if char_lt (safe_tolower c) (safe_tolower d)
    then negative
    else positive

-- string_view::compare, which takes the bytes as unsigned
unfoldable pub compare : Bytes → Bytes → Sign
compare [] [] = zero_sign
compare [] (d ∷ b) = negative
compare (c ∷ a) [] = positive
compare (c ∷ a) (d ∷ b) =
    let rest = compare a b in if c == d then rest else if ltb c d then negative else positive

abbrev pub min_size : Bytes → Bytes → ℕ
min_size a b = if ltb (length b) (length a) then length b else length a

-- `if(int res = ...) return res;`, else what follows.
abbrev pub unless_zero : Sign → Sign → Sign
unless_zero zero_sign rest = rest
unless_zero s rest = s

unfoldable pub str_cmp_opt_name : Bytes → Bytes → Bool → Sign
str_cmp_opt_name a b fallback_case_sensitive =
    let min_sz = min_size a b in
    unless_zero (compare_insensitive (take min_sz a) (take min_sz b)) (
      if length a == length b
      then (if fallback_case_sensitive then compare a b else zero_sign)
      else if length a == min_sz
      then positive
      else negative)

-- `a < b` by the sign
abbrev pub is_negative : Sign → Bool
is_negative negative = true
is_negative _ = false

-- string_view::ends_with
unfoldable pub ends_with : Bytes → Bytes → Bool
ends_with str suffix =
    leb (length suffix) (length str) && bytes_eq (drop (length str - length suffix) str) suffix
