-- ===== src/Hook/Environment.antt =====
-- payload/environment.cc, and array::length and array::equal_n: look-ups in an array of C strings.
-- A read at the end of a C string gives its terminating 0.
pub mod Lookup
use catter.Prelude.{
  ℕ, zero, suc, ◌+◌, Bool, true, ◌&&◌, Option, none, some, List, [], ◌∷◌, ◌==◌, if◌then◌else◌,
  Bytes, length, get_or, drop, not,
}

-- `s[i]`
abbrev pub char_of : Bytes → ℕ → ℕ
char_of s i = get_or s i 0

-- `s + 1`
abbrev pub next_of : Bytes → Bytes
next_of [] = []
next_of (c ∷ s) = s

unfoldable pub equal_n : Bytes → Bytes → ℕ → Bool
equal_n lhs rhs zero = true
equal_n lhs rhs (suc n) = (char_of lhs 0 == char_of rhs 0) && equal_n (next_of lhs) (next_of rhs) n

-- The two tests of the loops: the key is a prefix, and '=' follows it.
unfoldable pub is_entry : Bytes → Bytes → Bool
is_entry key current = equal_n key current (length key) && (char_of current (length key) == b'=')

unfoldable pub get_env_entry : List Bytes → Bytes → Option Bytes
get_env_entry [] key = none
get_env_entry (current ∷ envp) key =
    if is_entry key current then some current else get_env_entry envp key

unfoldable pub get_env_value : List Bytes → Bytes → Option Bytes
get_env_value [] key = none
get_env_value (current ∷ envp) key =
    if is_entry key current then some (drop (length key + 1) current) else get_env_value envp key
