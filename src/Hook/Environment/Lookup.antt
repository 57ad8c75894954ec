-- ===== src/Hook/Environment/Lookup.antt =====
-- payload/environment.cc: theorems about the look-ups.
use mathlib.Core.Path.{subst}
use mathlib.Core.Bool.{false≢true}
use catter.Prelude.{
  suc, ◌+◌, ◌<◌, ◌≡◌, ◌≢◌, ◌∙◌, refl, sym, ap, true, false, Option, none, some, List, [], ◌∷◌, ◌++◌,
  Bytes, length, drop, All, arith, Bool-cases, inl, inr,
}
use catter.Hook.Environment.{equal_n, is_entry, get_env_entry, get_env_value}

-- A C string that holds a name has no 0 in it.
abbrev pub IsText : Bytes → Type 0
IsText s = All (λ c. 0 < c) s

abbrev pub entry : Bytes → Bytes → Bytes
entry key value = key ++ b'=' ∷ value

pub is_entry-entry : (key value : Bytes) → is_entry key (entry key value) ≡ true
unfolding is_entry equal_n
is_entry-entry [] value = refl
is_entry-entry (c ∷ key) value = ground (arith, is_entry-entry key value)

pub is_entry→entry :
    (key current : Bytes)
    → IsText key
    → is_entry key current ≡ true
    → (value : Bytes) × (current ≡ entry key value)
unfolding is_entry equal_n
is_entry→entry [] [] t h = absurd (ground arith)
is_entry→entry [] (d ∷ current) t h = (current, ground arith)
is_entry→entry (c ∷ key) [] t h = absurd (ground arith)
is_entry→entry (c ∷ key) (d ∷ current) t h =
    let (value, e) = is_entry→entry key current t.1 (ground arith) in (value, ground arith)

drop_entry : (key value : Bytes) → drop (length key + 1) (entry key value) ≡ value
drop_entry [] value = refl
drop_entry (c ∷ key) value =
    let e : suc (length key) + 1 ≡ suc (length key + 1) = omega arith in rw e (drop_entry key value)

-- No entry of `envp` is one of `key`.
abbrev pub NoEntry : Bytes → List Bytes → Type 0
NoEntry key envp = All (λ current. is_entry key current ≡ false) envp

-- The value of a key is that of its first entry.
pub get_env_value-first :
    (envp rest : List Bytes) (key value : Bytes)
    → NoEntry key envp
    → get_env_value (envp ++ entry key value ∷ rest) key ≡ some value
unfolding get_env_value
get_env_value-first [] rest key value h =
    rw (is_entry-entry key value) (ap some (drop_entry key value))
get_env_value-first (current ∷ envp) rest key value h =
    rw h.0 (get_env_value-first envp rest key value h.1)

pub get_env_entry-first :
    (envp rest : List Bytes) (key value : Bytes)
    → NoEntry key envp
    → get_env_entry (envp ++ entry key value ∷ rest) key ≡ some (entry key value)
unfolding get_env_entry
get_env_entry-first [] rest key value h = rw (is_entry-entry key value)
get_env_entry-first (current ∷ envp) rest key value h =
    rw h.0 (get_env_entry-first envp rest key value h.1)

-- No entry of `envp` is the key, '=' and a value.
abbrev pub NotSet : Bytes → List Bytes → Type 0
NotSet key envp = All (λ current. (value : Bytes) → current ≢ entry key value) envp

NoEntry-NotSet :
    (key current : Bytes)
    → is_entry key current ≡ false
    → (value : Bytes) → current ≢ entry key value
NoEntry-NotSet key current h value e =
    false≢true (sym h ∙ ap (is_entry key) e ∙ is_entry-entry key value)

-- The two look-ups agree: both fail, and then no entry is one of the key, or the entry that is
-- found consists of the key, '=' and the value that is found.
pub data Found (key : Bytes) (envp : List Bytes) : Option Bytes → Option Bytes → Type 0 where
  missing : NotSet key envp → Found key envp none none
  found :
      (before after : List Bytes) (value : Bytes)
      → envp ≡ before ++ entry key value ∷ after
      → NotSet key before
      → Found key envp (some (entry key value)) (some value)

Found-cons :
    (key current : Bytes) (envp : List Bytes) {e v : Option Bytes}
    → is_entry key current ≡ false
    → Found key envp e v
    → Found key (current ∷ envp) e v
Found-cons key current envp h (missing none_is) = missing (NoEntry-NotSet key current h, none_is)
Found-cons key current envp h (found before after value e none_is) =
    found (current ∷ before) after value (ap (λ l. current ∷ l) e)
      (NoEntry-NotSet key current h, none_is)

-- For a key without a 0 the two look-ups agree: both fail, and then no entry is one of the key, or
-- one gives the first entry of the key and the other its value.
pub get_env-Found :
    (envp : List Bytes) (key : Bytes)
    → IsText key
    → Found key envp (get_env_entry envp key) (get_env_value envp key)
unfolding get_env_entry get_env_value
get_env-Found [] key t = missing tt
get_env-Found (current ∷ envp) key t = elim (Bool-cases (is_entry key current)) [
  | inl h ↦
      let (value, e) = is_entry→entry key current t h in
      rw h (
        subst (λ c. Found key (c ∷ envp) (some c) (some (drop (length key + 1) c))) (sym e)
          (subst (λ v. Found key (entry key value ∷ envp) (some (entry key value)) (some v))
            (sym (drop_entry key value)) (found [] envp value refl tt)))
  | inr h ↦ rw h (Found-cons key current envp h (get_env-Found envp key t))
]
