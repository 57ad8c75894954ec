-- ===== src/Win/Environment/Fixed.antt =====
-- catter-hook/win/payload/main.cc: theorems about the environment block of a new process.
use mathlib.Core.Bool.{false≢true}
use catter.Prelude.{
  ℕ, ◌<◌, ◌⊎◌, length, take, get_or, bytes_eq→eq, ◌≡◌, refl, ap, ◌∙◌, sym, true, false, some, List,
  [], ◌∷◌, ◌++◌, ◌==◌, ◌||◌, if◌then◌else◌, Bytes, append_assoc, append-nil, arith, if-eq_true,
  if-eq_false, Bool-cases, inl, inr, All, All-append, codes, is_empty,
}
use catter.Win.Environment.{
  env_var_rpc_id, is_key_match, walk, cons_entry, append_entries, found_key, fixed_block,
  fix_env_block_helper, rpc_id_entry_of, fix_entries,
}

-- A string of the block: not empty, and without a 0.
abbrev pub IsEntry : Bytes → Type 0
IsEntry s = (is_empty s ≡ false) × All (λ c. (c == 0) ≡ false) s

walk-string :
    (cur s rest : Bytes)
    → All (λ c. (c == 0) ≡ false) s
    → walk cur (s ++ rest) ≡ walk (cur ++ s) rest
unfolding walk
walk-string cur [] rest h = ap (λ l. walk l rest) (sym (append-nil cur))
walk-string cur (c ∷ s) rest h =
    if-eq_false (c == 0) _ _ h.0
    ∙ walk-string (cur ++ c ∷ []) s rest h.1
    ∙ ap (λ l. walk l rest) (append_assoc cur (c ∷ []) s)

walk-zero : (s rest : Bytes) → is_empty s ≡ false → walk s (0 ∷ rest) ≡ cons_entry s (walk [] rest)
unfolding walk
walk-zero s rest full = if-eq_false (is_empty s) _ _ full

-- A block is read back as its entries.
pub walk-append_entries :
    (entries : List Bytes) (rest : Bytes)
    → All IsEntry entries
    → walk [] (append_entries entries ++ 0 ∷ rest) ≡ some entries
unfolding append_entries
walk-append_entries [] rest h = unfold walk in refl
walk-append_entries (e ∷ entries) rest h =
    ap (walk []) (append_assoc e (0 ∷ append_entries entries) (0 ∷ rest))
    ∙ walk-string [] e (0 ∷ (append_entries entries ++ 0 ∷ rest)) h.0.1
    ∙ walk-zero e (append_entries entries ++ 0 ∷ rest) h.0.0
    ∙ ap (cons_entry e) (walk-append_entries entries rest h.1)

append_entries-append :
    (xs ys : List Bytes) → append_entries (xs ++ ys) ≡ append_entries xs ++ append_entries ys
unfolding append_entries
append_entries-append [] ys = refl
append_entries-append (x ∷ xs) ys =
    ap (λ l. x ++ 0 ∷ l) (append_entries-append xs ys)
    ∙ sym (append_assoc x (0 ∷ append_entries xs) (append_entries ys))

-- The entries of the new block.
unfoldable pub with_rpc_id : Bytes → List Bytes → List Bytes
with_rpc_id rpc_id entries =
    if found_key entries then entries else entries ++ rpc_id_entry_of rpc_id ∷ []

is_key_match-own : (rpc_id : Bytes) → is_key_match (rpc_id_entry_of rpc_id) env_var_rpc_id ≡ true
unfolding is_key_match
is_key_match-own rpc_id = ground arith

-- An entry that sets the variable, and entries of which one does.
abbrev pub Sets : Bytes → Type 0
Sets e = (value : Bytes) × (e ≡ codes "CATTER_RPC_ID=" ++ value)

abbrev pub SomeSets : List Bytes → Type 0
SomeSets entries =
    (before : List Bytes) × (after : List Bytes) × (value : Bytes) × (entries
      ≡ before ++ (codes "CATTER_RPC_ID=" ++ value) ∷ after)

split-key :
    (key e : Bytes) (c : ℕ)
    → length key < length e
    → take (length key) e ≡ key
    → get_or e (length key) 0 ≡ c
    → (value : Bytes) × (e ≡ key ++ c ∷ value)
split-key [] [] c lt pre at = absurd (omega arith)
split-key [] (d ∷ e) c lt pre at = (e, ap (λ x. x ∷ e) at)
split-key (k ∷ key) [] c lt pre at = absurd (omega arith)
split-key (k ∷ key) (d ∷ e) c lt pre at =
    let (value, same) = split-key key e c (omega arith) (cc) at in (value, cc)

is_key_match-Sets : (e : Bytes) → is_key_match e env_var_rpc_id ≡ true → Sets e
unfolding is_key_match
is_key_match-Sets e h =
    split-key env_var_rpc_id e (b'=') (ground arith)
      (bytes_eq→eq (take (length env_var_rpc_id) e) env_var_rpc_id (ground arith)) (ground arith)

not_match : (e : Bytes) → is_key_match e env_var_rpc_id ≡ false → ¬ Sets e
not_match e h (value, same) =
    false≢true (sym h ∙ ap (λ x. is_key_match x env_var_rpc_id) same ∙ is_key_match-own value)

found_key-SomeSets : (entries : List Bytes) → found_key entries ≡ true → SomeSets entries
unfolding found_key
found_key-SomeSets [] h = absurd (false≢true h)
found_key-SomeSets (e ∷ entries) h = elim (Bool-cases (is_key_match e env_var_rpc_id)) [
  | inl own ↦
      let (value, same) = is_key_match-Sets e own in
      ([], entries, value, ap (λ x. x ∷ entries) same)
  | inr other ↦
      let (before, after, value, same) =
        found_key-SomeSets entries (sym (ap (λ b. b || found_key entries) other) ∙ h) in
      (e ∷ before, after, value, ap (λ l. e ∷ l) same)
]

found_key-NoneSets :
    (entries : List Bytes) → found_key entries ≡ false → All (λ e. ¬ Sets e) entries
unfolding found_key
found_key-NoneSets [] h = tt
found_key-NoneSets (e ∷ entries) h =
    (not_match e (ground arith), found_key-NoneSets entries (ground arith))

key_no_zero : All (λ c. (c == 0) ≡ false) (codes "CATTER_RPC_ID=")
key_no_zero = (
  refl,
  (
    refl,
    (
      refl,
      (refl, (refl, (refl, (refl, (refl, (refl, (refl, (refl, (refl, (refl, (refl, tt))))))))))),
    ),
  ),
)

rpc_id-IsEntry :
    (rpc_id : Bytes) → All (λ c. (c == 0) ≡ false) rpc_id → IsEntry (rpc_id_entry_of rpc_id)
rpc_id-IsEntry rpc_id h =
    (refl, All-append (λ c. (c == 0) ≡ false) (codes "CATTER_RPC_ID=") rpc_id key_no_zero h)

walk-fixed_block :
    (entries : List Bytes) (rpc_id : Bytes)
    → All IsEntry entries
    → All (λ c. (c == 0) ≡ false) rpc_id
    → walk [] (fixed_block entries (rpc_id_entry_of rpc_id)) ≡ some (with_rpc_id rpc_id entries)
unfolding fixed_block with_rpc_id
walk-fixed_block entries rpc_id h no_zero = elim (Bool-cases (found_key entries)) [
  | inl found ↦
      ap (λ l. walk [] (append_entries entries ++ (l ++ 0 ∷ [])))
        (if-eq_true (found_key entries) _ _ found)
      ∙ walk-append_entries entries [] h
      ∙ ap some (sym (if-eq_true (found_key entries) _ _ found))
  | inr absent ↦
      ap (λ l. walk [] (append_entries entries ++ (l ++ 0 ∷ [])))
        (if-eq_false (found_key entries) _ _ absent)
      ∙ ap (walk []) (
          sym (append_assoc (append_entries entries) (own ++ 0 ∷ []) (0 ∷ []))
          ∙ ap (λ l. l ++ 0 ∷ [])
              (sym (
                append_entries-append entries (own ∷ [])
                ∙ ap (λ l. append_entries entries ++ l) (unfold append_entries in refl))))
      ∙ walk-append_entries (entries ++ own ∷ []) []
          (All-append IsEntry entries (own ∷ []) h (rpc_id-IsEntry rpc_id no_zero, tt))
      ∙ ap some (sym (if-eq_false (found_key entries) _ _ absent))
]
  where
    own : Bytes
    own = rpc_id_entry_of rpc_id

-- A block of strings is fixed to a block that reads back as the same strings in the same order,
-- if one of them is `CATTER_RPC_ID=` with a value, and else as these and, behind them,
-- `CATTER_RPC_ID=` with the id of the command. The strings are not empty, and neither they nor the id
-- have a 0.
pub fix_env_block_helper-walk :
    (entries : List Bytes) (rpc_id rest : Bytes)
    → All IsEntry entries
    → All (λ c. (c == 0) ≡ false) rpc_id
    → (block : Bytes) × (fix_env_block_helper
          (append_entries entries ++ 0 ∷ rest)
          (rpc_id_entry_of rpc_id)
        ≡ some block)
      × ((SomeSets entries × (walk [] block ≡ some entries))
          ⊎ (All (λ e. ¬ Sets e) entries
              × (walk [] block ≡ some (entries ++ (codes "CATTER_RPC_ID=" ++ rpc_id) ∷ []))))
unfolding fix_env_block_helper fixed_block with_rpc_id
fix_env_block_helper-walk entries rpc_id rest h no_zero = (
  fixed_block entries (rpc_id_entry_of rpc_id),
  ap (fix_entries (rpc_id_entry_of rpc_id)) (walk-append_entries entries rest h),
  elim (Bool-cases (found_key entries)) [
    | inl found ↦ inl (
      found_key-SomeSets entries found,
      walk-fixed_block entries rpc_id h no_zero
          ∙ ap some (if-eq_true (found_key entries) _ _ found),
    )
    | inr absent ↦ inr (
      found_key-NoneSets entries absent,
      walk-fixed_block entries rpc_id h no_zero
          ∙ ap some (if-eq_false (found_key entries) _ _ absent),
    )
  ],
)
