-- ===== src/Launch/Environment.antt =====
-- catter-hook/linux-mac/impl.cc: theorems about the environment of the child.
use catter.Prelude.{
  ℕ, ◌≡◌, refl, sym, ap, ◌∙◌, ◌++◌, some, List, [], ◌∷◌, false, Bytes, All, starts_with, Bool-cases,
  inl, inr, append_assoc, All-append,
}
use catter.Decimal.{to_string}
use catter.Hook.Config.{
  key_preload, key_catter_command_id, key_catter_proxy_path, catter_proxy_env_key,
}
use catter.Hook.Environment.{is_entry, get_env_value, equal_n}
use catter.Hook.Environment.Lookup.{entry, NoEntry, get_env_value-first}
use catter.Launch.{remove_entries, child_env, assignment}

-- Not a mark of catter-proxy, which would switch the hook off.
abbrev pub IsHooked : Bytes → Type 0
IsHooked e = starts_with e catter_proxy_env_key ≡ false

remove_entries-IsHooked : (env : List Bytes) → All IsHooked (remove_entries env)
unfolding remove_entries
remove_entries-IsHooked [] = tt
remove_entries-IsHooked (e ∷ env) = elim (Bool-cases (starts_with e catter_proxy_env_key)) [
  | inl h ↦ rw h (remove_entries-IsHooked env)
  | inr h ↦ rw h (h, remove_entries-IsHooked env)
]

-- The mark of catter-proxy is gone from the child's environment, whatever the command's was.
pub child_env-IsHooked :
    (lib_path proxy_path : Bytes) (env : List Bytes) (id : ℕ)
    → All IsHooked (child_env lib_path proxy_path env id)
unfolding child_env
child_env-IsHooked lib_path proxy_path env id = remove_entries-IsHooked _

remove_entries-append :
    (env more : List Bytes)
    → remove_entries (env ++ more) ≡ remove_entries env ++ remove_entries more
unfolding remove_entries
remove_entries-append [] more = refl
remove_entries-append (e ∷ env) more = elim (Bool-cases (starts_with e catter_proxy_env_key)) [
  | inl h ↦ rw h (remove_entries-append env more)
  | inr h ↦ rw h (ap (λ l. e ∷ l) (remove_entries-append env more))
]

-- Removing entries keeps a key absent.
remove_entries-NoEntry :
    (key : Bytes) (env : List Bytes) → NoEntry key env → NoEntry key (remove_entries env)
unfolding remove_entries
remove_entries-NoEntry key [] h = tt
remove_entries-NoEntry key (e ∷ env) (n, h) =
    elim (Bool-cases (starts_with e catter_proxy_env_key)) [
      | inl k ↦ rw k (remove_entries-NoEntry key env h)
      | inr k ↦ rw k (n, remove_entries-NoEntry key env h)
    ]

child_env-parts :
    (lib_path proxy_path : Bytes) (env : List Bytes) (id : ℕ)
    → child_env lib_path proxy_path env id
      ≡ remove_entries env
        ++ (assignment key_preload lib_path
            ∷ assignment key_catter_command_id (to_string id)
            ∷ assignment key_catter_proxy_path proxy_path
            ∷ [])
unfolding child_env remove_entries
child_env-parts lib_path proxy_path env id = remove_entries-append env _

-- The hook of the child reads the id of this command, if the command's environment has none.
pub child_env-id :
    (lib_path proxy_path : Bytes) (env : List Bytes) (id : ℕ)
    → NoEntry key_catter_command_id env
    → get_env_value (child_env lib_path proxy_path env id) key_catter_command_id
      ≡ some (to_string id)
unfolding is_entry equal_n
child_env-id lib_path proxy_path env id h =
    ap (λ e. get_env_value e key_catter_command_id)
      (child_env-parts lib_path proxy_path env id
        ∙ sym (append_assoc (remove_entries env) (assignment key_preload lib_path ∷ []) _))
    ∙ get_env_value-first (remove_entries env ++ assignment key_preload lib_path ∷ []) _
        key_catter_command_id (to_string id)
        (All-append _ (remove_entries env) (assignment key_preload lib_path ∷ [])
          (remove_entries-NoEntry key_catter_command_id env h) (refl, tt))

-- The hook of the child reads the path of this catter-proxy, if the command's environment has none.
pub child_env-proxy_path :
    (lib_path proxy_path : Bytes) (env : List Bytes) (id : ℕ)
    → NoEntry key_catter_proxy_path env
    → get_env_value (child_env lib_path proxy_path env id) key_catter_proxy_path ≡ some proxy_path
unfolding is_entry equal_n
child_env-proxy_path lib_path proxy_path env id h =
    let two =
      assignment key_preload lib_path ∷ assignment key_catter_command_id (to_string id) ∷ [] in
    ap (λ e. get_env_value e key_catter_proxy_path)
      (child_env-parts lib_path proxy_path env id ∙ sym (append_assoc (remove_entries env) two _))
    ∙ get_env_value-first (remove_entries env ++ two) _ key_catter_proxy_path proxy_path (
        All-append _ (remove_entries env) two (remove_entries-NoEntry key_catter_proxy_path env h)
          (refl, (refl, tt)))

-- Where the command's environment has an id, the child's hook reads the first such id and not the id
-- of this command.
pub child_env-outer_id :
    (lib_path proxy_path : Bytes) (before after : List Bytes) (outer : Bytes) (id : ℕ)
    → NoEntry key_catter_command_id before
    → get_env_value
        (child_env lib_path proxy_path (before ++ entry key_catter_command_id outer ∷ after) id)
        key_catter_command_id
      ≡ some outer
unfolding remove_entries
child_env-outer_id lib_path proxy_path before after outer id h =
    let last =
      assignment key_preload lib_path
      ∷ assignment key_catter_command_id (to_string id)
      ∷ assignment key_catter_proxy_path proxy_path
      ∷ [] in
    ap (λ e. get_env_value e key_catter_command_id)
      (child_env-parts lib_path proxy_path _ id
        ∙ ap (λ e. e ++ last)
            (remove_entries-append before (entry key_catter_command_id outer ∷ after))
        ∙ append_assoc (remove_entries before)
            (entry key_catter_command_id outer ∷ remove_entries after) last)
    ∙ get_env_value-first (remove_entries before) (remove_entries after ++ last)
        key_catter_command_id outer (remove_entries-NoEntry key_catter_command_id before h)
