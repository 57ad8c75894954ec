-- ===== src/Hook/Inject/Mark.antt =====
-- payload/inject/lib.cc, catter-proxy/main.cc and catter-hook/linux-mac/impl.cc: the mark that
-- switches the hooks off.
use mathlib.Core.Bool.{false≢true}
use catter.Prelude.{
  ℕ, ◌≡◌, refl, sym, ap, ◌∙◌, true, false, Option, none, some, List, [], ◌∷◌, ◌++◌, codes, Bytes,
  All, arith, starts_with, Bool-cases, inl, inr,
}
use catter.Hook.Config.{catter_proxy_env_key}
use catter.Hook.Environment.{is_entry, get_env_value}
use catter.Hook.Environment.Lookup.{IsText, entry, NoEntry, is_entry→entry, get_env_value-first}
use catter.Hook.Inject.{in_proxy}
use catter.Launch.{child_env}
use catter.Launch.Environment.{IsHooked, child_env-IsHooked}
use catter.Proxy.{set_mark}

starts_with-entry : (key value : Bytes) → starts_with (entry key value) key ≡ true
starts_with-entry [] value = refl
starts_with-entry (c ∷ key) value = ground (arith, starts_with-entry key value)

IsHooked-is_entry : (e : Bytes) → IsHooked e → is_entry catter_proxy_env_key e ≡ false
IsHooked-is_entry e h = elim (Bool-cases (is_entry catter_proxy_env_key e)) [
  | inl k ↦
      let text : IsText catter_proxy_env_key = ground arith in
      let (value, split) = is_entry→entry catter_proxy_env_key e text k in
      absurd (
        false≢true (
          sym h
          ∙ ap (λ s. starts_with s catter_proxy_env_key) split
          ∙ starts_with-entry catter_proxy_env_key value))
  | inr k ↦ k
]

get_env_value-IsHooked :
    (env : List Bytes) → All IsHooked env → get_env_value env catter_proxy_env_key ≡ none
unfolding get_env_value
get_env_value-IsHooked [] h = refl
get_env_value-IsHooked (e ∷ env) (h, hs) =
    rw (IsHooked-is_entry e h) (get_env_value-IsHooked env hs)

none→NoEntry : (key : Bytes) (env : List Bytes) → get_env_value env key ≡ none → NoEntry key env
unfolding get_env_value
none→NoEntry key [] h = tt
none→NoEntry key (e ∷ env) h = elim (Bool-cases (is_entry key e)) [
  | inl k ↦ absurd (ground (arith, h, k))
  | inr k ↦ (k, none→NoEntry key env (ground (arith, h, k)))
]

in_proxy-set_mark :
    (environment : List Bytes) (o : Option Bytes)
    → get_env_value environment catter_proxy_env_key ≡ o
    → in_proxy (elim o as (λ o. List Bytes) [
      | none ↦ environment ++ entry catter_proxy_env_key (codes "v1") ∷ []
      | some value ↦ environment
    ])
      ≡ true
in_proxy-set_mark environment none h = rw (
  in_proxy,
  get_env_value-first environment [] catter_proxy_env_key (codes "v1")
      (none→NoEntry catter_proxy_env_key environment h),
)
in_proxy-set_mark environment (some value) h = rw (in_proxy, h)

-- The hooks are off in catter-proxy itself, whatever its environment was, and on in the command
-- that it runs.
pub in_proxy-child_env :
    (environment env : List Bytes) (lib_path proxy_path : Bytes) (id : ℕ)
    → (in_proxy (set_mark environment) ≡ true)
      × (in_proxy (child_env lib_path proxy_path env id) ≡ false)
in_proxy-child_env environment env lib_path proxy_path id = (
  in_proxy-set_mark environment (get_env_value environment catter_proxy_env_key) refl,
  rw (
    in_proxy,
    get_env_value-IsHooked (child_env lib_path proxy_path env id)
        (child_env-IsHooked lib_path proxy_path env id),
  ),
)
