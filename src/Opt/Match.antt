-- ===== src/Opt/Match.antt =====
-- common/option/opt_table.cc: is_input, match_opt, opt_matches and std::lower_bound with
-- OptNameLess.
pub mod Order
pub mod Trimmed
use catter.Prelude.{
  ℕ, zero, suc, ◌+◌, ◌-◌, ◌/◌, Bool, true, false, Option, none, some, List, [], ◌∷◌, ◌&&◌, ◌||◌,
  ◌==◌, if◌then◌else◌, Bytes, bytes_eq, codes, length, take, drop, starts_with, get_elem?,
}
use catter.Opt.{assertion, Checked, ok, fault}
use catter.Opt.Text.{starts_with_insensitive, str_cmp_opt_name, is_negative, ends_with}
use catter.Opt.Info.{Info, name}

-- The loop of is_input.
unfoldable pub has_prefix : List Bytes → Bytes → Bool
has_prefix [] arg = false
has_prefix (p ∷ prefixes) arg = starts_with arg p || has_prefix prefixes arg

abbrev checked_input : List Bytes → Bytes → Checked Bool
checked_input [] arg = fault assertion
checked_input (p ∷ prefixes) arg = ok (if has_prefix (p ∷ prefixes) arg then false else true)

unfoldable pub is_input : List Bytes → Bytes → Checked Bool
is_input prefixes_union arg =
    if bytes_eq arg (codes "-") then ok true else checked_input prefixes_union arg

abbrev pub starts : Bool → Bytes → Bytes → Bool
starts ignore_case rest name =
    if ignore_case then starts_with_insensitive rest name else starts_with rest name

-- match_opt, on the prefixes that are left.
unfoldable pub match_prefixes : List Bytes → Bytes → Bytes → Bool → ℕ
match_prefixes [] name str ignore_case = 0
match_prefixes (p ∷ prefixes) name str ignore_case =
    let rest = match_prefixes prefixes name str ignore_case in
    if starts_with str p && starts ignore_case (drop (length p) str) name
    then length p + length name
    else rest

unfoldable pub match_opt : Info → Bytes → Bool → ℕ
match_opt i str ignore_case = match_prefixes i.prefixes (name i) str ignore_case

unfoldable equals_any : List Bytes → Bytes → Bool
equals_any [] option = false
equals_any (p ∷ prefixes) option = bytes_eq option p || equals_any prefixes option

unfoldable opt_matches : Info → Bytes → Bool
opt_matches i option =
    ends_with option (name i)
    && equals_any i.prefixes (take (length option - length (name i)) option)

-- OptNameLess
unfoldable pub opt_name_less : Info → Bytes → Bool
opt_name_less i name' = is_negative (str_cmp_opt_name (name i) name' false)

-- The entry in the middle; there is one while `len` is positive.
abbrev pub less_at : (Info → Bool) → Option Info → Bool
less_at less none = false
less_at less (some i) = less i

-- std::lower_bound: `len` entries from `first` on are left, and each round halves them.
unfoldable pub bound_loop : ℕ → (Info → Bool) → List Info → ℕ → ℕ → ℕ
bound_loop zero less infos first len = first
bound_loop (suc fuel) less infos first len =
    let half = len / 2 in
    let upper = bound_loop fuel less infos (first + half + 1) (len - half - 1) in
    let lower = bound_loop fuel less infos first half in
    if len == 0
    then first
    else if less_at less (get_elem? infos (first + half))
    then upper
    else lower

-- The position that std::lower_bound finds in the infos.
unfoldable pub lower_bound : (Info → Bool) → List Info → ℕ
lower_bound less infos = bound_loop (suc (length infos)) less infos 0 (length infos)
