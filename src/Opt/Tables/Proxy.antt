-- ===== src/Opt/Tables/Proxy.antt =====
-- common/opt-data/catter-proxy/table.cc with common/option: theorems about parses with the table of
-- catter-proxy.
use catter.Prelude.{
  ℕ, suc, ◌-◌, ◌<◌, ◌≡◌, refl, ap, ◌∙◌, sym, Bool, true, false, none, List, [], ◌∷◌, if◌then◌else◌,
  Bytes, codes, length, drop, arith, bytes_eq, bytes_eq→eq, Bool-cases, inl, inr, if-eq_false,
}
use mathlib.Core.Path.{subst}
use catter.Opt.{ok, ◌>>=◌, Fits, u32}
use catter.Opt.Table.{
  OptTable, make_table, make_option, scan_infos, collect_prefixes, build_prefix_chars, info,
}
use catter.Opt.Text.{compare}
use catter.Opt.Info.{Info, OptionClass, name, pfx_dash, pfx_dash_double, unaliased_one}
use catter.Opt.Match.{match_opt, match_prefixes}
use catter.Opt.ParseOne.{search, search_from, internal_parse_one_arg, exclude_by_visibility}
use catter.Opt.Parse.{
  Parsed, parse_args, parse_args_visible, internal_parse_args, total, missing_error,
}
use catter.Opt.Parse.Reading.{outcome, Word, takes_next, read}
use catter.Opt.Parse.Rounds.{parse_loop-read}
use catter.Opt.Parse.Exact.{search-skip, search-hit, accept-separate, outcome-moved}
use catter.Opt.Parse.Prefixed.{match_prefixes-inexact}
use catter.Opt.Tables.{proxy_infos, proxy_table, opt_input, opt_unknown, opt_parent_id, opt_exec}
use catter.Opt.Tables.Dashes.{dashes, other, one-search, one-other, looks_like_option}

abbrev proxy_opts : OptTable
proxy_opts = record {
  option_infos = proxy_infos;
  ignore_case = false;
  grouped_short_options = false;
  dash_dash_parsing = true;
  dash_dash_as_single_pack = false;
  env_var = none;
  input_option_id = opt_input;
  unknown_option_id = opt_unknown;
  tablegen_mode = false;
  first_searchable_index = 2;
  prefixes_union = dashes;
  prefix_chars = b'-' ∷ [];
}

proxy_table-proxy_opts : proxy_table ≡ ok proxy_opts
unfolding proxy_table make_table scan_infos collect_prefixes build_prefix_chars compare
proxy_table-proxy_opts = refl

-- What the words mean to catter-proxy. The name behind the prefixes of "--exec" is "-exec", since
-- its first prefix is "-".
unfoldable pub proxy_word : Bytes → Word
proxy_word w =
    if bytes_eq w (codes "-p")
    then takes_next opt_parent_id
    else if bytes_eq w (codes "--exec")
    then takes_next opt_exec
    else if bytes_eq w (codes "---exec")
    then takes_next opt_exec
    else other proxy_opts w

abbrev shown : Info → Bool
shown = exclude_by_visibility (u32 - 1)

abbrev parent_info : Info
parent_info = unaliased_one pfx_dash (codes "-p") opt_parent_id OptionClass.separate 1

abbrev exec_info : Info
exec_info = unaliased_one pfx_dash_double (codes "--exec") opt_exec OptionClass.separate 1

parent-made : make_option proxy_opts parent_info ≡ ok none
unfolding make_option info
parent-made = refl

exec-made : make_option proxy_opts exec_info ≡ ok none
unfolding make_option info
exec-made = refl

module _ (argv : List Bytes) (fits : Fits (length argv)) (i : ℕ) (ws : List Bytes) where
  parent-one :
      drop i argv ≡ codes "-p" ∷ ws
      → internal_parse_one_arg proxy_opts shown argv i
        ≡ ok (outcome (takes_next opt_parent_id) (codes "-p") ws i)
  unfolding search_from match_opt match_prefixes name
  parent-one at = one-search proxy_opts shown refl argv fits i (codes "-p") ws at _ refl (
      search-hit proxy_opts shown argv i (codes "-p") ws at fits parent_info _ none
        (outcome (takes_next opt_parent_id) (codes "-p") ws i) parent-made refl refl (omega arith)
        (accept-separate proxy_opts shown argv i (codes "-p") ws at fits parent_info refl
          parent-made)
        (outcome-moved (takes_next opt_parent_id) (codes "-p") ws i))

  -- For a spelling that is a name of --exec and does not begin with "-p".
  exec-one :
      (w : Bytes)
      → looks_like_option w ≡ true
      → match_opt parent_info w false ≡ 0
      → match_opt exec_info w false ≡ length w
      → 0 < length w
      → drop i argv ≡ w ∷ ws
      → internal_parse_one_arg proxy_opts shown argv i ≡ ok (outcome (takes_next opt_exec) w ws i)
  unfolding search_from
  exec-one w option no_p matched full at =
      one-search proxy_opts shown refl argv fits i w ws at _ option (
        search-skip proxy_opts shown argv i w ws at fits parent_info (exec_info ∷ []) none refl
          parent-made (inl no_p)
        ∙ search-hit proxy_opts shown argv i w ws at fits exec_info [] none
            (outcome (takes_next opt_exec) w ws i) exec-made refl matched full
            (accept-separate proxy_opts shown argv i w ws at fits exec_info refl exec-made)
            (outcome-moved (takes_next opt_exec) w ws i))

  other-one :
      (w : Bytes)
      → drop i argv ≡ w ∷ ws
      → bytes_eq w (codes "-p") ≡ false
      → bytes_eq w (codes "--exec") ≡ false
      → bytes_eq w (codes "---exec") ≡ false
      → internal_parse_one_arg proxy_opts shown argv i ≡ ok (outcome (other proxy_opts w) w ws i)
  unfolding search_from match_opt name search
  other-one w at no_p no_exec no_long =
      one-other proxy_opts shown refl argv fits i w ws at (λ option.
        search-skip proxy_opts shown argv i w ws at fits parent_info (exec_info ∷ []) none refl
          parent-made (match_prefixes-inexact pfx_dash (codes "p") w (no_p, tt))
        ∙ search-skip proxy_opts shown argv i w ws at fits exec_info [] none refl exec-made
            (match_prefixes-inexact pfx_dash_double (codes "-exec") w (no_exec, (no_long, tt))))

-- internal_parse_one_arg gives for every word what `proxy_word` says of it.
proxy-one :
    (argv : List Bytes)
    → Fits (length argv)
    → (i : ℕ) (w : Bytes) (ws : List Bytes) → drop i argv ≡ w ∷ ws
    → internal_parse_one_arg proxy_opts shown argv i ≡ ok (outcome (proxy_word w) w ws i)
unfolding proxy_word match_opt match_prefixes name
proxy-one argv fits i w ws at = elim (Bool-cases (bytes_eq w (codes "-p"))) [
  | inl is_p ↦ by_name (codes "-p") is_p (parent-one argv fits i ws)
  | inr no_p ↦ elim (Bool-cases (bytes_eq w (codes "--exec"))) [
    | inl is_exec ↦
        by_name (codes "--exec") is_exec
          (exec-one argv fits i ws (codes "--exec") refl refl refl (omega arith))
    | inr no_exec ↦ elim (Bool-cases (bytes_eq w (codes "---exec"))) [
      | inl is_long ↦
          by_name (codes "---exec") is_long
            (exec-one argv fits i ws (codes "---exec") refl refl refl (omega arith))
      | inr no_long ↦
          other-one argv fits i ws w at no_p no_exec no_long
          ∙ ap (λ c. ok (outcome c w ws i))
              (sym (
                if-eq_false (bytes_eq w (codes "-p")) _ _ no_p
                ∙ if-eq_false (bytes_eq w (codes "--exec")) _ _ no_exec
                ∙ if-eq_false (bytes_eq w (codes "---exec")) _ _ no_long))
    ]
  ]
]
  where
    Known : Bytes → Type 0
    Known v = internal_parse_one_arg proxy_opts shown argv i ≡ ok (outcome (proxy_word v) v ws i)

    by_name : (v : Bytes) → bytes_eq w v ≡ true → (drop i argv ≡ v ∷ ws → Known v) → Known w
    by_name v e h =
        let same = bytes_eq→eq w v e in subst Known (sym same) (h (at ∙ ap (λ u. u ∷ ws) same))

-- A parse with the table of catter-proxy gives exactly what the plain reading of argv says: each of
-- the words "-p", "--exec" and "---exec" takes the next one, other words are unknown options or
-- inputs, empty words are passed over, and behind "--" every word is an input.
pub proxy_table-read :
    (argv : List Bytes)
    → Fits (length argv)
    → (proxy_table >>= λ t. ok (parse_args t argv)) ≡ (
        let r : Parsed = read proxy_word opt_input false argv 0 argv in
        ok (r, missing_error r.argv r.ending))
unfolding parse_args parse_args_visible internal_parse_args
proxy_table-read argv fits =
    ap (λ r. r >>= λ t. ok (parse_args t argv)) proxy_table-proxy_opts
    ∙ ap (λ (r : Parsed). ok (r, missing_error r.argv r.ending))
        (parse_loop-read proxy_opts shown proxy_word refl refl argv fits
          (λ i w ws at full dashes. proxy-one argv fits i w ws at) (suc (total argv)) 0 argv refl
          (omega arith) (omega arith))
