-- ===== src/Opt/Tables/Main.antt =====
-- common/opt-data/catter/table.cc with common/option: theorems about parses with the table of catter.
use catter.Prelude.{
  ℕ, suc, ◌-◌, ◌≡◌, refl, ap, ◌∙◌, sym, Bool, true, false, none, some, List, [], ◌∷◌, if◌then◌else◌,
  Bytes, codes, length, drop, arith, bytes_eq, bytes_eq→eq, Bool-cases, inl, inr, if-eq_false,
}
use mathlib.Core.Path.{subst}
use catter.Opt.{Checked, ok, ◌>>=◌, Fits, u32}
use catter.Opt.Table.{
  OptTable, make_table, make_option, scan_infos, collect_prefixes, build_prefix_chars, info,
}
use catter.Opt.Text.{compare}
use catter.Opt.Info.{Info, OptionClass, name, pfx_dash, pfx_double, unaliased_one, alias_of}
use catter.Opt.Match.{match_opt, match_prefixes}
use catter.Opt.ParseOne.{search, search_from, internal_parse_one_arg, exclude_by_visibility}
use catter.Opt.Parse.{
  Parsed, parse_args, parse_args_visible, internal_parse_args, total, missing_error,
}
use catter.Opt.Parse.Reading.{outcome, Word, plain, takes_next, read}
use catter.Opt.Parse.Rounds.{parse_loop-read}
use catter.Opt.Parse.Exact.{search-skip, search-hit, accept-flag, accept-separate, outcome-moved}
use catter.Opt.Parse.Prefixed.{match_prefixes-inexact}
use catter.Opt.Tables.{
  main_infos, main_table, opt_input, opt_unknown, opt_help, opt_help_short, opt_script,
}
use catter.Opt.Tables.Dashes.{dashes, other, one-search, one-other}

abbrev pub main_opts : OptTable
main_opts = record {
  option_infos = main_infos;
  ignore_case = false;
  grouped_short_options = false;
  dash_dash_parsing = true;
  dash_dash_as_single_pack = true;
  env_var = none;
  input_option_id = opt_input;
  unknown_option_id = opt_unknown;
  tablegen_mode = false;
  first_searchable_index = 2;
  prefixes_union = dashes;
  prefix_chars = b'-' ∷ [];
}

main_table-main_opts : main_table ≡ ok main_opts
unfolding main_table make_table scan_infos collect_prefixes build_prefix_chars compare
main_table-main_opts = refl

-- What the words mean to catter.
unfoldable pub main_word : Bytes → Word
main_word w =
    if bytes_eq w (codes "--help")
    then plain opt_help none
    else if bytes_eq w (codes "-h")
    then plain opt_help_short (some opt_help)
    else if bytes_eq w (codes "-s")
    then takes_next opt_script
    else other main_opts w

abbrev shown : Info → Bool
shown = exclude_by_visibility (u32 - 1)

abbrev help_info : Info
help_info = unaliased_one pfx_double (codes "--help") opt_help OptionClass.flag 0

abbrev help_short_info : Info
help_short_info =
    alias_of (unaliased_one pfx_dash (codes "-h") opt_help_short OptionClass.flag 0) opt_help none

abbrev script_info : Info
script_info = unaliased_one pfx_dash (codes "-s") opt_script OptionClass.separate 1

help-made : make_option main_opts help_info ≡ ok none
unfolding make_option info
help-made = refl

help_short-made : make_option main_opts help_short_info ≡ ok (some help_info)
unfolding make_option info
help_short-made = refl

script-made : make_option main_opts script_info ≡ ok none
unfolding make_option info
script-made = refl

module _ (argv : List Bytes) (fits : Fits (length argv)) (i : ℕ) (ws : List Bytes) where
  help-one :
      drop i argv ≡ codes "--help" ∷ ws
      → internal_parse_one_arg main_opts shown argv i
        ≡ ok (outcome (plain opt_help none) (codes "--help") ws i)
  unfolding search_from match_opt match_prefixes name
  help-one at = one-search main_opts shown refl argv fits i (codes "--help") ws at _ refl (
      search-hit main_opts shown argv i (codes "--help") ws at fits help_info _ none
        (outcome (plain opt_help none) (codes "--help") ws i) help-made refl refl (omega arith)
        (accept-flag main_opts shown argv i (codes "--help") ws at fits help_info none refl
          help-made)
        (omega arith))

  help_short-one :
      drop i argv ≡ codes "-h" ∷ ws
      → internal_parse_one_arg main_opts shown argv i
        ≡ ok (outcome (plain opt_help_short (some opt_help)) (codes "-h") ws i)
  unfolding search_from match_opt match_prefixes name catter.Opt.Table.option info make_option
  help_short-one at = one-search main_opts shown refl argv fits i (codes "-h") ws at _ refl (
      search-skip main_opts shown argv i (codes "-h") ws at fits help_info _ none refl help-made
        (inl refl)
      ∙ search-hit main_opts shown argv i (codes "-h") ws at fits help_short_info _ (some help_info)
          (outcome (plain opt_help_short (some opt_help)) (codes "-h") ws i) help_short-made refl
          refl (omega arith)
          (accept-flag main_opts shown argv i (codes "-h") ws at fits help_short_info
            (some help_info) refl help_short-made)
          (omega arith))

  script-one :
      drop i argv ≡ codes "-s" ∷ ws
      → internal_parse_one_arg main_opts shown argv i
        ≡ ok (outcome (takes_next opt_script) (codes "-s") ws i)
  unfolding search_from match_opt match_prefixes name
  script-one at = one-search main_opts shown refl argv fits i (codes "-s") ws at _ refl (
      search-skip main_opts shown argv i (codes "-s") ws at fits help_info _ none refl help-made
        (inl refl)
      ∙ search-skip main_opts shown argv i (codes "-s") ws at fits help_short_info _
          (some help_info) refl help_short-made (inl refl)
      ∙ search-hit main_opts shown argv i (codes "-s") ws at fits script_info [] none
          (outcome (takes_next opt_script) (codes "-s") ws i) script-made refl refl (omega arith)
          (accept-separate main_opts shown argv i (codes "-s") ws at fits script_info refl
            script-made)
          (outcome-moved (takes_next opt_script) (codes "-s") ws i))

  other-one :
      (w : Bytes)
      → drop i argv ≡ w ∷ ws
      → bytes_eq w (codes "--help") ≡ false
      → bytes_eq w (codes "-h") ≡ false
      → bytes_eq w (codes "-s") ≡ false
      → internal_parse_one_arg main_opts shown argv i ≡ ok (outcome (other main_opts w) w ws i)
  unfolding search_from match_opt name search
  other-one w at no_help no_h no_s = one-other main_opts shown refl argv fits i w ws at (λ option.
      search-skip main_opts shown argv i w ws at fits help_info (help_short_info ∷ script_info ∷ [])
        none refl help-made (match_prefixes-inexact pfx_double (codes "help") w (no_help, tt))
      ∙ search-skip main_opts shown argv i w ws at fits help_short_info (script_info ∷ [])
          (some help_info) refl help_short-made
          (match_prefixes-inexact pfx_dash (codes "h") w (no_h, tt))
      ∙ search-skip main_opts shown argv i w ws at fits script_info [] none refl script-made
          (match_prefixes-inexact pfx_dash (codes "s") w (no_s, tt)))

-- internal_parse_one_arg gives for every word what `main_word` says of it.
main-one :
    (argv : List Bytes)
    → Fits (length argv)
    → (i : ℕ) (w : Bytes) (ws : List Bytes) → drop i argv ≡ w ∷ ws
    → internal_parse_one_arg main_opts shown argv i ≡ ok (outcome (main_word w) w ws i)
unfolding main_word
main-one argv fits i w ws at = elim (Bool-cases (bytes_eq w (codes "--help"))) [
  | inl is_help ↦ by_name (codes "--help") is_help (help-one argv fits i ws)
  | inr no_help ↦ elim (Bool-cases (bytes_eq w (codes "-h"))) [
    | inl is_h ↦ by_name (codes "-h") is_h (help_short-one argv fits i ws)
    | inr no_h ↦ elim (Bool-cases (bytes_eq w (codes "-s"))) [
      | inl is_s ↦ by_name (codes "-s") is_s (script-one argv fits i ws)
      | inr no_s ↦
          other-one argv fits i ws w at no_help no_h no_s
          ∙ ap (λ c. ok (outcome c w ws i))
              (sym (
                if-eq_false (bytes_eq w (codes "--help")) _ _ no_help
                ∙ if-eq_false (bytes_eq w (codes "-h")) _ _ no_h
                ∙ if-eq_false (bytes_eq w (codes "-s")) _ _ no_s))
    ]
  ]
]
  where
    Known : Bytes → Type 0
    Known v = internal_parse_one_arg main_opts shown argv i ≡ ok (outcome (main_word v) v ws i)

    by_name : (v : Bytes) → bytes_eq w v ≡ true → (drop i argv ≡ v ∷ ws → Known v) → Known w
    by_name v e h =
        let same = bytes_eq→eq w v e in subst Known (sym same) (h (at ∙ ap (λ u. u ∷ ws) same))

-- A parse with the table of catter gives exactly what the plain reading of argv says: a word "-s"
-- takes the next one, "-h" is an alias of "--help", other words are unknown options or inputs,
-- empty words are passed over, and "--" packs all that follows.
pub main_table-read :
    (argv : List Bytes)
    → Fits (length argv)
    → (main_table >>= λ t. ok (parse_args t argv)) ≡ (
        let r : Parsed = read main_word opt_input true argv 0 argv in
        ok (r, missing_error r.argv r.ending))
unfolding parse_args parse_args_visible internal_parse_args
main_table-read argv fits =
    ap (λ r. r >>= λ t. ok (parse_args t argv)) main_table-main_opts
    ∙ ap (λ (r : Parsed). ok (r, missing_error r.argv r.ending))
        (parse_loop-read main_opts shown main_word refl refl argv fits
          (λ i w ws at full dashes. main-one argv fits i w ws at) (suc (total argv)) 0 argv refl
          (omega arith) (omega arith))
