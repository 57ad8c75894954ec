-- ===== src/Opt/ParseOne.antt =====
-- common/option/opt_table.cc: parse_one_arg, internal_parse_one_arg and parse_one_arg_grouped.
use catter.Prelude.{
  ℕ, zero, suc, ◌+◌, ◌-◌, Bool, true, false, not, Option, none, some, List, [], ◌∷◌, ◌++◌, ◌&&◌,
  ◌||◌, ltb, leb, ◌==◌, if◌then◌else◌, Bytes, bytes_eq, codes, length, take, drop, get_or, set,
}
pub mod Progress
pub mod Grouped
pub mod Bound
pub mod Tablegen
use Prim.Native.Nat.{bit_and}
use catter.Opt.{Fault, out_of_range, Checked, ok, fault, ◌>>=◌, add32}
use catter.Opt.Text.{ltrim_all_of}
use catter.Opt.Info.{OptionClass, Info}
use catter.Opt.Table.{OptTable, make_option, is_flag}
use catter.Opt.Argument.{Spelling, view, array, ParsedArgument, argument, to_spelling_array}
use catter.Opt.Accept.{Accepted, accept, arg_at, has_flag}
use catter.Opt.Match.{is_input, match_opt, lower_bound, opt_name_less}

-- Where the search begins: the searchable infos, from the lower bound on in tablegen mode.
unfoldable pub search_from : OptTable → Bytes → List Info
search_from t str =
    let infos = drop t.first_searchable_index t.option_infos in
    if t.tablegen_mode
    then drop (lower_bound (λ i. opt_name_less i (ltrim_all_of str t.prefix_chars)) infos) infos
    else infos

-- The return of the whole argument as one option without values.
abbrev pub whole : ℕ → Bytes → ℕ → Accepted
whole option_id str index = (some (argument option_id (view str) [] index), add32 index 1)

-- What the search comes to: the result of parse_one_arg, or no option that matches.
pub data Search : Type 0 where
  returned : Accepted → Search
  exhausted : Search

-- `if(auto a = opt.accept(...)) return a;`, the test of the index, and the rounds that follow.
abbrev pub after_accept : ℕ → Checked Search → Accepted → Checked Search
after_accept prev next (some a, index) = ok (returned (some a, index))
after_accept prev next (none, index) = if prev == index then next else ok (returned (none, index))

-- The two nested loops: the next info that matches, unless it is excluded.
unfoldable pub search : OptTable → (Info → Bool) → List Bytes → ℕ → List Info → Checked Search
search t exclude_option argv index [] = ok exhausted
search t exclude_option argv index (i ∷ infos) =
    let str = arg_at argv index in
    let arg_sz = match_opt i str t.ignore_case in
    let next = search t exclude_option argv index infos in
    let here = accept t i argv (take arg_sz str) false index >>= after_accept index next in
    if arg_sz == 0 then next else make_option t i >>= λ _. (if exclude_option i then next else here)

abbrev pub starts_with_slash : Bytes → Bool
starts_with_slash str = get_or str 0 0 == b'/'

-- The end of internal_parse_one_arg: a path, or an unknown option.
abbrev pub not_found : OptTable → Bytes → ℕ → Search → Accepted
not_found t str index (returned a) = a
not_found t str index exhausted =
    if starts_with_slash str
    then whole t.input_option_id str index
    else whole t.unknown_option_id str index

unfoldable pub internal_parse_one_arg : OptTable → (Info → Bool) → List Bytes → ℕ → Checked Accepted
internal_parse_one_arg t exclude_option argv index =
    let str = arg_at argv index in
    is_input t.prefixes_union str >>= λ input.
    (if input
      then ok (whole t.input_option_id str index)
      else (search t exclude_option argv index (search_from t str) >>= λ found.
          ok (not_found t str index found)))

-- The lambdas of the overloads of parse_one_arg and parse_args.
abbrev pub exclude_by_visibility : ℕ → Info → Bool
exclude_by_visibility visibility_mask i = not (has_flag i.visibility visibility_mask)

abbrev pub exclude_by_flags : ℕ → ℕ → Info → Bool
exclude_by_flags flags_to_include flags_to_exclude i =
    (not (flags_to_include == 0) && not (has_flag i.flags flags_to_include))
    || has_flag i.flags flags_to_exclude

-- The two overloads of parse_one_arg.
unfoldable parse_one_arg_visible : OptTable → ℕ → List Bytes → ℕ → Checked Accepted
parse_one_arg_visible t visibility_mask =
    internal_parse_one_arg t (exclude_by_visibility visibility_mask)

unfoldable parse_one_arg_flags : OptTable → ℕ → ℕ → List Bytes → ℕ → Checked Accepted
parse_one_arg_flags t flags_to_include flags_to_exclude =
    internal_parse_one_arg t (exclude_by_flags flags_to_include flags_to_exclude)

-- The result of parse_one_arg_grouped, with the argv that it leaves.
abbrev pub Grouped : Type 0
Grouped = Accepted × List Bytes

-- `argv[index] = '-' + std::string(str.substr(2))`, which throws where there are no two bytes.
abbrev pub shift_group : List Bytes → ℕ → Bytes → Accepted → Checked Grouped
shift_group argv index str a =
    if ltb (length str) 2 then fault out_of_range else ok (a, set argv index (b'-' ∷ drop 2 str))

-- What the search of the grouped form comes to: a return, or its end with the fallback.
pub data GroupedSearch : Type 0 where
  returned : Accepted → GroupedSearch
  fallback : Option Info → GroupedSearch

abbrev pub grouped_after :
    ℕ
    → (Option Info → Checked GroupedSearch)
    → Bool
    → Info
    → Option Info
    → Accepted
    → Checked GroupedSearch
grouped_after prev next short i fallback_opt (some a, index) =
    ok (GroupedSearch.returned (some a, index))
grouped_after prev next short i fallback_opt (none, index) =
    if prev == index
    then next (if short && is_flag i.kind then some i else fallback_opt)
    else ok (GroupedSearch.returned (none, index))

unfoldable pub grouped_search :
    OptTable → List Bytes → ℕ → List Info → Option Info → Checked GroupedSearch
grouped_search t argv index [] fallback_opt = ok (fallback fallback_opt)
grouped_search t argv index (i ∷ infos) fallback_opt =
    let str = arg_at argv index in
    let arg_sz = match_opt i str t.ignore_case in
    let skipped = grouped_search t argv index infos fallback_opt in
    let here =
      (make_option t i >>= λ _.
      (accept t i argv (take arg_sz str) false index
        >>= grouped_after index (λ f. grouped_search t argv index infos f) (arg_sz == 2) i
            fallback_opt)) in
    if arg_sz == 0 then skipped else here

-- "-abc" with an invalid -a, or an unknown option as it is.
abbrev pub unknown_group : OptTable → List Bytes → ℕ → Bytes → Checked Grouped
unknown_group t argv index str =
    if get_or str 1 0 == b'-'
    then ok (whole t.unknown_option_id str index, argv)
    else shift_group argv index str (
      some (argument t.unknown_option_id (array (to_spelling_array (take 2 str))) [] index),
      index,
    )

abbrev pub after_fallback : OptTable → List Bytes → ℕ → Bytes → Accepted → Checked Grouped
after_fallback t argv index str (some a, index') = shift_group argv index' str (some a, index')
after_fallback t argv index str (none, index') = unknown_group t argv index' str

abbrev pub from_fallback : OptTable → List Bytes → ℕ → Bytes → GroupedSearch → Checked Grouped
from_fallback t argv index str (GroupedSearch.returned a) = ok (a, argv)
from_fallback t argv index str (fallback none) = unknown_group t argv index str
from_fallback t argv index str (fallback (some i)) = make_option t i >>= λ _.
    (if get_or str 2 0 == b'='
      then ok (whole t.unknown_option_id str index, argv)
      else (accept t i argv (take 2 str) true index >>= after_fallback t argv index str))

unfoldable pub parse_one_arg_grouped : OptTable → List Bytes → ℕ → Checked Grouped
parse_one_arg_grouped t argv index =
    let str = arg_at argv index in
    is_input t.prefixes_union str >>= λ input.
    (if input
      then ok (whole t.input_option_id str index, argv)
      else (grouped_search t argv index (search_from t str) none
          >>= from_fallback t argv index str))
