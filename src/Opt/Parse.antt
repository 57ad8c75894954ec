-- ===== src/Opt/Parse.antt =====
-- common/option/opt_table.cc: internal_parse_args and the overloads of parse_args. The calls of
-- `arg_callback` are the list `args`.
pub mod Progress
pub mod Indices
pub mod Reading
pub mod Rounds
pub mod Rendered
pub mod Written
pub mod Exact
pub mod Prefixed
use catter.Prelude.{
  ℕ, zero, suc, ◌+◌, ◌-◌, ◌%◌, Bool, true, false, not, Option, none, some, List, [], ◌∷◌, ◌++◌,
  ◌&&◌, ◌||◌, ltb, leb, ◌==◌, if◌then◌else◌, Bytes, bytes_eq, codes, length, drop, is_empty,
}
use catter.Opt.{Fault, assertion, Checked, ok, fault, ◌>>=◌, assert, add32, sub32, u32}
use catter.Opt.Info.{Info}
use catter.Opt.Table.{OptTable}
use catter.Opt.Argument.{Spelling, view, ParsedArgument, argument}
use catter.Opt.Accept.{Accepted, arg_at}
use catter.Opt.ParseOne.{
  Grouped, parse_one_arg_grouped, internal_parse_one_arg, exclude_by_visibility, exclude_by_flags,
}

-- How the parse ends: all read, an argument without its values, a failure, or no fuel left.
pub data Ending : Type 0 where
  finished : Ending
  missing : (missing_arg_index missing_arg_count : ℕ) → Ending
  failed : Fault → Ending
  running : Ending

pub record Parsed : Type 0 where
  pub args : List ParsedArgument
  pub ending : Ending
  pub argv : List Bytes

abbrev pub stop : List Bytes → Ending → Parsed
stop argv ending = record { args = []; ending = ending; argv = argv }

-- `arg_callback(a)`, before what `r` calls
abbrev pub emit : ParsedArgument → Parsed → Parsed
emit a r = record r { args = a ∷ r.args }

-- The arguments behind "--", each an input.
unfoldable pub positional : ℕ → ℕ → List Bytes → List ParsedArgument
positional input_option_id index [] = []
positional input_option_id index (a ∷ argv) =
    argument input_option_id (view a) [] index ∷ positional input_option_id (add32 index 1) argv

-- What "--" gives, in the two modes.
unfoldable pub dash_dash : OptTable → List Bytes → ℕ → List ParsedArgument
dash_dash t argv index =
    if t.dash_dash_as_single_pack
    then argument t.input_option_id (view (codes "--")) (drop (index + 1) argv) index ∷ []
    else positional t.input_option_id (add32 index 1) (drop (index + 1) argv)

-- One argument, in the mode of the table.
unfoldable pub parse_one : OptTable → (Info → Bool) → List Bytes → ℕ → Checked Grouped
parse_one t exclude_option argv index =
    if t.grouped_short_options
    then parse_one_arg_grouped t argv index
    else (internal_parse_one_arg t exclude_option argv index >>= λ a. ok (a, argv))

-- The two asserts on a missing argument.
abbrev pub missing_from : List Bytes → ℕ → ℕ → ℕ → Parsed
missing_from argv end prev index =
    let count = sub32 (sub32 index prev) 1 in
    if leb end index && not (count == 0)
    then stop argv (missing prev count)
    else stop argv (failed assertion)

-- What follows parse_one, where `loop` is the next rounds.
abbrev pub after_one :
    (List Bytes → ℕ → Parsed) → Bool → List Bytes → ℕ → ℕ → Checked Grouped → Parsed
after_one loop grouped argv end prev (fault e) = stop argv (failed e)
after_one loop grouped argv end prev (ok ((a, index), argv')) =
    if ltb prev index || grouped
    then elim a [ none ↦ missing_from argv' end prev index | some x ↦ emit x (loop argv' index) ]
    else stop argv' (failed assertion)

-- `str == "--"` in the mode that stops there.
abbrev pub is_dash_dash : OptTable → Bytes → Bool
is_dash_dash t str = t.dash_dash_parsing && bytes_eq str (codes "--")

-- The loop of internal_parse_args.
unfoldable pub parse_loop : OptTable → (Info → Bool) → ℕ → List Bytes → ℕ → Parsed
parse_loop t exclude_option zero argv index = stop argv running
parse_loop t exclude_option (suc fuel) argv index =
    let str = arg_at argv index in
    let skip = parse_loop t exclude_option fuel argv (add32 index 1) in
    let packed : Parsed = record {
      args = dash_dash t argv index;
      ending = finished;
      argv = argv;
    } in
    let one =
      after_one (parse_loop t exclude_option fuel) t.grouped_short_options argv (length argv % u32)
        index (parse_one t exclude_option argv index) in
    if ltb index (length argv % u32)
    then (if is_empty str then skip else if is_dash_dash t str then packed else one)
    else stop argv finished

-- The bytes of the arguments, and one more for each: every round takes at least one of these.
abbrev pub total : List Bytes → ℕ
total [] = 0
total (a ∷ argv) = length a + 1 + total argv

unfoldable pub internal_parse_args : OptTable → (Info → Bool) → List Bytes → Parsed
internal_parse_args t exclude_option argv = parse_loop t exclude_option (suc (total argv)) argv 0

-- parse_args with a visibility mask, and with flags
unfoldable pub parse_args_visible : OptTable → ℕ → List Bytes → Parsed
parse_args_visible t visibility_mask = internal_parse_args t (exclude_by_visibility visibility_mask)

unfoldable parse_args_flags : OptTable → ℕ → ℕ → List Bytes → Parsed
parse_args_flags t flags_to_include flags_to_exclude =
    internal_parse_args t (exclude_by_flags flags_to_include flags_to_exclude)

-- The error that the last overload hands to its callback, after the arguments.
abbrev pub missing_error : List Bytes → Ending → Option Bytes
missing_error argv (missing i n) =
    if n == 0 then none else some (arg_at argv i ++ codes ": missing argument")
missing_error argv _ = none

-- parse_args(argv, res_err_fn), with the default visibility
unfoldable pub parse_args : OptTable → List Bytes → Parsed × Option Bytes
parse_args t argv =
    let r = parse_args_visible t (u32 - 1) argv in (r, missing_error r.argv r.ending)
