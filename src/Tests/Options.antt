-- ===== src/Tests/Options.antt =====
-- The option parser.
use catter.Prelude.{ℕ, ◌≡◌, ◌≤◌, refl, arith, true, false, some, List, [], ◌∷◌, Bytes, codes}
use catter.Opt.{Checked, ok, ◌>>=◌}
use catter.Opt.Text.{safe_tolower, contains}
use catter.Opt.Info.{name, Info, OptionClass, unaliased_one, pfx_dash}
use catter.Opt.Argument.{argument, view, to_arg_str}
use catter.Opt.Accept.{accept, render_style}
use catter.Opt.Parse.Rendered.{joined_words}
use catter.Opt.Parse.Written.{to_arg_str-accept}
use catter.Opt.Tables.{opt_script, main_table, proxy_table, opt_input}
use catter.Opt.Table.{make_option, set_tablegen_mode}
use catter.Opt.Match.{opt_name_less}
use catter.Opt.Parse.{Parsed, parse_args, missing_error}
use catter.Opt.Parse.Reading.{read}
use catter.Opt.ParseOne.{internal_parse_one_arg}
use catter.Opt.ParseOne.Tablegen.{IsGenerated, tablegen_mode-linear}
use catter.Opt.Tables.Main.{main_opts, main_word, main_table-read}
use catter.Opt.Tables.Proxy.{proxy_word, proxy_table-read}

abbrev main_argv : List Bytes
main_argv = codes "-h" ∷ codes "-s" ∷ codes "script" ∷ codes "--" ∷ codes "cc" ∷ codes "-c" ∷ []

abbrev proxy_argv : List Bytes
proxy_argv =
    codes "-p" ∷ codes "7" ∷ codes "--exec" ∷ codes "/bin/cc" ∷ codes "--" ∷ codes "cc" ∷ []

main_table-read_example : (main_table >>= λ t. ok (parse_args t main_argv)) ≡ (
    let r : Parsed = read main_word opt_input true main_argv 0 main_argv in
    ok (r, missing_error r.argv r.ending))
main_table-read_example = main_table-read main_argv (omega arith)

proxy_table-read_example : (proxy_table >>= λ t. ok (parse_args t proxy_argv)) ≡ (
    let r : Parsed = read proxy_word opt_input false proxy_argv 0 proxy_argv in
    ok (r, missing_error r.argv r.ending))
proxy_table-read_example = proxy_table-read proxy_argv (omega arith)

abbrev grouped_argv : List Bytes
grouped_argv = codes "-hxy" ∷ codes "cc" ∷ []

-- A letter is no prefix character.
letter : (c d : ℕ) → b'a' ≤ c → safe_tolower d ≡ c → contains (b'-' ∷ []) d ≡ false
letter c d le h = ground arith

main_opts-IsGenerated : IsGenerated main_opts
unfolding opt_name_less name catter.Opt.Text.str_cmp_opt_name catter.Opt.Text.compare_insensitive
main_opts-IsGenerated = record {
  sorted = ((refl, (refl, tt)), ((refl, tt), (tt, tt)));
  well_named = (
    (
      ((refl, (refl, tt)), tt),
      (λ d h. letter b'h' d (omega arith) h),
      (omega arith, (omega arith, (omega arith, (omega arith, tt)))),
    ),
    (
      (((refl, tt), tt), (λ d h. letter b'h' d (omega arith) h), (omega arith, tt)),
      ((((refl, tt), tt), (λ d h. letter b's' d (omega arith) h), (omega arith, tt)), tt),
    ),
  );
}

tablegen_mode-linear_example :
    internal_parse_one_arg (set_tablegen_mode true main_opts) (λ i. false) main_argv 1
    ≡ internal_parse_one_arg (set_tablegen_mode false main_opts) (λ i. false) main_argv 1
tablegen_mode-linear_example =
    tablegen_mode-linear main_opts (λ i. false) main_argv 1 main_opts-IsGenerated (omega arith)

abbrev script_info : Info
script_info = unaliased_one pfx_dash (codes "-s") opt_script OptionClass.separate 1

script_argument :
    accept main_opts script_info main_argv (codes "-s") false 1
    ≡ ok (some (argument opt_script (view (codes "-s")) (codes "script" ∷ []) 1), 3)
unfolding accept make_option catter.Opt.Table.info catter.Opt.Accept.accept_internal
script_argument = refl

to_arg_str-accept_example :
    to_arg_str
      (argument opt_script (view (codes "-s")) (codes "script" ∷ []) 1)
      (render_style script_info)
    ≡ ok (joined_words (codes "-s" ∷ codes "script" ∷ []))
to_arg_str-accept_example =
    to_arg_str-accept main_opts script_info main_argv (codes "-s") [] 1
      (codes "script" ∷ codes "--" ∷ codes "cc" ∷ codes "-c" ∷ []) _ 3 (omega arith) (omega arith)
      refl refl refl script_argument
