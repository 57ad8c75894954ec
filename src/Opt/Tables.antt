-- ===== src/Opt/Tables.antt =====
-- common/opt-data: the tables of catter and of catter-proxy.
pub mod Dashes
pub mod Main
pub mod Proxy
use catter.Prelude.{ℕ, true, false, none, List, [], ◌∷◌, codes}
use catter.Opt.{Checked, ok, ◌>>=◌}
use catter.Opt.Info.{
  OptionClass, Info, unaliased_one, input_info, unknown_info, alias_of, pfx_dash, pfx_double,
  pfx_dash_double,
}
use catter.Opt.Table.{
  OptTable, make_table, set_tablegen_mode, set_dash_dash_parsing, set_dash_dash_as_single_pack,
}

-- enum OptionID of catter
abbrev pub opt_input : ℕ
opt_input = 1

abbrev pub opt_unknown : ℕ
opt_unknown = 2

abbrev pub opt_help : ℕ
opt_help = 3

abbrev pub opt_help_short : ℕ
opt_help_short = 4

abbrev pub opt_script : ℕ
opt_script = 5

-- and of catter-proxy
abbrev pub opt_parent_id : ℕ
opt_parent_id = 3

abbrev pub opt_exec : ℕ
opt_exec = 4

abbrev pub main_infos : List Info
main_infos =
    input_info opt_input
    ∷ unknown_info opt_unknown
    ∷ unaliased_one pfx_double (codes "--help") opt_help OptionClass.flag 0
    ∷ alias_of (unaliased_one pfx_dash (codes "-h") opt_help_short OptionClass.flag 0) opt_help none
    ∷ unaliased_one pfx_dash (codes "-s") opt_script OptionClass.separate 1
    ∷ []

unfoldable pub main_table : Checked OptTable
main_table = make_table main_infos false [] >>= λ t.
    ok (set_dash_dash_as_single_pack true (set_dash_dash_parsing true (set_tablegen_mode false t)))

abbrev pub proxy_infos : List Info
proxy_infos =
    input_info opt_input
    ∷ unknown_info opt_unknown
    ∷ unaliased_one pfx_dash (codes "-p") opt_parent_id OptionClass.separate 1
    ∷ unaliased_one pfx_dash_double (codes "--exec") opt_exec OptionClass.separate 1
    ∷ []

unfoldable pub proxy_table : Checked OptTable
proxy_table = make_table proxy_infos false [] >>= λ t.
    ok (set_dash_dash_parsing true (set_tablegen_mode false t))
