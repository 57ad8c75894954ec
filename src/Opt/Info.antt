-- ===== src/Opt/Info.antt =====
-- common/option/parsed_arg.h, util.h and opt_table.h: kinds of options, and OptTable::Info. A text
-- that only serves the help is left out.
use catter.Prelude.{ℕ, Bool, true, false, Option, none, List, [], ◌∷◌, Bytes, codes, length, drop}

-- OptionEnum::OptionClass
pub data OptionClass : Type 0 where
  group input unknown flag joined values separate remaining_args : OptionClass
  remaining_args_joined comma_joined multi_arg joined_or_separate joined_and_separate : OptionClass

-- OptionEnum::RenderStyleKind
pub data RenderStyleKind : Type 0 where
  render_comma_joined render_joined render_separate render_values : RenderStyleKind

-- struct Info. `alias_args` is the bytes of the literal, without the 0 that ends it.
pub record Info : Type 0 where
  pub prefixes : List Bytes
  pub prefixed_name : Bytes
  pub id : ℕ
  pub kind : OptionClass
  pub group_id : ℕ
  pub alias_id : ℕ
  pub alias_args : Option Bytes
  pub flags : ℕ
  pub visibility : ℕ
  pub param : ℕ

abbrev has_no_prefix : Info → Bool
has_no_prefix i = elim i.prefixes [ [] ↦ true | p ∷ ps ↦ false ]

abbrev pub first_prefix : List Bytes → Bytes
first_prefix [] = []
first_prefix (p ∷ ps) = p

-- Info::name
unfoldable pub name : Info → Bytes
name i = drop (length (first_prefix i.prefixes)) i.prefixed_name

-- DefaultVis
abbrev default_vis : ℕ
default_vis = 1

-- Info::unaliased_one, with the default group, flags and visibility
abbrev pub unaliased_one : List Bytes → Bytes → ℕ → OptionClass → ℕ → Info
unaliased_one prefixes prefixed_name id kind param = record {
  prefixes = prefixes;
  prefixed_name = prefixed_name;
  id = id;
  kind = kind;
  group_id = 0;
  alias_id = 0;
  alias_args = none;
  flags = 0;
  visibility = default_vis;
  param = param;
}

abbrev pfx_none : List Bytes
pfx_none = []

abbrev pub pfx_dash : List Bytes
pfx_dash = codes "-" ∷ []

abbrev pub pfx_dash_double : List Bytes
pfx_dash_double = codes "-" ∷ codes "--" ∷ []

abbrev pub pfx_double : List Bytes
pfx_double = codes "--" ∷ []

abbrev pfx_all : List Bytes
pfx_all = codes "--" ∷ codes "/" ∷ codes "-" ∷ []

abbrev pfx_slash_dash : List Bytes
pfx_slash_dash = codes "/" ∷ codes "-" ∷ []

-- Info::unknown
abbrev pub unknown_info : ℕ → Info
unknown_info id = unaliased_one pfx_none (codes "<unknown>") id OptionClass.unknown 0

-- Info::input
abbrev pub input_info : ℕ → Info
input_info id = unaliased_one pfx_none (codes "<input>") id OptionClass.input 0

-- Info::alias_of
abbrev pub alias_of : Info → ℕ → Option Bytes → Info
alias_of i origin_id alias_args = record i { alias_id = origin_id; alias_args = alias_args }
