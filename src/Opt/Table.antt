-- ===== src/Opt/Table.antt =====
-- common/option/opt_table.{h,cc}: OptTable, its constructor, its settings and its look-ups; and the
-- constructor of Option in option.cc. An Option is its Info, or nothing where it is not valid.
use catter.Prelude.{
  ℕ, zero, suc, ◌+◌, Bool, true, false, not, Option, none, some, List, [], ◌∷◌, ◌&&◌, ◌==◌,
  if◌then◌else◌, Bytes, drop, get_elem?,
}
use catter.Opt.{assertion, Checked, ok, fault, ◌>>=◌, assert}
use catter.Opt.Text.{Sign, zero_sign, negative, positive, compare, char_lt}
use catter.Opt.Info.{OptionClass, Info, name, first_prefix}

pub record OptTable : Type 0 where
  pub option_infos : List Info
  pub ignore_case : Bool
  pub grouped_short_options : Bool
  pub dash_dash_parsing : Bool
  pub dash_dash_as_single_pack : Bool
  pub env_var : Option Bytes
  pub input_option_id : ℕ
  pub unknown_option_id : ℕ
  pub tablegen_mode : Bool
  pub first_searchable_index : ℕ
  pub prefixes_union : List Bytes
  pub prefix_chars : List ℕ

-- std::set: insertion into a sorted list without duplicates.
abbrev insert_by : {A : Type 0} → (A → A → Sign) → A → List A → List A
insert_by compare a [] = a ∷ []
insert_by compare a (b ∷ s) =
    let rest = insert_by compare a s in
    elim (compare a b) [ negative ↦ a ∷ b ∷ s | zero_sign ↦ b ∷ s | positive ↦ b ∷ rest ]

abbrev insert_all : {A : Type 0} → (A → A → Sign) → List A → List A → List A
insert_all compare [] s = s
insert_all compare (a ∷ new) s = insert_all compare new (insert_by compare a s)

abbrev compare_char : ℕ → ℕ → Sign
compare_char a b = if a == b then zero_sign else if char_lt a b then negative else positive

-- The two loops over the infos and their prefixes.
unfoldable pub collect_prefixes : List Info → List Bytes → List Bytes
collect_prefixes [] s = s
collect_prefixes (i ∷ infos) s = collect_prefixes infos (insert_all compare i.prefixes s)

-- buildPrefixChars
unfoldable pub build_prefix_chars : List Bytes → List ℕ → List ℕ
build_prefix_chars [] seen_chars = seen_chars
build_prefix_chars (p ∷ prefixes) seen_chars =
    build_prefix_chars prefixes (insert_all compare_char p seen_chars)

-- What the loop of the constructor sets.
pub record Special : Type 0 where
  pub input_option_id : ℕ
  pub unknown_option_id : ℕ
  pub first_searchable_index : ℕ

-- One round, where `scan` is the rounds that follow.
abbrev scan_kind : (Special → Checked Special) → OptionClass → ℕ → ℕ → Special → Checked Special
scan_kind scan OptionClass.input i id s =
    assert (s.input_option_id == 0) >>= λ _. scan (record s { input_option_id = id })
scan_kind scan OptionClass.unknown i id s =
    assert (s.unknown_option_id == 0) >>= λ _. scan (record s { unknown_option_id = id })
scan_kind scan OptionClass.group i id s = scan s
scan_kind scan _ i id s = ok (record s { first_searchable_index = i })

unfoldable pub scan_infos : List Info → ℕ → Special → Checked Special
scan_infos [] i s = ok s
scan_infos (info ∷ infos) i s = scan_kind (scan_infos infos (i + 1)) info.kind i info.id s

abbrev union_or : List Bytes → List Bytes → List Bytes
union_or [] computed = computed
union_or (p ∷ given) computed = p ∷ given

abbrev table_of : List Info → Bool → List Bytes → Special → OptTable
table_of option_infos ignore_case prefixes_union s =
    let prefixes =
      union_or prefixes_union (collect_prefixes (drop s.first_searchable_index option_infos) []) in
    record {
      option_infos = option_infos;
      ignore_case = ignore_case;
      grouped_short_options = false;
      dash_dash_parsing = false;
      dash_dash_as_single_pack = false;
      env_var = none;
      input_option_id = s.input_option_id;
      unknown_option_id = s.unknown_option_id;
      tablegen_mode = false;
      first_searchable_index = s.first_searchable_index;
      prefixes_union = prefixes;
      prefix_chars = build_prefix_chars prefixes [];
    }

-- OptTable::OptTable
unfoldable pub make_table : List Info → Bool → List Bytes → Checked OptTable
make_table option_infos ignore_case prefixes_union =
    scan_infos option_infos 0
      (record { input_option_id = 0; unknown_option_id = 0; first_searchable_index = 0 })
    >>= λ s. ok (table_of option_infos ignore_case prefixes_union s)

abbrev set_initial_options_from_environment : Option Bytes → OptTable → OptTable
set_initial_options_from_environment e t = record t { env_var = e }

abbrev pub set_grouped_short_options : Bool → OptTable → OptTable
set_grouped_short_options value t = record t { grouped_short_options = value }

abbrev pub set_dash_dash_parsing : Bool → OptTable → OptTable
set_dash_dash_parsing value t = record t { dash_dash_parsing = value }

abbrev pub set_dash_dash_as_single_pack : Bool → OptTable → OptTable
set_dash_dash_as_single_pack value t = record t { dash_dash_as_single_pack = value }

abbrev pub set_tablegen_mode : Bool → OptTable → OptTable
set_tablegen_mode value t = record t { tablegen_mode = value }

abbrev set_ignore_case : Bool → OptTable → OptTable
set_ignore_case value t = record t { ignore_case = value }

-- `assert(id > 0 && id - 1 < num_options())`, and the entry.
abbrev found_info : Option Info → Checked Info
found_info none = fault assertion
found_info (some i) = ok i

abbrev info_at : List Info → ℕ → Checked Info
info_at infos zero = fault assertion
info_at infos (suc n) = found_info (get_elem? infos n)

unfoldable pub info : OptTable → ℕ → Checked Info
info t id = info_at t.option_infos id

-- Info of an alias, which must not be an alias itself, nor have arguments.
abbrev check_target : Info → Checked Info
check_target target = assert (target.alias_id == 0) >>= λ _. elim target.alias_args [
  | none ↦ ok target
  | some args ↦ fault assertion
]

abbrev pub is_flag : OptionClass → Bool
is_flag OptionClass.flag = true
is_flag _ = false

-- alias(), and what the construction of that Option asserts. An alias of an alias fails the first
-- assert here, where the code fails it on the way back from constructing the chain.
abbrev alias_at : OptTable → ℕ → Checked (Option Info)
alias_at t zero = ok none
alias_at t (suc n) = info t (suc n) >>= λ i. check_target i >>= λ target. ok (some target)

-- alias_args(), whose text must not be empty.
abbrev starts_nonzero : Bytes → Bool
starts_nonzero [] = false
starts_nonzero (c ∷ s) = not (c == 0)

abbrev check_alias_args : Info → Option Bytes → Option Info → Checked (Option Info)
check_alias_args i none target = ok target
check_alias_args i (some args) none = fault assertion
check_alias_args i (some args) (some target) =
    assert (starts_nonzero args && (is_flag i.kind && not (is_flag target.kind))) >>= λ _.
    ok (some target)

-- Option::Option, which gives the Option's alias.
unfoldable pub make_option : OptTable → Info → Checked (Option Info)
make_option t i = alias_at t i.alias_id >>= check_alias_args i i.alias_args

-- OptTable::option
unfoldable pub option : OptTable → ℕ → Checked (Option Info)
option t zero = ok none
option t (suc n) = info t (suc n) >>= λ i. make_option t i >>= λ _. ok (some i)

-- Option::unaliased_option, where `target` is the alias
abbrev pub unaliased_option : Info → Option Info → Info
unaliased_option i none = i
unaliased_option i (some target) = target

-- option_prefix, option_name
unfoldable option_prefix : OptTable → ℕ → Checked Bytes
option_prefix t id = info t id >>= λ i. ok (first_prefix i.prefixes)

unfoldable option_name : OptTable → ℕ → Checked Bytes
option_name t id = info t id >>= λ i. ok (name i)
