-- ===== src/Opt/Argument.antt =====
-- common/option/parsed_arg.h: a parsed argument. A string_view is the bytes that it shows.
use catter.Prelude.{
  ℕ, ◌-◌, Option, none, some, List, [], ◌∷◌, ◌++◌, leb, if◌then◌else◌, Bytes, length, take,
  replicate,
}
use catter.Launch.{c_str}
use catter.Opt.{assertion, Checked, ok, fault}
use catter.Opt.Info.{RenderStyleKind}

-- variant<string_view, array<char, 8>>
pub data Spelling : Type 0 where
  view : Bytes → Spelling
  array : Bytes → Spelling

pub record ParsedArgument : Type 0 where
  pub option_id : ℕ
  pub spelling : Spelling
  pub values : List Bytes
  pub index : ℕ
  pub unaliased_option_id : Option ℕ
  pub unaliased_addition_values : Option (List Bytes)

-- The initialisers of the parser, which leave the last two fields at nullopt.
abbrev pub argument : ℕ → Spelling → List Bytes → ℕ → ParsedArgument
argument option_id spelling values index = record {
  option_id = option_id;
  spelling = spelling;
  values = values;
  index = index;
  unaliased_option_id = none;
  unaliased_addition_values = none;
}

-- The array is zero before the copy.
unfoldable pub to_spelling_array : Bytes → Bytes
to_spelling_array str =
    if leb 8 (length str) then take 7 str ++ 0 ∷ [] else str ++ replicate (8 - length str) 0

unfoldable pub get_spelling_view : Spelling → Bytes
get_spelling_view (view s) = s
get_spelling_view (array a) = c_str a

-- `for(val: values) o << mark << val`
unfoldable pub write_values : ℕ → List Bytes → Bytes
write_values mark [] = []
write_values mark (v ∷ values) = mark ∷ v ++ write_values mark values

abbrev pub first_value : Bytes → List Bytes → Checked Bytes
first_value spelling [] = fault assertion
first_value spelling (v ∷ values) = ok (spelling ++ v)

unfoldable pub to_arg_str : ParsedArgument → RenderStyleKind → Checked Bytes
to_arg_str a RenderStyleKind.render_comma_joined =
    ok (get_spelling_view a.spelling ++ write_values (b',') a.values)
to_arg_str a RenderStyleKind.render_joined = first_value (get_spelling_view a.spelling) a.values
to_arg_str a RenderStyleKind.render_separate =
    ok (get_spelling_view a.spelling ++ write_values (b' ') a.values)
to_arg_str a RenderStyleKind.render_values = ok (get_spelling_view a.spelling)

abbrev or_id : Option ℕ → ℕ → ℕ
or_id none id = id
or_id (some unaliased) id = unaliased

unfoldable unaliased_opt : ParsedArgument → ℕ
unaliased_opt a = or_id a.unaliased_option_id a.option_id

abbrev with_addition : List Bytes → Option (List Bytes) → List Bytes
with_addition values none = values
with_addition values (some addition_vals) = values ++ addition_vals

unfoldable unaliased_values : ParsedArgument → List Bytes
unaliased_values a = with_addition a.values a.unaliased_addition_values

-- ParsedArgumentOwning, and from_parsed_argument
pub record ParsedArgumentOwning : Type 0 where
  pub option_id : ℕ
  pub spelling : Bytes
  pub values : List Bytes
  pub index : ℕ
  pub unaliased_option_id : Option ℕ
  pub unaliased_addition_values : Option (List Bytes)

unfoldable from_parsed_argument : ParsedArgument → ParsedArgumentOwning
from_parsed_argument arg = record {
  option_id = arg.option_id;
  spelling = get_spelling_view arg.spelling;
  values = arg.values;
  index = arg.index;
  unaliased_option_id = arg.unaliased_option_id;
  unaliased_addition_values = arg.unaliased_addition_values;
}
