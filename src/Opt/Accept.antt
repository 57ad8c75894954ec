-- ===== src/Opt/Accept.antt =====
-- common/option/option.{h,cc}: how an option takes its arguments, Option::accept_internal and
-- Option::accept, and how it is rendered. The index is an unsigned, and a call returns its new value.
use catter.Prelude.{
  ℕ, zero, suc, ◌+◌, ◌-◌, Bool, true, false, not, Option, none, some, List, [], ◌∷◌, ◌++◌, ◌&&◌,
  ◌||◌, ltb, leb, ◌==◌, if◌then◌else◌, Bytes, length, take, drop, get_or, is_empty,
}
pub mod Progress
use Prim.Native.Nat.{bit_and}
use catter.Opt.{
  Fault, assertion, unreachable, read_past_end, Checked, ok, fault, ◌>>=◌, add32, sub32,
}
use catter.Opt.Info.{OptionClass, RenderStyleKind, Info}
use catter.Opt.Table.{OptTable, info, make_option, unaliased_option, option, is_flag}
use catter.Opt.Argument.{Spelling, view, array, ParsedArgument, argument, to_spelling_array}

-- `args[i]`, for an i below the size
abbrev pub arg_at : List Bytes → ℕ → Bytes
arg_at args i = get_or args i []

abbrev pub cons_head : ℕ → List Bytes → List Bytes
cons_head c [] = (c ∷ []) ∷ []
cons_head c (p ∷ ps) = (c ∷ p) ∷ ps

-- std::views::split at commas
unfoldable pub split_commas : Bytes → List Bytes
split_commas [] = [] ∷ []
split_commas (c ∷ s) =
    let rest = split_commas s in if c == b',' then [] ∷ rest else cons_head c rest

-- The filter of the non-empty parts.
unfoldable pub non_empty : List Bytes → List Bytes
non_empty [] = []
non_empty (p ∷ ps) = let rest = non_empty ps in if is_empty p then rest else p ∷ rest

-- `while(index < args.size() && !args[index].empty())`, on the arguments from the index on
unfoldable pub until_empty : List Bytes → List Bytes
until_empty [] = []
until_empty (a ∷ args) = let rest = until_empty args in if is_empty a then [] else a ∷ rest

-- What accept returns, with the index.
abbrev pub Accepted : Type 0
Accepted = Option ParsedArgument × ℕ

module _ (id : ℕ) (num_args : ℕ) (args : List Bytes) (spelling : Bytes) (index : ℕ) where
  -- An argument at the index that `values` came from, and the index after it.
  abbrev pub taken : List Bytes → ℕ → ℕ → Accepted
  taken values at next = (some (argument id (view spelling) values at), next)

  abbrev pub is_exact : Bool
  is_exact = length spelling == length (arg_at args index)

  -- The rest of the argument behind the spelling.
  abbrev pub joined_value : Bytes
  joined_value = drop (length spelling) (arg_at args index)

  -- `index += 2`, and the test of the argument that this passes.
  abbrev pub take_next : List Bytes → Accepted
  take_next first =
      let next = add32 index 2 in
      if ltb (length args) next || is_empty (arg_at args (sub32 next 1))
      then (none, next)
      else taken (first ++ arg_at args (sub32 next 1) ∷ []) (sub32 next 2) next

  abbrev pub take_joined : Accepted
  take_joined = taken (joined_value ∷ []) index (add32 index 1)

  abbrev pub take_many : Accepted
  take_many =
      let next = add32 index (1 + num_args) in
      if ltb (length args) next
      then (none, next)
      else taken (take num_args (drop (sub32 next num_args) args)) (sub32 next (1 + num_args)) next

  abbrev pub take_remaining : List Bytes → Accepted
  take_remaining first =
      let more = until_empty (drop (add32 index 1) args) in
      taken (first ++ more) index (add32 (add32 index 1) (length more))

  -- Option::accept_internal
  unfoldable pub accept_internal : OptionClass → Checked Accepted
  accept_internal OptionClass.flag =
      ok (if is_exact then taken [] index (add32 index 1) else (none, index))
  accept_internal OptionClass.joined = ok take_joined
  accept_internal OptionClass.comma_joined =
      ok (taken (non_empty (split_commas joined_value)) index (add32 index 1))
  accept_internal OptionClass.separate = ok (if is_exact then take_next [] else (none, index))
  accept_internal OptionClass.multi_arg = ok (if is_exact then take_many else (none, index))
  accept_internal OptionClass.joined_or_separate =
      ok (if is_exact then take_next [] else take_joined)
  accept_internal OptionClass.joined_and_separate = ok (take_next (joined_value ∷ []))
  accept_internal OptionClass.remaining_args =
      ok (if is_exact then take_remaining [] else (none, index))
  accept_internal OptionClass.remaining_args_joined =
      ok (if is_exact then take_remaining [] else take_remaining (joined_value ∷ []))
  accept_internal OptionClass.group = fault unreachable
  accept_internal OptionClass.input = fault unreachable
  accept_internal OptionClass.unknown = fault unreachable
  accept_internal OptionClass.values = fault unreachable

-- The loop over alias_args: strings with a 0 behind each, and an empty one at the end. `cur` is
-- the string that is being read, backwards from its first byte.
abbrev cons_string : Bytes → Checked (List Bytes) → Checked (List Bytes)
cons_string s r = r >>= λ strings. ok (s ∷ strings)

unfoldable pub alias_strings : Bytes → Bytes → Checked (List Bytes)
alias_strings cur [] = fault read_past_end
alias_strings cur (c ∷ memory) =
    let end = (if is_empty cur then ok [] else cons_string cur (alias_strings [] memory)) in
    let more = alias_strings (cur ++ c ∷ []) memory in if c == 0 then end else more

abbrev is_joined : OptionClass → Bool
is_joined OptionClass.joined = true
is_joined _ = false

-- kind() of an Option, which must be valid.
abbrev pub kind_of : Option Info → Checked OptionClass
kind_of none = fault assertion
kind_of (some i) = ok i.kind

-- The additional values of an alias that is a flag; the kind is the one that the table has for the
-- option that it stands for.
abbrev pub addition_of : Option Bytes → Checked OptionClass → Checked (Option (List Bytes))
addition_of (some alias_args) kind =
    alias_strings [] (alias_args ++ 0 ∷ []) >>= λ strings. kind >>= λ _. ok (some strings)
addition_of none kind = kind >>= λ k. ok (if is_joined k then some ([] ∷ []) else none)

-- The end of accept, for an argument `a` of an option `i` that is an alias of `target`.
abbrev pub unalias : OptTable → Info → Info → ParsedArgument → Checked ParsedArgument
unalias t i target a =
    let a' : ParsedArgument = record a { unaliased_option_id = some target.id } in
    if is_flag i.kind
    then (addition_of i.alias_args (option t target.id >>= kind_of) >>= λ addition.
        ok (record a' { unaliased_addition_values = addition }))
    else ok a'

-- `if(!a) return nullopt`, and what follows.
abbrev pub finish_accept : OptTable → Info → Option Info → Accepted → Checked Accepted
finish_accept t i target (none, index) = ok (none, index)
finish_accept t i none (some a, index) = ok (some a, index)
finish_accept t i (some target) (some a, index) =
    if i.id == target.id
    then ok (some a, index)
    else unalias t i target a >>= λ a'. ok (some a', index)

-- Option::accept, of the Option that `i` makes
unfoldable pub accept : OptTable → Info → List Bytes → Bytes → Bool → ℕ → Checked Accepted
accept t i args spelling grouped_short_option index = make_option t i >>= λ target.
    (if grouped_short_option && is_flag i.kind
      then ok (some (argument i.id (array (to_spelling_array spelling)) [] index), index)
      else accept_internal i.id i.param args spelling index i.kind)
    >>= finish_accept t i target

-- Option::render_style; RenderJoined and RenderSeparate are bits 2 and 3 of the flags.
abbrev pub has_flag : ℕ → ℕ → Bool
has_flag flags val = not (bit_and flags val == 0)

unfoldable pub render_style : Info → RenderStyleKind
render_style i =
    if has_flag i.flags 4
    then RenderStyleKind.render_joined
    else if has_flag i.flags 8
    then RenderStyleKind.render_separate
    else elim i.kind [
      | OptionClass.group ↦ RenderStyleKind.render_values
      | OptionClass.input ↦ RenderStyleKind.render_values
      | OptionClass.unknown ↦ RenderStyleKind.render_values
      | OptionClass.joined ↦ RenderStyleKind.render_joined
      | OptionClass.joined_and_separate ↦ RenderStyleKind.render_joined
      | OptionClass.comma_joined ↦ RenderStyleKind.render_comma_joined
      | _ ↦ RenderStyleKind.render_separate
    ]
