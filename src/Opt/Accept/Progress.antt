-- ===== src/Opt/Accept/Progress.antt =====
-- common/option/option.cc: theorems about the index that accept leaves.
use catter.Prelude.{
  ℕ, ◌≤◌, ◌<◌, ◌≡◌, refl, Bool, true, false, Option, none, some, List, [], ◌∷◌, ◌==◌, if◌then◌else◌,
  Bytes, length, drop, arith, length-drop, length-take, length-append, ◌+◌,
}
use catter.Opt.{OnOk-if, OnOk-bind, OnOk-all, Checked, ok, ◌>>=◌, add32, sub32, OnOk, Fits}
use catter.Opt.Info.{OptionClass, Info}
use catter.Opt.Table.{OptTable, make_option, option, is_flag}
use catter.Opt.Argument.{array, ParsedArgument, argument, to_spelling_array}
use catter.Opt.Accept.{
  Accepted, accept_internal, accept, finish_accept, unalias, until_empty, addition_of, kind_of,
  arg_at, taken, take_next, take_many, take_remaining, is_exact, joined_value,
}

-- What is said of an accepted argument by its index and the number of its values, and of the index
-- after it.
abbrev pub At : (Option (ℕ × ℕ) → ℕ → Type 0) → Accepted → Type 0
At P (none, next) = P none next
At P (some a, next) = P (some (a.index, length a.values)) next

-- An argument that is taken at the index, and an index behind it that is within argv and passes no
-- more entries than the argument and its values.
abbrev Moves : List Bytes → ℕ → Option (ℕ × ℕ) → ℕ → Type 0
Moves argv index none next = Unit
Moves argv index (some (at, n)) next =
    (index < next) × (next ≤ length argv) × (at ≡ index) × (next ≤ index + 1 + n)

abbrev pub Advances : List Bytes → ℕ → Accepted → Type 0
Advances argv index = At (Moves argv index)

-- An argument that leaves the index.
abbrev pub Stays : ℕ → Option (ℕ × ℕ) → ℕ → Type 0
Stays index none next = next ≡ index
Stays index (some (at, n)) next = (next ≡ index) × (at ≡ index)

length-until_empty : (args : List Bytes) → length (until_empty args) ≤ length args
unfolding until_empty
length-until_empty [] = omega arith
length-until_empty (a ∷ args) = ground (arith, length-until_empty args)

pub if-Advances :
    (args : List Bytes) (index : ℕ) (b : Bool) (x y : Accepted)
    → Advances args index x
    → Advances args index y
    → Advances args index (if b then x else y)
if-Advances args index true x y h k = h
if-Advances args index false x y h k = k

module _ (id num_args : ℕ) (args : List Bytes) (spelling : Bytes) (index : ℕ)
    (small : num_args < 256) (fits : Fits (length args)) (inside : index < length args) where
  take_next-Advances :
      (first : List Bytes) → Advances args index (take_next id num_args args spelling index first)
  take_next-Advances first =
      let next = add32 index 2 in
      let more = length-append first (arg_at args (sub32 next 1) ∷ []) in ground (arith, more)

  take_many-Advances : Advances args index (take_many id num_args args spelling index)
  take_many-Advances =
      let next = add32 index (1 + num_args) in
      let behind = drop (sub32 next num_args) args in
      ground (arith, length-take num_args behind, length-drop (sub32 next num_args) args)

  take_remaining-Advances :
      (first : List Bytes)
      → Advances args index (take_remaining id num_args args spelling index first)
  take_remaining-Advances first = omega (
    arith,
    length-append first (until_empty (drop (add32 index 1) args)),
    length-until_empty (drop (add32 index 1) args),
    length-drop (add32 index 1) args,
  )

  one-Advances :
      (values : List Bytes)
      → Advances args index (taken id num_args args spelling index values index (add32 index 1))
  one-Advances values = omega arith

  accept_internal-Advances :
      (kind : OptionClass)
      → OnOk (Advances args index) (accept_internal id num_args args spelling index kind)
  unfolding accept_internal
  accept_internal-Advances OptionClass.flag = ground arith
  accept_internal-Advances OptionClass.joined = ground arith
  accept_internal-Advances OptionClass.comma_joined = ground arith
  accept_internal-Advances OptionClass.separate = ground (arith, take_next-Advances [])
  accept_internal-Advances OptionClass.multi_arg = ground (arith, take_many-Advances)
  accept_internal-Advances OptionClass.joined_or_separate = ground (arith, take_next-Advances [])
  accept_internal-Advances OptionClass.joined_and_separate =
      take_next-Advances (joined_value id id args spelling index ∷ [])
  accept_internal-Advances OptionClass.remaining_args = ground (arith, take_remaining-Advances [])
  accept_internal-Advances OptionClass.remaining_args_joined =
      if-Advances args index (is_exact id id args spelling index)
        (take_remaining id num_args args spelling index [])
        (take_remaining id num_args args spelling index
          (joined_value id id args spelling index ∷ []))
        (take_remaining-Advances [])
        (take_remaining-Advances (joined_value id id args spelling index ∷ []))
  accept_internal-Advances _ = tt

-- The index and the values of an argument.
abbrev Keeps : ParsedArgument → ParsedArgument → Type 0
Keeps a a' = (a'.index ≡ a.index) × (a'.values ≡ a.values)

unalias-index :
    (t : OptTable) (i target : Info) (a : ParsedArgument) → OnOk (Keeps a) (unalias t i target a)
unalias-index t i target a =
    OnOk-if (Keeps a) (is_flag i.kind)
      (addition_of i.alias_args kind >>= λ addition. ok (add addition))
      (ok (record a { unaliased_option_id = some target.id }))
      (λ flag.
        OnOk-bind (λ v. Unit) (Keeps a) (addition_of i.alias_args kind)
          (λ addition. ok (add addition))
          (OnOk-all (λ v. Unit) (addition_of i.alias_args kind) (λ v. tt)) (λ v h. (refl, refl)))
      (λ no_flag. (refl, refl))
  where
    kind : Checked OptionClass
    kind = option t target.id >>= kind_of

    add : Option (List Bytes) → ParsedArgument
    add addition = record a {
      unaliased_option_id = some target.id;
      unaliased_addition_values = addition;
    }

finish_accept-At :
    (t : OptTable) (P : Option (ℕ × ℕ) → ℕ → Type 0) (i : Info) (target : Option Info)
    (r : Accepted)
    → At P r
    → OnOk (At P) (finish_accept t i target r)
finish_accept-At t P i none (none, next) h = h
finish_accept-At t P i (some target) (none, next) h = h
finish_accept-At t P i none (some a, next) h = h
finish_accept-At t P i (some target) (some a, next) h =
    OnOk-if (At P) (i.id == target.id) (ok (some a, next))
      (unalias t i target a >>= λ a'. ok (some a', next)) (λ same. h)
      (λ other.
        OnOk-bind (Keeps a) (At P) (unalias t i target a) (λ a'. ok (some a', next))
          (unalias-index t i target a) (λ a' e. rw (e.0, e.1) h))

pub accept-Advances :
    (t : OptTable) (i : Info) (args : List Bytes) (spelling : Bytes) (index : ℕ)
    → i.param < 256
    → Fits (length args)
    → index < length args
    → OnOk (Advances args index) (accept t i args spelling false index)
unfolding accept
accept-Advances t i args spelling index small fits inside =
    OnOk-bind (λ target. Unit) (Advances args index) (make_option t i)
      (λ target.
        accept_internal i.id i.param args spelling index i.kind >>= finish_accept t i target)
      (OnOk-all (λ target. Unit) (make_option t i) (λ target. tt))
      (λ target h.
        OnOk-bind (Advances args index) (Advances args index)
          (accept_internal i.id i.param args spelling index i.kind) (finish_accept t i target)
          (accept_internal-Advances i.id i.param args spelling index small fits inside i.kind)
          (finish_accept-At t (Moves args index) i target))

pub accept-Stays :
    (t : OptTable) (i : Info) (args : List Bytes) (spelling : Bytes) (index : ℕ)
    → is_flag i.kind ≡ true
    → OnOk (At (Stays index)) (accept t i args spelling true index)
unfolding accept
accept-Stays t i args spelling index flag = rw (flag) (
    OnOk-bind (λ target. Unit) (At (Stays index)) (make_option t i)
      (λ target.
        finish_accept t i target
          (some (argument i.id (array (to_spelling_array spelling)) [] index), index))
      (OnOk-all (λ target. Unit) (make_option t i) (λ target. tt))
      (λ target h.
        finish_accept-At t (Stays index) i target
          (some (argument i.id (array (to_spelling_array spelling)) [] index), index) (refl, refl)))
