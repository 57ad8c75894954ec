-- ===== src/Opt/Parse/Reading.antt =====
-- common/opt-data with common/option/opt_table.cc: what a table without grouped options makes of an
-- argv, as a plain recursion over the words.
use catter.Prelude.{
  ℕ, suc, Bool, Option, none, some, List, [], ◌∷◌, if◌then◌else◌, Bytes, codes, bytes_eq, is_empty,
}
use catter.Opt.Parse.{Parsed, stop, emit, finished, missing, failed}
use catter.Opt.{assertion}
use catter.Opt.Argument.{ParsedArgument, argument, view}
use catter.Opt.Accept.{Accepted}

-- A word that is an argument by itself, with what it is an alias of, or one that takes the next.
pub data Word : Type 0 where
  plain : ℕ → Option ℕ → Word
  takes_next : ℕ → Word

abbrev pub plain_argument : ℕ → Option ℕ → Bytes → ℕ → ParsedArgument
plain_argument id alias w i = record (argument id (view w) [] i) { unaliased_option_id = alias }

-- The words behind "--", from their position on.
abbrev pub inputs : ℕ → ℕ → List Bytes → List ParsedArgument
inputs input i [] = []
inputs input i (w ∷ ws) = argument input (view w) [] i ∷ inputs input (suc i) ws

-- An empty value: the parser takes it for a missing one, and its assert wants that to be the last.
abbrev pub no_value : List Bytes → ℕ → List Bytes → Parsed
no_value argv i [] = stop argv (missing i 1)
no_value argv i (w ∷ ws) = stop argv (failed assertion)

abbrev pub word_read : Word → Bytes → ℕ → Parsed → (ℕ → Parsed) → Parsed
word_read (plain id alias) w i next value = emit (plain_argument id alias w i) next
word_read (takes_next id) w i next value = value id

module _ (classify : Bytes → Word) (input : ℕ) (pack : Bool) (argv : List Bytes) where
  abbrev pub behind : ℕ → List Bytes → Parsed
  behind i ws = record {
    args = if pack then argument input (view (codes "--")) ws i ∷ [] else inputs input (suc i) ws;
    ending = finished;
    argv = argv;
  }

  -- One word at `i`, where `next` is the reading from the next word on and `value` the one that
  -- takes the next word.
  abbrev pub read_word : ℕ → Bytes → List Bytes → Parsed → (ℕ → Parsed) → Parsed
  read_word i w ws next value =
      if is_empty w
      then next
      else if bytes_eq w (codes "--")
      then behind i ws
      else word_read (classify w) w i next value

  unfoldable pub read : ℕ → List Bytes → Parsed
  read i [] = stop argv finished
  read i (w ∷ []) = read_word i w [] (stop argv finished) (λ id. stop argv (missing i 1))
  read i (w ∷ v ∷ ws) =
      let next = read (suc i) (v ∷ ws) in
      let after = read (suc (suc i)) ws in
      read_word i w (v ∷ ws) next (λ id.
        if is_empty v then no_value argv i ws else emit (argument id (view w) (v ∷ []) i) after)

-- What parse_one gives for a word.
abbrev pub outcome : Word → Bytes → List Bytes → ℕ → Accepted
outcome (plain id alias) w ws i = (some (plain_argument id alias w i), suc i)
outcome (takes_next id) w [] i = (none, suc (suc i))
outcome (takes_next id) w (v ∷ ws) i =
    if is_empty v
    then (none, suc (suc i))
    else (some (argument id (view w) (v ∷ []) i), suc (suc i))
