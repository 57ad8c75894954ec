-- ===== src/Opt/Parse/Exact.antt =====
-- common/option/opt_table.cc with option.cc: theorems about the search for options that take a whole
-- word, FlagClass and SeparateClass.
use catter.Prelude.{
  ℕ, suc, ◌+◌, ◌<◌, ◌≡◌, ◌≢◌, refl, ap, ap₂, ◌∙◌, Bool, true, false, Option, none, some, List, [],
  ◌∷◌, ltb, ◌==◌, if◌then◌else◌, Bytes, length, drop, take, arith, length-drop, Bool-cases, inl,
  inr, ◌⊎◌, if-eq_true, if-eq_false, ◌||◌, if-eq_if, lt→ltb, is_empty,
}
use catter.Opt.{Checked, ok, ◌>>=◌, Fits, add32, sub32}
use catter.Opt.Table.{OptTable, make_option}
use catter.Opt.Info.{Info, OptionClass}
use catter.Opt.Argument.{argument, view}
use catter.Opt.Accept.{Accepted, arg_at, accept, accept_internal, finish_accept, taken, take_next}
use catter.Opt.Match.{match_opt}
use catter.Opt.ParseOne.{Search, returned, search, after_accept}
use catter.Opt.Parse.Reading.{outcome, Word, plain, takes_next}
use catter.Opt.Parse.Rounds.{drop-eq_cons}
use catter.Opt.Parse.Prefixed.{take-all, length-take_lt, finish_accept-unaliased, needs_exact}

module _ (t : OptTable) (exclude_option : Info → Bool) (argv : List Bytes) (index : ℕ) (w : Bytes)
    (ws : List Bytes) (at : drop index argv ≡ w ∷ ws) (fits : Fits (length argv)) where
  here : arg_at argv index ≡ w
  here = (drop-eq_cons argv index at).0

  inside : index < length argv
  inside = (drop-eq_cons argv index at).2

  same_length : (n : ℕ) → (n == n) ≡ true
  same_length n = ground arith

  pick-inexact :
      (spelling : Bytes) (x y : Accepted)
      → (length spelling == length w) ≡ false
      → (if length spelling == length (arg_at argv index) then x else y) ≡ y
  pick-inexact spelling x y e =
      if-eq_false (length spelling == length (arg_at argv index)) x y
        (ap (λ s. length spelling == length s) here ∙ e)

  pick-exact : (x y : Accepted) → (if length w == length (arg_at argv index) then x else y) ≡ x
  pick-exact x y =
      if-eq_true (length w == length (arg_at argv index)) x y
        (ap (λ s. length w == length s) here ∙ same_length (length w))

  after_accept-moved :
      (next : Checked Search) (a : Accepted)
      → a.1 ≢ index
      → after_accept index next a ≡ ok (returned a)
  after_accept-moved next (some a, n) moved = refl
  after_accept-moved next (none, n) moved =
      if-eq_false (index == n) next (ok (returned (none, n))) (ground arith)

  accept_internal-inexact :
      (id num_args : ℕ) (spelling : Bytes) (kind : OptionClass)
      → needs_exact kind ≡ true
      → (length spelling == length w) ≡ false
      → accept_internal id num_args argv spelling index kind ≡ ok (none, index)
  unfolding accept_internal
  accept_internal-inexact id num_args spelling OptionClass.flag k e =
      ap ok (pick-inexact spelling _ _ e)
  accept_internal-inexact id num_args spelling OptionClass.separate k e =
      ap ok (pick-inexact spelling _ _ e)
  accept_internal-inexact id num_args spelling _ k e = cc

  accept-inexact :
      (i : Info) (target : Option Info) (spelling : Bytes)
      → needs_exact i.kind ≡ true
      → make_option t i ≡ ok target
      → (length spelling == length w) ≡ false
      → accept t i argv spelling false index ≡ ok (none, index)
  unfolding accept
  accept-inexact i target spelling k made e =
      ap
        (λ r. r >>= λ target'.
          accept_internal i.id i.param argv spelling index i.kind >>= finish_accept t i target')
        made
      ∙ ap (λ r. r >>= finish_accept t i target)
          (accept_internal-inexact i.id i.param spelling i.kind k e)

  pub search-skip :
      (i : Info) (infos : List Info) (target : Option Info)
      → needs_exact i.kind ≡ true
      → make_option t i ≡ ok target
      → (match_opt i w t.ignore_case ≡ 0) ⊎ (match_opt i w t.ignore_case < length w)
      → search t exclude_option argv index (i ∷ infos) ≡ search t exclude_option argv index infos
  unfolding search
  search-skip i infos target k made m = elim (Bool-cases (match_opt i str t.ignore_case == 0)) [
    | inl none_matches ↦ if-eq_true (match_opt i str t.ignore_case == 0) _ _ none_matches
    | inr some_match ↦
        if-eq_false (match_opt i str t.ignore_case == 0) _ _ some_match
        ∙ ap (λ r. r >>= λ _. (if exclude_option i then next else tried)) made
        ∙ round-skip some_match
  ]
    where
      str : Bytes
      str = arg_at argv index

      spelling : Bytes
      spelling = take (match_opt i str t.ignore_case) str

      next : Checked Search
      next = search t exclude_option argv index infos

      tried : Checked Search
      tried = accept t i argv spelling false index >>= after_accept index next

      shorter : (match_opt i str t.ignore_case == 0) ≡ false → (length spelling == length w) ≡ false
      shorter some_match =
          ap (λ s. length (take (match_opt i s t.ignore_case) s) == length w) here ∙ elim m [
            | inl zero_match ↦ absurd (ground (arith, ap (λ s. match_opt i s t.ignore_case) here))
            | inr lt ↦ length-take_lt (match_opt i w t.ignore_case) w lt
          ]

      round-skip :
          (match_opt i str t.ignore_case == 0) ≡ false
          → (if exclude_option i then next else tried) ≡ next
      round-skip some_match = elim (Bool-cases (exclude_option i)) [
        | inl hidden ↦ if-eq_true (exclude_option i) next tried hidden
        | inr shown ↦
            if-eq_false (exclude_option i) next tried shown
            ∙ ap (λ r. r >>= after_accept index next)
                (accept-inexact i target spelling k made (shorter some_match))
            ∙ if-eq_true (index == index) next _ (same_length index)
      ]

  pub search-hit :
      (i : Info) (infos : List Info) (target : Option Info) (a : Accepted)
      → make_option t i ≡ ok target
      → exclude_option i ≡ false
      → match_opt i w t.ignore_case ≡ length w
      → 0 < length w
      → accept t i argv w false index ≡ ok a
      → a.1 ≢ index
      → search t exclude_option argv index (i ∷ infos) ≡ ok (returned a)
  unfolding search
  search-hit i infos target a made shown m full accepted moved =
      if-eq_false (match_opt i str t.ignore_case == 0) _ _ some_match
      ∙ ap (λ r. r >>= λ _. (if exclude_option i then next else tried spelling)) made
      ∙ if-eq_false (exclude_option i) next (tried spelling) shown
      ∙ ap tried whole_word
      ∙ ap (λ r. r >>= after_accept index next) accepted
      ∙ after_accept-moved next a moved
    where
      str : Bytes
      str = arg_at argv index

      spelling : Bytes
      spelling = take (match_opt i str t.ignore_case) str

      next : Checked Search
      next = search t exclude_option argv index infos

      tried : Bytes → Checked Search
      tried = λ s. accept t i argv s false index >>= after_accept index next

      matched : match_opt i str t.ignore_case ≡ length w
      matched = ap (λ s. match_opt i s t.ignore_case) here ∙ m

      some_match : (match_opt i str t.ignore_case == 0) ≡ false
      some_match = ground (arith, matched)

      whole_word : spelling ≡ w
      whole_word = ap₂ take matched here ∙ take-all w

  pub accept-flag :
      (i : Info) (target : Option Info)
      → i.kind ≡ OptionClass.flag
      → make_option t i ≡ ok target
      → accept t i argv w false index
        ≡ finish_accept t i target (some (argument i.id (view w) [] index), suc index)
  unfolding accept accept_internal
  accept-flag i target k made =
      ap
        (λ r. r >>= λ target'.
          accept_internal i.id i.param argv w index i.kind >>= finish_accept t i target')
        made
      ∙ ap (λ k'. accept_internal i.id i.param argv w index k' >>= finish_accept t i target) k
      ∙ ap (finish_accept t i target) (
          pick-exact (taken i.id i.param argv w index [] index (add32 index 1)) (none, index)
          ∙ ap (λ n. (some (argument i.id (view w) [] index), n)) (omega (arith, inside)))

  two_on : add32 index 2 ≡ suc (suc index)
  two_on = omega (arith, inside)

  one_on : sub32 (add32 index 2) 1 ≡ suc index
  one_on = omega (arith, inside)

  back : sub32 (add32 index 2) 2 ≡ index
  back = omega (arith, inside)

  within_two :
      (n : ℕ) → length argv ≡ suc (suc index) + n → ltb (length argv) (add32 index 2) ≡ false
  within_two n e = ground arith

  take_next-outcome :
      (id num_args : ℕ) (ws : List Bytes)
      → drop index argv ≡ w ∷ ws
      → take_next id num_args argv w index [] ≡ outcome (takes_next id) w ws index
  take_next-outcome id num_args [] at' =
      if-eq_true
        (ltb (length argv) (add32 index 2) || is_empty (arg_at argv (sub32 (add32 index 2) 1))) _ _
        (ap (λ b. b || is_empty (arg_at argv (sub32 (add32 index 2) 1)))
          (lt→ltb (length argv) (add32 index 2)
            (omega (arith, two_on, length-drop index argv, ap length at'))))
      ∙ ap (λ n. (none, n)) two_on
  take_next-outcome id num_args (v ∷ ws) at' =
      let (second, rest, within) = drop-eq_cons argv (suc index) (drop-eq_cons argv index at').1 in
      ap
        (λ b.
          if b
          then (none, add32 index 2)
          else taken id num_args argv w index (arg_at argv (sub32 (add32 index 2) 1) ∷ [])
              (sub32 (add32 index 2) 2) (add32 index 2))
        (ap₂ ◌||◌ (within_two (length ws) (omega (arith, length-drop index argv, ap length at')))
          (ap (λ n. is_empty (arg_at argv n)) one_on ∙ ap is_empty second))
      ∙ if-eq_if (is_empty v) (ap (λ n. (none, n)) two_on) (λ j. (
        some (argument id (view w) ((ap (arg_at argv) one_on ∙ second) j ∷ []) (back j)),
        two_on j,
      ))

  pub accept-separate :
      (i : Info)
      → i.kind ≡ OptionClass.separate
      → make_option t i ≡ ok none
      → accept t i argv w false index ≡ ok (outcome (takes_next i.id) w ws index)
  unfolding accept accept_internal
  accept-separate i k made =
      ap
        (λ r. r >>= λ target'.
          accept_internal i.id i.param argv w index i.kind >>= finish_accept t i target')
        made
      ∙ ap (λ k'. accept_internal i.id i.param argv w index k' >>= finish_accept t i none) k
      ∙ ap (finish_accept t i none) (
          pick-exact (take_next i.id i.param argv w index []) (none, index)
          ∙ take_next-outcome i.id i.param ws at)
      ∙ finish_accept-unaliased t i (outcome (takes_next i.id) w ws index)

pub outcome-moved : (c : Word) (w : Bytes) (ws : List Bytes) (i : ℕ) → (outcome c w ws i).1 ≢ i
outcome-moved (plain id alias) w ws i = omega arith
outcome-moved (takes_next id) w [] i = omega arith
outcome-moved (takes_next id) w (v ∷ ws) i = ground arith
