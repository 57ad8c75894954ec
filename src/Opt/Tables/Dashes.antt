-- ===== src/Opt/Tables/Dashes.antt =====
-- common/option/opt_table.cc: theorems about internal_parse_one_arg with a table whose prefixes are
-- "-" and "--".
use catter.Prelude.{
  ℕ, ◌≡◌, refl, ap, ◌∙◌, sym, Bool, true, false, not, none, some, List, [], ◌∷◌, if◌then◌else◌,
  Bytes, codes, length, drop, arith, bytes_eq, starts_with, Bool-cases, inl, inr, if-eq_true,
  if-eq_false, ◌&&◌,
}
use catter.Opt.{Checked, ok, ◌>>=◌, Fits}
use catter.Opt.Table.{OptTable}
use catter.Opt.Info.{Info}
use catter.Opt.Argument.{argument, view}
use catter.Opt.Accept.{Accepted}
use catter.Opt.Match.{is_input, has_prefix}
use catter.Opt.ParseOne.{
  Search, exhausted, search, search_from, internal_parse_one_arg, not_found, whole,
  starts_with_slash,
}
use catter.Opt.Parse.Reading.{outcome, Word, plain}
use catter.Opt.Parse.Rounds.{drop-eq_cons}

abbrev pub dashes : List Bytes
dashes = codes "-" ∷ codes "--" ∷ []

-- What looks like an option: it begins with a dash, and is not the dash alone.
abbrev pub looks_like_option : Bytes → Bool
looks_like_option w = starts_with w (codes "-") && not (bytes_eq w (codes "-"))

has_prefix-dashes : (w : Bytes) → has_prefix dashes w ≡ starts_with w (codes "-")
unfolding has_prefix
has_prefix-dashes [] = refl
has_prefix-dashes (c ∷ []) = ground arith
has_prefix-dashes (c ∷ d ∷ w) = ground arith

is_input-dashes : (w : Bytes) → is_input dashes w ≡ ok (not (looks_like_option w))
unfolding is_input
is_input-dashes w = ground (arith, has_prefix-dashes w)

dash-slash : (w : Bytes) → looks_like_option w ≡ true → starts_with_slash w ≡ false
dash-slash [] h = ground arith
dash-slash (c ∷ w) h = ground arith

-- A word that no option takes.
abbrev pub other : OptTable → Bytes → Word
other t w =
    if looks_like_option w then plain t.unknown_option_id none else plain t.input_option_id none

module _ (t : OptTable) (exclude_option : Info → Bool) (prefixed : t.prefixes_union ≡ dashes)
    (argv : List Bytes) (fits : Fits (length argv)) (i : ℕ) (w : Bytes) (ws : List Bytes)
    (at : drop i argv ≡ w ∷ ws) where
  abbrev finish : Bytes → Checked Accepted
  finish str =
      search t exclude_option argv i (search_from t str) >>= λ found. ok (not_found t str i found)

  abbrev decide_input : Bytes → Checked Bool → Checked Accepted
  decide_input str c =
      c >>= λ input. (if input then ok (whole t.input_option_id str i) else finish str)

  one-finish :
      internal_parse_one_arg t exclude_option argv i
      ≡ (if not (looks_like_option w) then ok (whole t.input_option_id w i) else finish w)
  unfolding internal_parse_one_arg
  one-finish =
      ap (λ str. decide_input str (is_input t.prefixes_union str)) (drop-eq_cons argv i at).0
      ∙ ap (λ p. decide_input w (is_input p w)) prefixed
      ∙ ap (decide_input w) (is_input-dashes w)

  pub one-search :
      (found : Search)
      → looks_like_option w ≡ true
      → search t exclude_option argv i (search_from t w) ≡ ok found
      → internal_parse_one_arg t exclude_option argv i ≡ ok (not_found t w i found)
  one-search found option h =
      one-finish
      ∙ if-eq_false (not (looks_like_option w)) _ (finish w) (ap not option)
      ∙ ap (λ r. r >>= λ found. ok (not_found t w i found)) h

  whole-plain : (id : ℕ) → whole id w i ≡ outcome (plain id none) w ws i
  whole-plain id =
      ap (λ n. (some (argument id (view w) [] i), n)) (omega (arith, (drop-eq_cons argv i at).2))

  pub one-other :
      (looks_like_option w ≡ true → search t exclude_option argv i (search_from t w) ≡ ok exhausted)
      → internal_parse_one_arg t exclude_option argv i ≡ ok (outcome (other t w) w ws i)
  one-other h = elim (Bool-cases (looks_like_option w)) [
    | inl option ↦
        one-search exhausted option (h option)
        ∙ ap ok (
            if-eq_false (starts_with_slash w) _ _ (dash-slash w option)
            ∙ whole-plain t.unknown_option_id)
        ∙ ap (λ c. ok (outcome c w ws i)) (sym (if-eq_true (looks_like_option w) _ _ option))
    | inr word ↦
        one-finish
        ∙ if-eq_true (not (looks_like_option w)) _ (finish w) (ap not word)
        ∙ ap ok (whole-plain t.input_option_id)
        ∙ ap (λ c. ok (outcome c w ws i)) (sym (if-eq_false (looks_like_option w) _ _ word))
  ]
