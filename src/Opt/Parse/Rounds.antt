-- ===== src/Opt/Parse/Rounds.antt =====
-- common/option/opt_table.cc: theorems that the loop of internal_parse_args gives the plain reading.
use catter.Prelude.{
  ℕ, zero, suc, ◌+◌, ◌%◌, ◌≤◌, ◌<◌, ◌≡◌, refl, ap, ◌∙◌, Bool, true, false, List, [], ◌∷◌, ltb,
  if◌then◌else◌, Bytes, codes, length, drop, arith, bytes_eq, length-drop, if-eq_true, if-eq_false,
  lt→ltb, if-eq_if, ap₂, ◌&&◌, ◌||◌, not, leb, ◌==◌, is_empty,
}
use catter.Opt.Parse.{
  missing_from, Parsed, stop, emit, finished, missing, failed, parse_loop, parse_one, is_dash_dash,
  dash_dash, positional, after_one, total,
}
use catter.Opt.{sub32, ok, ◌>>=◌, Fits, u32, assertion, add32}
use native.Mathlib.Numerals.{add-one}
use catter.Opt.ParseOne.{parse_one_arg_grouped, internal_parse_one_arg}
use catter.Opt.Table.{OptTable}
use catter.Opt.Info.{Info}
use catter.Opt.Argument.{argument, view}
use catter.Opt.Accept.{arg_at}
use catter.Opt.Parse.Reading.{
  Word, plain, takes_next, plain_argument, inputs, no_value, word_read, behind, read_word, read,
  outcome,
}

pub drop-eq_cons :
    (argv : List Bytes) (i : ℕ) {w : Bytes} {ws : List Bytes}
    → drop i argv ≡ w ∷ ws
    → (arg_at argv i ≡ w) × (drop (suc i) argv ≡ ws) × (i < length argv)
drop-eq_cons [] zero h = cc
drop-eq_cons [] (suc i) h = cc
drop-eq_cons (a ∷ argv) zero h = (cc, cc, omega arith)
drop-eq_cons (a ∷ argv) (suc i) h = let (e, f, g) = drop-eq_cons argv i h in (e, f, omega arith)

positional-inputs :
    (input i : ℕ) (ws : List Bytes)
    → i + length ws + 1 < u32
    → positional input i ws ≡ inputs input i ws
unfolding positional
positional-inputs input i [] fits = refl
positional-inputs input i (w ∷ ws) fits =
    ap (λ r. argument input (view w) [] i ∷ r)
      (ap (λ j. positional input j ws) (omega arith)
        ∙ positional-inputs input (suc i) ws (omega arith))

choose :
    (e d d' : Bool) (skip packed one next behind' word' : Parsed)
    → d ≡ d'
    → (e ≡ true → skip ≡ next)
    → packed ≡ behind'
    → (e ≡ false → d' ≡ false → one ≡ word')
    → (if e then skip else if d then packed else one)
      ≡ (if e then next else if d' then behind' else word')
choose true d d' skip packed one next behind' word' same h k l = h refl
choose false d true skip packed one next behind' word' same h k l = rw (same) k
choose false d false skip packed one next behind' word' same h k l = rw (same) (l refl refl)

module _ (t : OptTable) (exclude_option : Info → Bool) (classify : Bytes → Word)
    (ungrouped : t.grouped_short_options ≡ false) (dashes : t.dash_dash_parsing ≡ true)
    (argv : List Bytes) (fits : Fits (length argv))
    (one : (i : ℕ) (w : Bytes) (ws : List Bytes)
      → drop i argv ≡ w ∷ ws
      → is_empty w ≡ false
      → bytes_eq w (codes "--") ≡ false
      → internal_parse_one_arg t exclude_option argv i ≡ ok (outcome (classify w) w ws i)) where
  size : length argv % u32 ≡ length argv
  size = omega arith

  suc-add32 : (i : ℕ) → i < length argv → add32 i 1 ≡ suc i
  suc-add32 i inside = omega arith

  dash_dash-behind :
      (i : ℕ) (ws : List Bytes)
      → drop (suc i) argv ≡ ws
      → i < length argv
      → dash_dash t argv i
        ≡ (behind classify t.input_option_id t.dash_dash_as_single_pack argv i ws).args
  unfolding dash_dash
  dash_dash-behind i ws h inside =
      if-eq_if t.dash_dash_as_single_pack
        (ap (λ r. argument t.input_option_id (view (codes "--")) r i ∷ []) after)
        (ap₂ (positional t.input_option_id) (suc-add32 i inside) after
          ∙ positional-inputs t.input_option_id (suc i) ws
              (omega (arith, length-drop (suc i) argv, ap length h)))
    where
      after : drop (i + 1) argv ≡ ws
      after = ap (λ n. drop n argv) (add-one i) ∙ h

  parse_one-outcome :
      (i : ℕ) (w : Bytes) (ws : List Bytes)
      → drop i argv ≡ w ∷ ws
      → is_empty w ≡ false
      → bytes_eq w (codes "--") ≡ false
      → parse_one t exclude_option argv i ≡ ok (outcome (classify w) w ws i, argv)
  unfolding parse_one
  parse_one-outcome i w ws h e d =
      if-eq_false t.grouped_short_options (parse_one_arg_grouped t argv i)
        (internal_parse_one_arg t exclude_option argv i >>= λ a. ok (a, argv)) ungrouped
      ∙ ap (λ r. r >>= λ a. ok (a, argv)) (one i w ws h e d)

  by_word :
      (fuel i : ℕ) (w : Bytes) (ws : List Bytes) (c : Word) (next : Parsed) (value : ℕ → Parsed)
      → parse_loop t exclude_option fuel argv (suc i) ≡ next
      → ((id : ℕ)
          → after_one
              (parse_loop t exclude_option fuel)
              false
              argv
              (length argv % u32)
              i
              (ok (outcome (takes_next id) w ws i, argv))
            ≡ value id)
      → after_one
          (parse_loop t exclude_option fuel)
          false
          argv
          (length argv % u32)
          i
          (ok (outcome c w ws i, argv))
        ≡ word_read c w i next value
  by_word fuel i w ws (plain id alias) next value ih takes =
      if-eq_true (ltb i (suc i) || false) _ _ (ground arith)
      ∙ ap (emit (plain_argument id alias w i)) ih
  by_word fuel i w ws (takes_next id) next value ih takes = takes id

  step :
      (fuel i : ℕ) (w : Bytes) (ws : List Bytes) (next : Parsed) (value : ℕ → Parsed)
      → drop i argv ≡ w ∷ ws
      → parse_loop t exclude_option fuel argv (suc i) ≡ next
      → ((id : ℕ)
          → after_one
              (parse_loop t exclude_option fuel)
              false
              argv
              (length argv % u32)
              i
              (ok (outcome (takes_next id) w ws i, argv))
            ≡ value id)
      → parse_loop t exclude_option (suc fuel) argv i
        ≡ read_word classify t.input_option_id t.dash_dash_as_single_pack argv i w ws next value
  unfolding parse_loop
  step fuel i w ws next value h ih takes =
      let (at, rest, inside) = drop-eq_cons argv i h in
      if-eq_true (ltb i (length argv % u32)) _ _ (rw (size) (lt→ltb i (length argv) inside))
      ∙ rw (at) (
          choose (is_empty w) (is_dash_dash t w) (bytes_eq w (codes "--"))
            (parse_loop t exclude_option fuel argv (add32 i 1))
            (record { args = dash_dash t argv i; ending = finished; argv = argv })
            (after_one (parse_loop t exclude_option fuel) t.grouped_short_options argv
              (length argv % u32) i (parse_one t exclude_option argv i))
            next (behind classify t.input_option_id t.dash_dash_as_single_pack argv i ws)
            (word_read (classify w) w i next value) (ap (λ b. b && bytes_eq w (codes "--")) dashes)
            (λ e. ap (parse_loop t exclude_option fuel argv) (suc-add32 i inside) ∙ ih)
            (ap (λ r. record { args = r; ending = finished; argv = argv })
              (dash_dash-behind i ws rest inside))
            (λ e d.
              ap₂
                (λ g r. after_one (parse_loop t exclude_option fuel) g argv (length argv % u32) i r)
                ungrouped (parse_one-outcome i w ws h e d)
              ∙ by_word fuel i w ws (classify w) next value ih takes))

  forward :
      (i : ℕ) (x : Parsed)
      → (if ltb i (suc (suc i)) || false then x else stop argv (failed assertion)) ≡ x
  forward i x = if-eq_true (ltb i (suc (suc i)) || false) x _ (ground arith)

  missing_last :
      (i : ℕ)
      → length argv ≤ suc (suc i)
      → i < length argv
      → missing_from argv (length argv % u32) i (suc (suc i)) ≡ stop argv (missing i 1)
  missing_last i last inside =
      ap
        (λ n.
          if leb (length argv % u32) (suc (suc i)) && not (n == 0)
          then stop argv (missing i n)
          else stop argv (failed assertion))
        count
      ∙ if-eq_true (leb (length argv % u32) (suc (suc i)) && true) _ _ (ground arith)
    where
      count : sub32 (sub32 (suc (suc i)) i) 1 ≡ 1
      count = omega arith

  missing_within :
      (i : ℕ)
      → suc (suc i) < length argv
      → missing_from argv (length argv % u32) i (suc (suc i)) ≡ stop argv (failed assertion)
  missing_within i more =
      if-eq_false
        (leb (length argv % u32) (suc (suc i)) && not (sub32 (sub32 (suc (suc i)) i) 1 == 0)) _ _
        (ground arith)

  missing_next :
      (fuel i : ℕ) (w : Bytes) (id : ℕ)
      → length argv ≡ suc i
      → after_one
          (parse_loop t exclude_option fuel)
          false
          argv
          (length argv % u32)
          i
          (ok (outcome (takes_next id) w [] i, argv))
        ≡ stop argv (missing i 1)
  missing_next fuel i w id last = forward i _ ∙ missing_last i (omega arith) (omega arith)

  value_next :
      (fuel i : ℕ) (w v : Bytes) (ws : List Bytes) (id : ℕ) (after : Parsed)
      → parse_loop t exclude_option fuel argv (suc (suc i)) ≡ after
      → length argv ≡ suc (suc i) + length ws
      → after_one
          (parse_loop t exclude_option fuel)
          false
          argv
          (length argv % u32)
          i
          (ok (outcome (takes_next id) w (v ∷ ws) i, argv))
        ≡ (if is_empty v then no_value argv i ws else emit (argument id (view w) (v ∷ []) i) after)
  value_next fuel i w [] [] id after ih left =
      forward i _ ∙ missing_last i (omega arith) (omega arith)
  value_next fuel i w [] (u ∷ ws) id after ih left = forward i _ ∙ missing_within i (omega arith)
  value_next fuel i w (c ∷ v) ws id after ih left =
      forward i _ ∙ ap (emit (argument id (view w) ((c ∷ v) ∷ []) i)) ih

  pub parse_loop-read :
      (fuel i : ℕ) (ws : List Bytes)
      → drop i argv ≡ ws
      → i ≤ length argv
      → total ws < fuel
      → parse_loop t exclude_option fuel argv i
        ≡ read classify t.input_option_id t.dash_dash_as_single_pack argv i ws
  unfolding parse_loop read
  parse_loop-read zero i ws h le less = absurd (omega arith)
  parse_loop-read (suc fuel) i [] h le less =
      if-eq_false (ltb i (length argv % u32)) _ _ (ground (arith, length-drop i argv, ap length h))
  parse_loop-read (suc fuel) i (w ∷ []) h le less =
      let (at, rest, inside) = drop-eq_cons argv i h in
      step fuel i w [] (stop argv finished) (λ id. stop argv (missing i 1)) h
        (parse_loop-read fuel (suc i) [] rest inside (omega arith))
        (λ id. missing_next fuel i w id (omega (arith, length-drop i argv, ap length h)))
  parse_loop-read (suc fuel) i (w ∷ v ∷ ws) h le less =
      let (at, rest, inside) = drop-eq_cons argv i h in
      let (at', rest', inside') = drop-eq_cons argv (suc i) rest in
      step fuel i w (v ∷ ws) _ _ h (parse_loop-read fuel (suc i) (v ∷ ws) rest inside (omega arith))
        (λ id.
          value_next fuel i w v ws id _
            (parse_loop-read fuel (suc (suc i)) ws rest' inside' (omega arith))
            (omega (arith, length-drop i argv, ap length h)))
