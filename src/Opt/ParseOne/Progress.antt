-- ===== src/Opt/ParseOne/Progress.antt =====
-- common/option/opt_table.cc: theorems about the index that one round of the parser leaves.
use catter.Prelude.{
  ℕ, zero, suc, ◌<◌, Bool, true, false, none, some, List, [], ◌∷◌, ◌==◌, if◌then◌else◌, Bytes,
  length, take, drop, arith, All,
}
use catter.Opt.{OnOk-if, OnOk-bind, OnOk-all, Checked, ok, ◌>>=◌, OnOk, Fits}
use catter.Opt.Info.{Info}
use catter.Opt.Table.{OptTable, make_option}
use catter.Opt.Match.{is_input, match_opt, lower_bound, opt_name_less}
use catter.Opt.Text.{ltrim_all_of}
use catter.Opt.Accept.{Accepted, accept, arg_at}
use catter.Opt.Accept.Progress.{if-Advances, Advances, accept-Advances}
use catter.Opt.ParseOne.{
  starts_with_slash, Search, exhausted, after_accept, search, search_from, whole, not_found,
  internal_parse_one_arg,
}

-- The infos of a table, with parameters that a char holds.
abbrev pub Small : List Info → Type 0
Small = All (λ i. i.param < 256)

Small-drop : (n : ℕ) (infos : List Info) → Small infos → Small (drop n infos)
Small-drop zero infos h = h
Small-drop (suc n) [] h = h
Small-drop (suc n) (i ∷ infos) h = Small-drop n infos h.1

if-Small : (b : Bool) (xs ys : List Info) → Small xs → Small ys → Small (if b then xs else ys)
if-Small true xs ys h k = h
if-Small false xs ys h k = k

pub search_from-Small :
    (t : OptTable) (str : Bytes) → Small t.option_infos → Small (search_from t str)
unfolding search_from
search_from-Small t str small =
    if-Small t.tablegen_mode
      (drop (lower_bound (λ i. opt_name_less i (ltrim_all_of str t.prefix_chars)) infos) infos)
      infos
      (Small-drop (lower_bound (λ i. opt_name_less i (ltrim_all_of str t.prefix_chars)) infos) infos
        (Small-drop t.first_searchable_index t.option_infos small))
      (Small-drop t.first_searchable_index t.option_infos small)
  where
    infos : List Info
    infos = drop t.first_searchable_index t.option_infos

abbrev Returned : (Accepted → Type 0) → Search → Type 0
Returned P (Search.returned a) = P a
Returned P exhausted = Unit

module _ (t : OptTable) (exclude_option : Info → Bool) (argv : List Bytes) (index : ℕ)
    (fits : Fits (length argv)) (inside : index < length argv) where
  pub whole-Advances : (id : ℕ) (str : Bytes) → Advances argv index (whole id str index)
  whole-Advances id str = omega arith

  after_accept-Advances :
      (next : Checked Search) (a : Accepted)
      → Advances argv index a
      → OnOk (Returned (Advances argv index)) next
      → OnOk (Returned (Advances argv index)) (after_accept index next a)
  after_accept-Advances next (some a, n) h k = h
  after_accept-Advances next (none, n) h k =
      OnOk-if (Returned (Advances argv index)) (index == n) next (ok (Search.returned (none, n)))
        (λ e. k) (λ e. tt)

  -- One round of the search, before a `next` that holds already.
  round-Advances :
      (i : Info) (next : Checked Search) (arg_sz : ℕ)
      → i.param < 256
      → OnOk (Returned (Advances argv index)) next
      → OnOk (Returned (Advances argv index)) (
          if arg_sz == 0
          then next
          else make_option t i >>= λ _.
              (if exclude_option i
                then next
                else accept t i argv (take arg_sz (arg_at argv index)) false index
                  >>= after_accept index next))
  round-Advances i next arg_sz small rest =
      OnOk-if P (arg_sz == 0) next
        (make_option t i >>= λ _. (if exclude_option i then next else here)) (λ e. rest)
        (λ e.
          OnOk-bind (λ target. Unit) P (make_option t i)
            (λ _. (if exclude_option i then next else here))
            (OnOk-all (λ target. Unit) (make_option t i) (λ target. tt))
            (λ target h.
              OnOk-if P (exclude_option i) next here (λ e. rest)
                (λ e.
                  OnOk-bind (Advances argv index) P
                    (accept t i argv (take arg_sz (arg_at argv index)) false index)
                    (after_accept index next)
                    (accept-Advances t i argv (take arg_sz (arg_at argv index)) index small fits
                      inside)
                    (λ a adv. after_accept-Advances next a adv rest))))
    where
      P : Search → Type 0
      P = Returned (Advances argv index)

      here : Checked Search
      here =
          accept t i argv (take arg_sz (arg_at argv index)) false index >>= after_accept index next

  search-Advances :
      (infos : List Info)
      → Small infos
      → OnOk (Returned (Advances argv index)) (search t exclude_option argv index infos)
  unfolding search
  search-Advances [] small = tt
  search-Advances (i ∷ infos) small =
      round-Advances i (search t exclude_option argv index infos)
        (match_opt i (arg_at argv index) t.ignore_case) small.0 (search-Advances infos small.1)

  not_found-Advances :
      (found : Search)
      → Returned (Advances argv index) found
      → Advances argv index (not_found t (arg_at argv index) index found)
  not_found-Advances (Search.returned a) h = h
  not_found-Advances exhausted h =
      if-Advances argv index (starts_with_slash (arg_at argv index))
        (whole t.input_option_id (arg_at argv index) index)
        (whole t.unknown_option_id (arg_at argv index) index)
        (whole-Advances t.input_option_id (arg_at argv index))
        (whole-Advances t.unknown_option_id (arg_at argv index))

  pub internal_parse_one_arg-Advances :
      Small t.option_infos
      → OnOk (Advances argv index) (internal_parse_one_arg t exclude_option argv index)
  unfolding internal_parse_one_arg
  internal_parse_one_arg-Advances small =
      OnOk-bind (λ input. Unit) (Advances argv index) (is_input t.prefixes_union str)
        (λ input. (if input then ok (whole t.input_option_id str index) else searched))
        (OnOk-all (λ input. Unit) (is_input t.prefixes_union str) (λ input. tt))
        (λ input h.
          OnOk-if (Advances argv index) input (ok (whole t.input_option_id str index)) searched
            (λ e. whole-Advances t.input_option_id str)
            (λ e.
              OnOk-bind (Returned (Advances argv index)) (Advances argv index)
                (search t exclude_option argv index (search_from t str))
                (λ found. ok (not_found t str index found))
                (search-Advances (search_from t str) (search_from-Small t str small))
                not_found-Advances))
    where
      str : Bytes
      str = arg_at argv index

      searched : Checked Accepted
      searched = search t exclude_option argv index (search_from t str) >>= λ found.
          ok (not_found t str index found)
