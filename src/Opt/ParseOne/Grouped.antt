-- ===== src/Opt/ParseOne/Grouped.antt =====
-- common/option/opt_table.cc: theorems about parse_one_arg_grouped.
use catter.Prelude.{
  ℕ, ◌+◌, ◌≤◌, ◌<◌, ◌≡◌, refl, Bool, true, false, Option, none, some, List, [], ◌∷◌, ltb, ◌==◌,
  ◌&&◌, if◌then◌else◌, Bytes, length, take, drop, set, arith, get_or, ◌⊎◌, inl, inr, Bool-cases,
}
use catter.Opt.{Fault, OnOk-if, OnOk-bind, OnOk-all, Checked, ok, fault, ◌>>=◌, OnOk, Fits}
use catter.Opt.Info.{Info}
use catter.Opt.Table.{OptTable, make_option, is_flag}
use catter.Opt.Match.{is_input, match_opt}
use catter.Opt.Argument.{ParsedArgument, argument, to_spelling_array, array}
use catter.Opt.Accept.{Accepted, accept, arg_at}
use catter.Opt.Accept.Progress.{Advances, Stays, At, accept-Advances, accept-Stays}
use catter.Opt.ParseOne.{
  search_from, whole, Grouped, shift_group, GroupedSearch, fallback, grouped_after, grouped_search,
  unknown_group, after_fallback, from_fallback, parse_one_arg_grouped,
}
use catter.Opt.ParseOne.Progress.{Small, search_from-Small, whole-Advances}

-- Either the index moves behind the argument and its values, and argv stays, or the first two bytes of the
-- argument, of which there are two, become "-".
abbrev pub Progresses : List Bytes → ℕ → Grouped → Type 0
Progresses argv index ((none, next), argv') = argv' ≡ argv
Progresses argv index ((some a, next), argv') =
    (a.index ≡ index)
    × (((index < next)
          × (next ≤ length argv)
          × (next ≤ index + 1 + length a.values)
          × (argv' ≡ argv))
        ⊎ ((next ≡ index)
            × (2 ≤ length (arg_at argv index))
            × (argv' ≡ set argv index (b'-' ∷ drop 2 (arg_at argv index)))))

abbrev Flag : Option Info → Type 0
Flag none = Unit
Flag (some i) = is_flag i.kind ≡ true

abbrev SearchedGroup : List Bytes → ℕ → GroupedSearch → Type 0
SearchedGroup argv index (GroupedSearch.returned a) = Advances argv index a
SearchedGroup argv index (fallback opt) = Flag opt

if-Flag :
    (short : Bool) (i : Info) (opt : Option Info)
    → Flag opt
    → Flag (if short && is_flag i.kind then some i else opt)
if-Flag false i opt h = h
if-Flag true i opt h = elim (Bool-cases (is_flag i.kind)) [ inl e ↦ rw (e) e | inr e ↦ rw (e) h ]

module _ (t : OptTable) (argv : List Bytes) (index : ℕ) (fits : Fits (length argv))
    (inside : index < length argv) where
  advanced : (a : Accepted) → Advances argv index a → Progresses argv index (a, argv)
  advanced (none, n) h = refl
  advanced (some a, n) (h, k, e, c) = (e, inl (h, k, c, refl))

  grouped_after-Searched :
      (next : Option Info → Checked GroupedSearch) (short : Bool) (i : Info) (opt : Option Info)
      (a : Accepted)
      → ((opt : Option Info) → Flag opt → OnOk (SearchedGroup argv index) (next opt))
      → Flag opt
      → Advances argv index a
      → OnOk (SearchedGroup argv index) (grouped_after index next short i opt a)
  grouped_after-Searched next short i opt (some a, n) step flag h = h
  grouped_after-Searched next short i opt (none, n) step flag h =
      OnOk-if (SearchedGroup argv index) (index == n)
        (next (if short && is_flag i.kind then some i else opt))
        (ok (GroupedSearch.returned (none, n)))
        (λ e. step (if short && is_flag i.kind then some i else opt) (if-Flag short i opt flag))
        (λ e. tt)

  -- One round of the search, before a `next` that holds already.
  round-Searched :
      (i : Info) (next : Option Info → Checked GroupedSearch) (opt : Option Info) (arg_sz : ℕ)
      → i.param < 256
      → ((opt : Option Info) → Flag opt → OnOk (SearchedGroup argv index) (next opt))
      → Flag opt
      → OnOk (SearchedGroup argv index) (
          if arg_sz == 0
          then next opt
          else make_option t i >>= λ _.
              (accept t i argv (take arg_sz (arg_at argv index)) false index
                >>= grouped_after index next (arg_sz == 2) i opt))
  round-Searched i next opt arg_sz small step flag =
      OnOk-if P (arg_sz == 0) (next opt) (make_option t i >>= λ _. here) (λ e. step opt flag)
        (λ e.
          OnOk-bind (λ target. Unit) P (make_option t i) (λ _. here)
            (OnOk-all (λ target. Unit) (make_option t i) (λ target. tt))
            (λ target h.
              OnOk-bind (Advances argv index) P
                (accept t i argv (take arg_sz (arg_at argv index)) false index)
                (grouped_after index next (arg_sz == 2) i opt)
                (accept-Advances t i argv (take arg_sz (arg_at argv index)) index small fits inside)
                (λ a adv. grouped_after-Searched next (arg_sz == 2) i opt a step flag adv)))
    where
      P : GroupedSearch → Type 0
      P = SearchedGroup argv index

      here : Checked GroupedSearch
      here =
          accept t i argv (take arg_sz (arg_at argv index)) false index
          >>= grouped_after index next (arg_sz == 2) i opt

  grouped_search-Searched :
      (infos : List Info) (opt : Option Info)
      → Small infos
      → Flag opt
      → OnOk (SearchedGroup argv index) (grouped_search t argv index infos opt)
  unfolding grouped_search
  grouped_search-Searched [] opt small flag = flag
  grouped_search-Searched (i ∷ infos) opt small flag =
      round-Searched i (λ f. grouped_search t argv index infos f) opt
        (match_opt i (arg_at argv index) t.ignore_case) small.0
        (λ f h. grouped_search-Searched infos f small.1 h) flag

  shift_group-Progresses :
      (a : ParsedArgument)
      → a.index ≡ index
      → OnOk (Progresses argv index) (shift_group argv index (arg_at argv index) (some a, index))
  shift_group-Progresses a e =
      OnOk-if (Progresses argv index) (ltb (length (arg_at argv index)) 2)
        (fault Fault.out_of_range)
        (ok ((some a, index), set argv index (b'-' ∷ drop 2 (arg_at argv index)))) (λ short. tt)
        (λ long. (e, inr (refl, ground arith, refl)))

  unknown_group-Progresses :
      OnOk (Progresses argv index) (unknown_group t argv index (arg_at argv index))
  unknown_group-Progresses =
      OnOk-if (Progresses argv index) (get_or (arg_at argv index) 1 0 == b'-')
        (ok (whole t.unknown_option_id (arg_at argv index) index, argv))
        (shift_group argv index (arg_at argv index) (some unknown, index))
        (λ e. advanced (whole t.unknown_option_id (arg_at argv index) index) (
          whole-Advances t (λ i. false) argv index fits inside t.unknown_option_id
            (arg_at argv index)))
        (λ e. shift_group-Progresses unknown refl)
    where
      unknown : ParsedArgument
      unknown =
          argument t.unknown_option_id (array (to_spelling_array (take 2 (arg_at argv index)))) []
            index

  after_fallback-Progresses :
      (a : Accepted)
      → At (Stays index) a
      → OnOk (Progresses argv index) (after_fallback t argv index (arg_at argv index) a)
  after_fallback-Progresses (some a, n) (e, at) = rw (e) (shift_group-Progresses a at)
  after_fallback-Progresses (none, n) e = rw (e) unknown_group-Progresses

  from_fallback-Progresses :
      (found : GroupedSearch)
      → SearchedGroup argv index found
      → OnOk (Progresses argv index) (from_fallback t argv index (arg_at argv index) found)
  from_fallback-Progresses (GroupedSearch.returned a) h = advanced a h
  from_fallback-Progresses (fallback none) h = unknown_group-Progresses
  from_fallback-Progresses (fallback (some i)) flag =
      OnOk-bind (λ target. Unit) P (make_option t i)
        (λ _. (if get_or str 2 0 == b'=' then known else taken))
        (OnOk-all (λ target. Unit) (make_option t i) (λ target. tt))
        (λ target h.
          OnOk-if P (get_or str 2 0 == b'=') known taken
            (λ e.
              advanced (whole t.unknown_option_id str index)
                (whole-Advances t (λ i. false) argv index fits inside t.unknown_option_id str))
            (λ e.
              OnOk-bind (At (Stays index)) P (accept t i argv (take 2 str) true index)
                (after_fallback t argv index str) (accept-Stays t i argv (take 2 str) index flag)
                after_fallback-Progresses))
    where
      P : Grouped → Type 0
      P = Progresses argv index

      str : Bytes
      str = arg_at argv index

      known : Checked Grouped
      known = ok (whole t.unknown_option_id str index, argv)

      taken : Checked Grouped
      taken = accept t i argv (take 2 str) true index >>= after_fallback t argv index str

  pub parse_one_arg_grouped-Progresses :
      Small t.option_infos → OnOk (Progresses argv index) (parse_one_arg_grouped t argv index)
  unfolding parse_one_arg_grouped
  parse_one_arg_grouped-Progresses small =
      OnOk-bind (λ input. Unit) P (is_input t.prefixes_union str)
        (λ input. (if input then whole_input else searched))
        (OnOk-all (λ input. Unit) (is_input t.prefixes_union str) (λ input. tt))
        (λ input h.
          OnOk-if P input whole_input searched
            (λ e.
              advanced (whole t.input_option_id str index)
                (whole-Advances t (λ i. false) argv index fits inside t.input_option_id str))
            (λ e.
              OnOk-bind (SearchedGroup argv index) P
                (grouped_search t argv index (search_from t str) none)
                (from_fallback t argv index str)
                (grouped_search-Searched (search_from t str) none (search_from-Small t str small)
                  tt)
                from_fallback-Progresses))
    where
      P : Grouped → Type 0
      P = Progresses argv index

      str : Bytes
      str = arg_at argv index

      whole_input : Checked Grouped
      whole_input = ok (whole t.input_option_id str index, argv)

      searched : Checked Grouped
      searched =
          grouped_search t argv index (search_from t str) none >>= from_fallback t argv index str
