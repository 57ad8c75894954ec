-- ===== src/Opt/ParseOne/Tablegen.antt =====
-- common/option/opt_table.cc: theorems about internal_parse_one_arg in tablegen mode.
use catter.Prelude.{
  ℕ, ◌≡◌, refl, ap, ◌∙◌, sym, Bool, true, false, List, [], ◌∷◌, ◌++◌, if◌then◌else◌, Bytes, drop,
  take, All, IsByte, drop-append, if-eq_true, inl, inr, ◌==◌, ◌⊎◌, ==_iff, All-append_left,
}
use mathlib.Core.Path.{subst}
use catter.Opt.{ok, ◌>>=◌}
use catter.Opt.Info.{Info}
use catter.Opt.Text.{ltrim_all_of}
use catter.Opt.Table.{OptTable, make_option, info, set_tablegen_mode}
use catter.Opt.Accept.{accept, arg_at}
use catter.Opt.Match.{lower_bound, opt_name_less, match_opt, is_input}
use catter.Opt.Match.Trimmed.{WellNamed, match_opt-order, ltrim-All}
use catter.Opt.ParseOne.{
  search, search_from, internal_parse_one_arg, after_accept, not_found, whole,
}
use catter.Opt.ParseOne.Bound.{
  Sorted, ByteNames, Partition, partition, lower_bound-partition, true_or_false,
}

-- The options that can be searched.
abbrev pub searchable : OptTable → List Info
searchable t = drop t.first_searchable_index t.option_infos

-- A table as TableGen writes it: sorted by name, and with the characters of all prefixes.
pub record IsGenerated (t : OptTable) : Type 0 where
  pub sorted : Sorted (searchable t)
  pub well_named : All (WellNamed t.prefix_chars) (searchable t)

module _ (t : OptTable) (exclude_option : Info → Bool) (argv : List Bytes) (index : ℕ) where
  -- The search looks at no mode.
  search-mode :
      (infos : List Info)
      → search (set_tablegen_mode true t) exclude_option argv index infos
        ≡ search (set_tablegen_mode false t) exclude_option argv index infos
  unfolding search accept make_option info catter.Opt.Table.option
  search-mode [] = refl
  search-mode (i ∷ infos) =
      ap
        (λ next.
          if match_opt i (arg_at argv index) t.ignore_case == 0
          then next
          else make_option (set_tablegen_mode true t) i >>= λ _.
              (if exclude_option i
                then next
                else accept (set_tablegen_mode true t) i argv
                    (take (match_opt i (arg_at argv index) t.ignore_case) (arg_at argv index)) false
                    index
                  >>= after_accept index next))
        (search-mode infos)

  search-unmatched :
      (lo hi : List Info)
      → All (λ i. match_opt i (arg_at argv index) t.ignore_case ≡ 0) lo
      → search t exclude_option argv index (lo ++ hi) ≡ search t exclude_option argv index hi
  unfolding search
  search-unmatched [] hi h = refl
  search-unmatched (i ∷ lo) hi h =
      if-eq_true (match_opt i (arg_at argv index) t.ignore_case == 0) _ _
        ((==_iff (match_opt i (arg_at argv index) t.ignore_case) 0).1 h.0)
      ∙ search-unmatched lo hi h.1

below-unmatched :
    (chars : List ℕ) (str : Bytes) (ignore_case : Bool) (lo : List Info)
    → All (WellNamed chars) lo
    → All (λ i. opt_name_less i (ltrim_all_of str chars) ≡ true) lo
    → All (λ i. match_opt i str ignore_case ≡ 0) lo
below-unmatched chars str ignore_case [] h k = tt
below-unmatched chars str ignore_case (i ∷ lo) h k = (
  unmatched (match_opt-order chars i str ignore_case h.0),
  below-unmatched chars str ignore_case lo h.1 k.1,
)
  where
    unmatched :
        (match_opt i str ignore_case ≡ 0) ⊎ (opt_name_less i (ltrim_all_of str chars) ≡ false)
        → match_opt i str ignore_case ≡ 0
    unmatched (inl e) = e
    unmatched (inr after) =
        absurd (true_or_false (opt_name_less i (ltrim_all_of str chars)) k.0 after)

WellNamed-ByteNames :
    (chars : List ℕ) (infos : List Info) → All (WellNamed chars) infos → ByteNames infos
WellNamed-ByteNames chars [] h = tt
WellNamed-ByteNames chars (i ∷ infos) h = (h.0.2, WellNamed-ByteNames chars infos h.1)

-- The searches of the two modes, where `lo` and `hi` are the options before the name and the others.
searched :
    (t : OptTable) (exclude_option : Info → Bool) (argv : List Bytes) (index : ℕ)
    → All (WellNamed t.prefix_chars) (searchable t)
    → Partition (searchable t) (ltrim_all_of (arg_at argv index) t.prefix_chars)
    → search
        (set_tablegen_mode true t)
        exclude_option
        argv
        index
        (search_from (set_tablegen_mode true t) (arg_at argv index))
      ≡ search
          (set_tablegen_mode false t)
          exclude_option
          argv
          index
          (search_from (set_tablegen_mode false t) (arg_at argv index))
unfolding search_from
searched t exclude_option argv index named (lo, hi, e, below, above) =
    ap (search generated exclude_option argv index) from_hi
    ∙ sym (
        search-unmatched generated exclude_option argv index lo hi (
          below-unmatched t.prefix_chars (arg_at argv index) t.ignore_case lo
            (All-append_left (WellNamed t.prefix_chars) lo hi
              (subst (All (WellNamed t.prefix_chars)) e named))
            below))
    ∙ ap (search generated exclude_option argv index) (sym e)
    ∙ search-mode t exclude_option argv index (searchable t)
  where
    generated : OptTable
    generated = set_tablegen_mode true t

    less : Info → Bool
    less i = opt_name_less i (ltrim_all_of (arg_at argv index) t.prefix_chars)

    from_hi : drop (lower_bound less (searchable t)) (searchable t) ≡ hi
    from_hi =
        ap (λ l. drop (lower_bound less l) l) e
        ∙ ap (λ n. drop n (lo ++ hi)) (lower_bound-partition less lo hi below above)
        ∙ drop-append lo hi

-- In a generated table the binary search is only a short cut: with and without tablegen mode the
-- parser gives the same for every argument, with any options excluded and with or without the case.
pub tablegen_mode-linear :
    (t : OptTable) (exclude_option : Info → Bool) (argv : List Bytes) (index : ℕ)
    → IsGenerated t
    → All IsByte (arg_at argv index)
    → internal_parse_one_arg (set_tablegen_mode true t) exclude_option argv index
      ≡ internal_parse_one_arg (set_tablegen_mode false t) exclude_option argv index
unfolding internal_parse_one_arg
tablegen_mode-linear t exclude_option argv index g bytes =
    ap
      (λ r. is_input t.prefixes_union str >>= λ input.
        (if input
          then ok (whole t.input_option_id str index)
          else r >>= λ found. ok (not_found (set_tablegen_mode true t) str index found)))
      (searched t exclude_option argv index g.well_named (
        partition (searchable t) (ltrim_all_of str t.prefix_chars)
          (WellNamed-ByteNames t.prefix_chars (searchable t) g.well_named)
          (ltrim-All IsByte t.prefix_chars str bytes) g.sorted))
  where
    str : Bytes
    str = arg_at argv index
