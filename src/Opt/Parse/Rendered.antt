-- ===== src/Opt/Parse/Rendered.antt =====
-- common/option: what an accepted argument looks like when it is written again by to_arg_str.
use catter.Prelude.{
  ℕ, zero, suc, ◌+◌, ◌-◌, ◌≤◌, ◌<◌, ◌≡◌, refl, ap, ◌∙◌, sym, Bool, true, false, none, some, List,
  [], ◌∷◌, ◌++◌, ◌||◌, ltb, if◌then◌else◌, Bytes, length, take, drop, arith, Bool-cases, inl, inr,
  if-eq_true, if-eq_false, length-append, append-nil, is_empty, length-drop, drop-append, ap₂,
}
use mathlib.Core.Path.{subst}
use catter.Opt.{ok, add32, sub32, Fits, OnOk}
use catter.Opt.Info.{OptionClass, RenderStyleKind}
use catter.Opt.Argument.{to_arg_str, write_values, get_spelling_view}
use catter.Opt.Accept.{
  Accepted, arg_at, accept_internal, taken, take_next, take_joined, take_many, take_remaining,
  until_empty, is_exact,
}
use catter.Opt.Parse.Rounds.{drop-eq_cons}

-- The kinds whose words are written as they were read, and how render_style has them written.
abbrev pub keeps : OptionClass → Bool
keeps OptionClass.flag = true
keeps OptionClass.joined = true
keeps OptionClass.separate = true
keeps OptionClass.multi_arg = true
keeps OptionClass.remaining_args = true
keeps _ = false

abbrev pub style_of : OptionClass → RenderStyleKind
style_of OptionClass.joined = RenderStyleKind.render_joined
style_of _ = RenderStyleKind.render_separate

-- Words with a blank between them.
abbrev pub joined_words : List Bytes → Bytes
joined_words [] = []
joined_words (w ∷ []) = w
joined_words (w ∷ v ∷ ws) = w ++ b' ' ∷ joined_words (v ∷ ws)

write_values-joined_words :
    (w : Bytes) (ws : List Bytes) → w ++ write_values (b' ') ws ≡ joined_words (w ∷ ws)
unfolding write_values
write_values-joined_words w [] = append-nil w
write_values-joined_words w (v ∷ ws) = ap (λ l. w ++ b' ' ∷ l) (write_values-joined_words v ws)

take-until_empty : (args : List Bytes) → take (length (until_empty args)) args ≡ until_empty args
unfolding until_empty
take-until_empty [] = refl
take-until_empty ([] ∷ args) = refl
take-until_empty ((c ∷ a) ∷ args) = ap (λ l. (c ∷ a) ∷ l) (take-until_empty args)

length-nil : (s : Bytes) → length s ≡ 0 → s ≡ []
length-nil [] h = refl
length-nil (c ∷ s) h = absurd (omega (arith, h))

take-length-take : (n : ℕ) (ws : List Bytes) → take (length (take n ws)) ws ≡ take n ws
take-length-take zero ws = refl
take-length-take (suc n) [] = refl
take-length-take (suc n) (w ∷ ws) = ap (λ l. w ∷ l) (take-length-take n ws)

take-one : (args : List Bytes) (k : ℕ) → k < length args → take 1 (drop k args) ≡ arg_at args k ∷ []
take-one [] k h = absurd (omega arith)
take-one (a ∷ args) zero h = refl
take-one (a ∷ args) (suc k) h = take-one args k (omega arith)

length-take_le : (n : ℕ) (ws : List Bytes) → n ≤ length ws → length (take n ws) ≡ n
length-take_le zero ws h = refl
length-take_le (suc n) [] h = absurd (omega arith)
length-take_le (suc n) (w ∷ ws) h = ap suc (length-take_le n ws (omega arith))

length-until_empty : (args : List Bytes) → length (until_empty args) ≤ length args
unfolding until_empty
length-until_empty [] = omega arith
length-until_empty ([] ∷ args) = omega arith
length-until_empty ((c ∷ a) ∷ args) = omega (arith, length-until_empty args)

||-left : (a b : Bool) → (a || b) ≡ false → a ≡ false
||-left false b h = refl
||-left true b h = h

module _ (id num_args : ℕ) (args : List Bytes) (spelling rest : Bytes) (index : ℕ) (ws : List Bytes)
    (at : drop index args ≡ (spelling ++ rest) ∷ ws) (fits : Fits (length args)) where
  -- An argument is written as the words that it was read from, joined by blanks.
  abbrev pub Rendered : RenderStyleKind → Accepted → Type 0
  Rendered style (none, next) = Unit
  Rendered style (some a, next) =
      to_arg_str a style ≡ ok (joined_words (take (next - index) (drop index args)))

  here : arg_at args index ≡ spelling ++ rest
  here = (drop-eq_cons args index at).0

  inside : index < length args
  inside = (drop-eq_cons args index at).2

  behind : drop (suc index) args ≡ ws
  behind = (drop-eq_cons args index at).1

  size : length args ≡ suc index + length ws
  size = omega (arith, length-drop index args, ap length at, inside)

  exact : is_exact id num_args args spelling index ≡ true → spelling ++ rest ≡ spelling
  exact h =
      ap (λ r. spelling ++ r)
        (length-nil rest (ground (arith, length-append spelling rest, ap length here)))
      ∙ append-nil spelling

  separately :
      (values : List Bytes) (ix next : ℕ)
      → spelling ++ rest ≡ spelling
      → next ≡ suc index + length values
      → take (length values) ws ≡ values
      → Rendered RenderStyleKind.render_separate
          (taken id num_args args spelling index values ix next)
  unfolding to_arg_str get_spelling_view write_values
  separately values ix next same e read = ap ok (
      sym (
        ap joined_words (
          ap (λ n. take n (drop index args)) count
          ∙ ap (take (suc (length values))) at
          ∙ ap₂ (λ w l. w ∷ l) same read)
        ∙ sym (write_values-joined_words spelling values)))
    where
      count : next - index ≡ suc (length values)
      count = omega (arith, e)

  if_exact :
      (r : Accepted)
      → (spelling ++ rest ≡ spelling → Rendered RenderStyleKind.render_separate r)
      → Rendered RenderStyleKind.render_separate
          (if is_exact id num_args args spelling index then r else (none, index))
  if_exact r h = elim (Bool-cases (is_exact id num_args args spelling index)) [
    | inl same ↦
        subst (Rendered RenderStyleKind.render_separate) (sym (if-eq_true _ _ _ same))
          (h (exact same))
    | inr other ↦
        subst (Rendered RenderStyleKind.render_separate) (sym (if-eq_false _ _ _ other)) tt
  ]

  separate_next :
      spelling ++ rest ≡ spelling
      → Rendered RenderStyleKind.render_separate (take_next id num_args args spelling index [])
  separate_next same = elim (Bool-cases passes) [
    | inl short ↦
        subst (Rendered RenderStyleKind.render_separate) (sym (if-eq_true passes _ _ short)) tt
    | inr enough ↦
        subst (Rendered RenderStyleKind.render_separate) (sym (if-eq_false passes _ _ enough)) (
          separately (value ∷ []) (sub32 (add32 index 2) 2) (add32 index 2) same
            (omega (arith, inside))
            (ap (take 1) (sym behind)
              ∙ take-one args (suc index) (two enough)
              ∙ ap (λ k. arg_at args k ∷ []) (omega (arith, inside))))
  ]
    where
      value : Bytes
      value = arg_at args (sub32 (add32 index 2) 1)

      passes : Bool
      passes = ltb (length args) (add32 index 2) || is_empty value

      two : passes ≡ false → suc index < length args
      two h = ground (arith, inside, ||-left (ltb (length args) (add32 index 2)) (is_empty value) h)

  separate_many :
      num_args < 256
      → spelling ++ rest ≡ spelling
      → Rendered RenderStyleKind.render_separate (take_many id num_args args spelling index)
  separate_many small same = elim (Bool-cases (ltb (length args) (add32 index (1 + num_args)))) [
    | inl short ↦ subst (Rendered RenderStyleKind.render_separate) (sym (if-eq_true _ _ _ short)) tt
    | inr enough ↦
        subst (Rendered RenderStyleKind.render_separate) (sym (if-eq_false _ _ _ enough)) (
          subst
            (λ l. Rendered RenderStyleKind.render_separate (
              taken id num_args args spelling index (take num_args l)
                (sub32 (add32 index (1 + num_args)) (1 + num_args)) (add32 index (1 + num_args))))
            (sym (ap (λ k. drop k args) (first small) ∙ behind))
            (separately (take num_args ws) _ _ same (many small enough)
              (take-length-take num_args ws)))
  ]
    where
      first : num_args < 256 → sub32 (add32 index (1 + num_args)) num_args ≡ suc index
      first h = omega (arith, inside)

      many :
          num_args < 256
          → ltb (length args) (add32 index (1 + num_args)) ≡ false
          → add32 index (1 + num_args) ≡ suc index + length (take num_args ws)
      many h enough = ground (arith, inside, size, length-take_le num_args ws)

  separate_remaining :
      spelling ++ rest ≡ spelling
      → Rendered RenderStyleKind.render_separate (take_remaining id num_args args spelling index [])
  separate_remaining same =
      subst
        (λ l. Rendered RenderStyleKind.render_separate (
          taken id num_args args spelling index (until_empty l) index
            (add32 (add32 index 1) (length (until_empty l)))))
        (sym (ap (λ k. drop k args) next_index ∙ behind))
        (separately (until_empty ws) index _ same
          (omega (arith, inside, size, length-until_empty ws)) (take-until_empty ws))
    where
      next_index : add32 index 1 ≡ suc index
      next_index = omega (arith, inside)

  joined_here : Rendered RenderStyleKind.render_joined (take_joined id num_args args spelling index)
  unfolding to_arg_str get_spelling_view write_values
  joined_here = ap ok (
      ap (λ v. spelling ++ v) (ap (drop (length spelling)) here ∙ drop-append spelling rest)
      ∙ sym (ap joined_words (ap (λ n. take n (drop index args)) one ∙ ap (take 1) at)))
    where
      one : add32 index 1 - index ≡ 1
      one = omega (arith, inside)

  pub rendered :
      (kind : OptionClass)
      → num_args < 256
      → keeps kind ≡ true
      → OnOk (Rendered (style_of kind)) (accept_internal id num_args args spelling index kind)
  unfolding accept_internal to_arg_str get_spelling_view write_values
  rendered OptionClass.flag small h =
      if_exact _ (λ same. separately [] index _ same (omega (arith, inside)) refl)
  rendered OptionClass.joined small h = joined_here
  rendered OptionClass.separate small h = if_exact _ separate_next
  rendered OptionClass.multi_arg small h = if_exact _ (separate_many small)
  rendered OptionClass.remaining_args small h = if_exact _ separate_remaining
  rendered OptionClass.group small h = cc
  rendered OptionClass.input small h = cc
  rendered OptionClass.unknown small h = cc
  rendered OptionClass.values small h = cc
  rendered OptionClass.comma_joined small h = cc
  rendered OptionClass.joined_or_separate small h = cc
  rendered OptionClass.joined_and_separate small h = cc
  rendered OptionClass.remaining_args_joined small h = cc
