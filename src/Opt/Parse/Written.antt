-- ===== src/Opt/Parse/Written.antt =====
-- common/option: theorems that to_arg_str writes what accept has read.
use catter.Prelude.{
  ℕ, ◌-◌, ◌<◌, ◌≡◌, refl, ap, ◌∙◌, true, false, Option, none, some, List, ◌∷◌, ◌++◌, ◌==◌, Bytes,
  length, take, drop,
}
use mathlib.Core.Path.{subst}
use catter.Opt.{Checked, ok, Fits, OnOk, OnOk-if, OnOk-bind, OnOk-all, ◌>>=◌}
use catter.Opt.Table.{OptTable, make_option, option, is_flag}
use catter.Opt.Info.{OptionClass, RenderStyleKind, Info}
use catter.Opt.Argument.{ParsedArgument, to_arg_str}
use catter.Opt.Accept.{
  Accepted, accept_internal, render_style, finish_accept, unalias, addition_of, kind_of, accept,
}
use catter.Opt.Parse.Rendered.{keeps, style_of, joined_words, Rendered, rendered}

-- Parts that a rendering depends on.
to_arg_str-same :
    (a a' : ParsedArgument) (style : RenderStyleKind)
    → (a'.spelling ≡ a.spelling) × (a'.values ≡ a.values)
    → to_arg_str a' style ≡ to_arg_str a style
unfolding to_arg_str
to_arg_str-same a a' RenderStyleKind.render_comma_joined (s, v) = rw (s, v) refl
to_arg_str-same a a' RenderStyleKind.render_joined (s, v) = rw (s, v) refl
to_arg_str-same a a' RenderStyleKind.render_separate (s, v) = rw (s, v) refl
to_arg_str-same a a' RenderStyleKind.render_values (s, v) = rw (s) refl

abbrev Same : ParsedArgument → ParsedArgument → Type 0
Same a a' = (a'.spelling ≡ a.spelling) × (a'.values ≡ a.values)

unalias-Same :
    (t : OptTable) (i target : Info) (a : ParsedArgument) → OnOk (Same a) (unalias t i target a)
unalias-Same t i target a =
    OnOk-if (Same a) (is_flag i.kind) _ _
      (λ flag.
        OnOk-bind (λ v. Unit) (Same a) (addition_of i.alias_args kind) _
          (OnOk-all (λ v. Unit) (addition_of i.alias_args kind) (λ v. tt)) (λ v h. (refl, refl)))
      (λ other. (refl, refl))
  where
    kind : Checked OptionClass
    kind = option t target.id >>= kind_of

module _ (t : OptTable) (i : Info) (args : List Bytes) (spelling rest : Bytes) (index : ℕ)
    (ws : List Bytes) (at : drop index args ≡ (spelling ++ rest) ∷ ws)
    (fits : Fits (length args)) where
  finish_accept-Rendered :
      (style : RenderStyleKind) (target : Option Info) (r : Accepted)
      → Rendered i.id i.param args spelling rest index ws at fits style r
      → OnOk
          (Rendered i.id i.param args spelling rest index ws at fits style)
          (finish_accept t i target r)
  finish_accept-Rendered style none (none, next) h = h
  finish_accept-Rendered style (some target) (none, next) h = h
  finish_accept-Rendered style none (some a, next) h = h
  finish_accept-Rendered style (some target) (some a, next) h =
      OnOk-if _ (i.id == target.id) _ _ (λ same. h)
        (λ other.
          OnOk-bind (Same a) _ (unalias t i target a) _ (unalias-Same t i target a)
            (λ a' same. to_arg_str-same a a' style same ∙ h))

  accept-Rendered :
      i.param < 256
      → keeps i.kind ≡ true
      → OnOk
          (Rendered i.id i.param args spelling rest index ws at fits (style_of i.kind))
          (accept t i args spelling false index)
  unfolding accept
  accept-Rendered small kept =
      OnOk-bind (λ target. Unit) _ (make_option t i) _
        (OnOk-all (λ target. Unit) (make_option t i) (λ target. tt))
        (λ target u.
          OnOk-bind (Rendered i.id i.param args spelling rest index ws at fits (style_of i.kind)) _
            (accept_internal i.id i.param args spelling index i.kind) (finish_accept t i target)
            (rendered i.id i.param args spelling rest index ws at fits i.kind small kept)
            (finish_accept-Rendered (style_of i.kind) target))

style-keeps :
    (i : Info) (kind : OptionClass)
    → i.kind ≡ kind
    → i.flags ≡ 0
    → keeps kind ≡ true
    → render_style i ≡ style_of kind
unfolding render_style
style-keeps i OptionClass.flag e plain h = rw (plain, e) refl
style-keeps i OptionClass.joined e plain h = rw (plain, e) refl
style-keeps i OptionClass.separate e plain h = rw (plain, e) refl
style-keeps i OptionClass.multi_arg e plain h = rw (plain, e) refl
style-keeps i OptionClass.remaining_args e plain h = rw (plain, e) refl
style-keeps i OptionClass.group e plain h = cc
style-keeps i OptionClass.input e plain h = cc
style-keeps i OptionClass.unknown e plain h = cc
style-keeps i OptionClass.values e plain h = cc
style-keeps i OptionClass.comma_joined e plain h = cc
style-keeps i OptionClass.joined_or_separate e plain h = cc
style-keeps i OptionClass.joined_and_separate e plain h = cc
style-keeps i OptionClass.remaining_args_joined e plain h = cc

-- What an option accepts is written by to_arg_str, in the option's style, as exactly the words that
-- accept has read, with a blank between them. For a flag, a joined, a separate, a multi-argument or
-- a remaining-arguments option without flags, an alias or not.
pub to_arg_str-accept :
    (t : OptTable) (i : Info) (args : List Bytes) (spelling rest : Bytes) (index : ℕ)
    (ws : List Bytes) (a : ParsedArgument) (next : ℕ)
    → i.param < 256
    → Fits (length args)
    → i.flags ≡ 0
    → keeps i.kind ≡ true
    → drop index args ≡ (spelling ++ rest) ∷ ws
    → accept t i args spelling false index ≡ ok (some a, next)
    → to_arg_str a (render_style i) ≡ ok (joined_words (take (next - index) (drop index args)))
to_arg_str-accept t i args spelling rest index ws a next small fits plain kept at accepted =
    ap (to_arg_str a) (style-keeps i i.kind refl plain kept)
    ∙ subst (OnOk (Rendered i.id i.param args spelling rest index ws at fits (style_of i.kind)))
        accepted (accept-Rendered t i args spelling rest index ws at fits small kept)
