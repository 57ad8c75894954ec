-- ===== src/Opt/Parse/Prefixed.antt =====
-- common/option/opt_table.cc: lemmas on names that are matched exactly, or only begin an argument.
use catter.Prelude.{
  ℕ, zero, suc, ◌<◌, ◌≡◌, refl, ap, Bool, true, false, none, some, List, [], ◌∷◌, ◌++◌, ◌==◌, Bytes,
  length, drop, take, arith, bytes_eq, starts_with, inl, ◌⊎◌, All, length-append, ◌&&◌,
}
use catter.Opt.{ok}
use catter.Opt.Table.{OptTable}
use catter.Opt.Info.{Info, OptionClass, name}
use catter.Opt.Accept.{Accepted, finish_accept}
use catter.Opt.Match.{match_prefixes}

starts_with-append :
    (w p n : Bytes)
    → starts_with w (p ++ n) ≡ (starts_with w p && starts_with (drop (length p) w) n)
starts_with-append w [] n = refl
starts_with-append [] (a ∷ p) n = refl
starts_with-append (b ∷ w) (a ∷ p) n = ground (arith, starts_with-append w p n)

starts_with-lt : (w f : Bytes) → starts_with w f ≡ true → bytes_eq w f ≡ false → length f < length w
starts_with-lt [] [] h e = ground arith
starts_with-lt (b ∷ w) [] h e = omega arith
starts_with-lt [] (a ∷ f) h e = ground arith
starts_with-lt (b ∷ w) (a ∷ f) h e = ground (arith, starts_with-lt w f)

-- A word that is not an option's name behind one of its prefixes is longer than what matches.
pub match_prefixes-inexact :
    (prefixes : List Bytes) (name w : Bytes)
    → All (λ p. bytes_eq w (p ++ name) ≡ false) prefixes
    → (match_prefixes prefixes name w false ≡ 0) ⊎ (match_prefixes prefixes name w false < length w)
unfolding match_prefixes
match_prefixes-inexact [] name w h = inl refl
match_prefixes-inexact (p ∷ prefixes) name w h = ground (
  arith,
  match_prefixes-inexact prefixes name w h.1,
  starts_with-lt w (p ++ name),
  starts_with-append w p name,
  length-append p name,
)

abbrev pub needs_exact : OptionClass → Bool
needs_exact OptionClass.flag = true
needs_exact OptionClass.separate = true
needs_exact _ = false

pub take-all : (w : Bytes) → take (length w) w ≡ w
take-all [] = refl
take-all (c ∷ w) = ap (λ s. c ∷ s) (take-all w)

pub length-take_lt : (n : ℕ) (w : Bytes) → n < length w → (length (take n w) == length w) ≡ false
length-take_lt n [] h = absurd (omega arith)
length-take_lt zero (c ∷ w) h = ground arith
length-take_lt (suc n) (c ∷ w) h = ground (arith, length-take_lt n w)

pub finish_accept-unaliased :
    (t : OptTable) (i : Info) (r : Accepted) → finish_accept t i none r ≡ ok r
finish_accept-unaliased t i (none, n) = refl
finish_accept-unaliased t i (some a, n) = refl
