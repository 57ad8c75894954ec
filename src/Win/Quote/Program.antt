-- ===== src/Win/Quote/Program.antt =====
-- catter-hook/win/impl.cc: theorems about cmdline_of as a whole, the program's name included.
use catter.Prelude.{
  ℕ, suc, ◌≡◌, refl, ap, ◌∙◌, sym, Bool, true, false, not, List, [], ◌∷◌, ◌++◌, ◌==◌, ◌&&◌,
  if◌then◌else◌, Bytes, append_assoc, append-nil, if-eq_true, if-eq_false, Bool-cases, inl, inr,
  ==_iff,
}
use catter.Rpc.{Command}
use catter.Win.Quote.{backslashes, is_special, has_special, quoted, quote_win32_arg, cmdline_of}
use catter.Win.Quote.Split.{arguments, is_blank, backslashes-cons, and_false}
use catter.Win.Quote.Arguments.{
  Ends, after, joined, joined-Ends, append_args-joined, after-joined, without_empty, ||-false,
  no_blank, plain,
}

-- How the program's own name is read, as documented: up to a blank outside quotes, and backslashes
-- are nothing special.
unfoldable pub program : Bool → Bytes → Bytes → List Bytes
program quoting cur [] = cur ∷ []
program quoting cur (c ∷ s) =
    let toggled = program (not quoting) cur s in
    let more = program quoting (cur ++ c ∷ []) s in
    if c == b'"' then toggled else if is_blank c && not quoting then cur ∷ arguments s else more

abbrev pub command_line : Bytes → List Bytes
command_line s = program false [] s

-- A name without a quote, and not ending in a backslash.
abbrev pub IsProgram : Bytes → Type 0
IsProgram [] = Unit
IsProgram (c ∷ []) = ((c == b'"') ≡ false) × ((c == b'\\') ≡ false)
IsProgram (c ∷ d ∷ s) = ((c == b'"') ≡ false) × IsProgram (d ∷ s)

quoted-other :
    (n c : ℕ) (arg : Bytes)
    → (c == b'\\') ≡ false
    → (c == b'"') ≡ false
    → quoted n (c ∷ arg) ≡ backslashes n ++ c ∷ quoted 0 arg
unfolding quoted
quoted-other n c arg other no_quote =
    if-eq_false (c == b'\\') _ _ other ∙ if-eq_false (c == b'"') _ _ no_quote

quoted-backslash : (n : ℕ) (arg : Bytes) → quoted n (b'\\' ∷ arg) ≡ quoted (suc n) arg
unfolding quoted
quoted-backslash n arg = refl

pub quoted-end : quoted 0 [] ≡ b'"' ∷ []
unfolding quoted
quoted-end = refl

pub quoted-program :
    (n : ℕ) (c : ℕ) (exe : Bytes)
    → IsProgram (c ∷ exe)
    → quoted n (c ∷ exe) ≡ backslashes n ++ (c ∷ exe) ++ b'"' ∷ []
quoted-program n c [] h =
    quoted-other n c [] h.1 h.0
    ∙ ap (λ l. backslashes n ++ c ∷ l) quoted-end
    ∙ sym (append_assoc (backslashes n) (c ∷ []) (b'"' ∷ []))
quoted-program n c (d ∷ exe) h = elim (Bool-cases (c == b'\\')) [
  | inl backslash ↦
      let is_backslash = (==_iff c b'\\').0 backslash in
      ap (λ a. quoted n (a ∷ d ∷ exe)) is_backslash
      ∙ quoted-backslash n (d ∷ exe)
      ∙ quoted-program (suc n) d exe h.1
      ∙ ap (λ l. l ++ b'"' ∷ [])
          (sym (backslashes-cons n (d ∷ exe))
            ∙ ap (λ a. backslashes n ++ a ∷ d ∷ exe) (sym is_backslash))
  | inr other ↦
      quoted-other n c (d ∷ exe) other h.0
      ∙ ap (λ l. backslashes n ++ c ∷ l) (quoted-program 0 d exe h.1)
      ∙ sym (append_assoc (backslashes n) (c ∷ d ∷ exe) (b'"' ∷ []))
]

module _ (quoting : Bool) (cur : Bytes) (c : ℕ) (s : Bytes) where
  program-more :
      (c == b'"') ≡ false
      → (is_blank c && not quoting) ≡ false
      → program quoting cur (c ∷ s) ≡ program quoting (cur ++ c ∷ []) s
  unfolding program
  program-more no_quote no_blank' =
      if-eq_false (c == b'"') _ _ no_quote ∙ if-eq_false (is_blank c && not quoting) _ _ no_blank'

-- In quotes, and without them, up to what follows the name.
program-quote :
    (quoting : Bool) (cur s : Bytes) → program quoting cur (b'"' ∷ s) ≡ program (not quoting) cur s
unfolding program
program-quote quoting cur s = refl

program-quoted :
    (cur exe s : Bytes)
    → IsProgram exe
    → program true cur (exe ++ b'"' ∷ s) ≡ program false (cur ++ exe) s
program-quoted cur [] s h =
    program-quote true cur s ∙ ap (λ l. program false l s) (sym (append-nil cur))
program-quoted cur (c ∷ []) s h =
    program-more true cur c (b'"' ∷ s) h.0 (and_false (is_blank c))
    ∙ program-quote true (cur ++ c ∷ []) s
program-quoted cur (c ∷ d ∷ exe) s h =
    program-more true cur c (d ∷ (exe ++ b'"' ∷ s)) h.0 (and_false (is_blank c))
    ∙ program-quoted (cur ++ c ∷ []) (d ∷ exe) s h.1
    ∙ ap (λ l. program false l s) (append_assoc cur (c ∷ []) (d ∷ exe))

pub program-plain :
    (cur exe s : Bytes)
    → has_special exe ≡ false
    → program false cur (exe ++ s) ≡ program false (cur ++ exe) s
unfolding has_special
program-plain cur [] s h = ap (λ l. program false l s) (sym (append-nil cur))
program-plain cur (c ∷ exe) s h =
    let (no_special, rest) = ||-false (is_special c) (has_special exe) h in
    program-more false cur c (exe ++ s) (plain c no_special).0 (no_blank c no_special)
    ∙ program-plain (cur ++ c ∷ []) exe s rest
    ∙ ap (λ l. program false l s) (append_assoc cur (c ∷ []) exe)

pub program-end : (cur s : Bytes) → Ends s → program false cur s ≡ cur ∷ after s
unfolding program
program-end cur [] ends = refl
program-end cur (c ∷ s) ends = rw (ends) refl

program-quote_win32_arg :
    (exe s : Bytes)
    → IsProgram exe
    → Ends s
    → command_line (quote_win32_arg exe ++ s) ≡ exe ∷ after s
unfolding quote_win32_arg
program-quote_win32_arg [] s h ends = unfold has_special in program-end [] s ends
program-quote_win32_arg (c ∷ exe) s h ends = elim (Bool-cases (has_special (c ∷ exe))) [
  | inl special ↦
      ap (λ q. command_line (q ++ s))
        (if-eq_true (has_special (c ∷ exe)) _ _ special
          ∙ ap (λ l. b'"' ∷ l) (quoted-program 0 c exe h))
      ∙ program-quote false [] (c ∷ (exe ++ b'"' ∷ []) ++ s)
      ∙ ap (program true []) (append_assoc (c ∷ exe) (b'"' ∷ []) s)
      ∙ program-quoted [] (c ∷ exe) s h
      ∙ program-end (c ∷ exe) s ends
  | inr no_special ↦
      ap (λ q. command_line (q ++ s)) (if-eq_false (has_special (c ∷ exe)) _ _ no_special)
      ∙ program-plain [] (c ∷ exe) s no_special
      ∙ program-end (c ∷ exe) s ends
]

-- The program that run starts reads the command: its own name and the arguments, in order and
-- whatever characters they have, except that an empty argument is lost. The name has no quote and
-- does not end in a backslash.
pub cmdline_of-command_line :
    (cmd : Command)
    → IsProgram cmd.executable
    → command_line (cmdline_of cmd) ≡ cmd.executable ∷ without_empty cmd.args
unfolding cmdline_of
cmdline_of-command_line cmd h =
    ap command_line (append_args-joined (quote_win32_arg cmd.executable) cmd.args)
    ∙ program-quote_win32_arg cmd.executable (joined cmd.args) h (joined-Ends cmd.args)
    ∙ ap (λ l. cmd.executable ∷ l) (after-joined cmd.args)
