-- ===== src/Win/Detour/Converted.antt =====
-- catter-hook/win/payload/main.cc: theorems about the command line that catter-proxy is started with.
use catter.Prelude.{
  ℕ, ◌≡◌, refl, ap, ◌∙◌, sym, true, false, Option, none, some, List, [], ◌∷◌, ◌++◌, Bytes, codes,
  append_assoc, append-nil,
}
use catter.Win.Quote.{has_special, is_special, quoted}
use catter.Win.Quote.Split.{split, arguments, split-even, split-quoted}
use catter.Win.Quote.Arguments.{Ends, after, split-end, split-plain, split-start, ||-false}
use catter.Win.Quote.Program.{
  command_line, IsProgram, quoted-program, program-plain, program-end, quoted-end,
}
use catter.Win.Environment.{Block, fix_env_block}
use catter.Win.Detour.{
  Process, Call, Target, concat_cmdline, converted_cmdline, create_process, call_target,
  get_catter_exe_path, get_rpc_id,
}

quoted-literal : (exe : Bytes) → IsProgram exe → quoted 0 exe ≡ exe ++ b'"' ∷ []
quoted-literal [] h = quoted-end
quoted-literal (c ∷ exe) h = quoted-program 0 c exe h

-- The words of a CreateProcess: its application name, if it has one, and its command line.
abbrev pub words : Option Bytes → Bytes → List Bytes
words none line = arguments line
words (some application_name) line = application_name ∷ arguments line

abbrev IsApplication : Option Bytes → Type 0
IsApplication none = Unit
IsApplication (some application_name) = IsProgram application_name

-- The text that concat_cmdline joins an application name and a command line to.
joined_line : Option Bytes → Bytes → Bytes
joined_line none line = line
joined_line (some app) line = (b'"' ∷ app) ++ b'"' ∷ b' ' ∷ line

concat_cmdline-some :
    (application_name : Option Bytes) (line : Bytes)
    → concat_cmdline application_name (some line) ≡ some (joined_line application_name line)
unfolding concat_cmdline joined_line
concat_cmdline-some none line = refl
concat_cmdline-some (some app) line = refl

joined_line-words :
    (application_name : Option Bytes) (line : Bytes)
    → IsApplication application_name
    → arguments (joined_line application_name line) ≡ words application_name line
unfolding joined_line
joined_line-words none line h = refl
joined_line-words (some app) line h =
    split-even false 0 [] (app ++ b'"' ∷ b' ' ∷ line) false refl
    ∙ ap (split true 0 [] true) (
        sym (append_assoc app (b'"' ∷ []) (b' ' ∷ line))
        ∙ ap (λ l. l ++ b' ' ∷ line) (sym (quoted-literal app h)))
    ∙ split-quoted 0 [] app (b' ' ∷ line)
    ∙ split-end 0 app (b' ' ∷ line) refl
    ∙ ap (λ l. l ∷ arguments line) (append-nil app)

arguments-plain :
    (c : ℕ) (word s : Bytes)
    → has_special (c ∷ word) ≡ false
    → Ends s
    → arguments ((c ∷ word) ++ s) ≡ (c ∷ word) ∷ after s
arguments-plain c word s h ends =
    split-start c (word ++ s)
      (unfold has_special in (||-false (is_special c) (has_special word) h).0)
    ∙ split-plain 0 [] (c ∷ word) s h ends

flag-p : (s : Bytes) → arguments (codes "-p " ++ s) ≡ codes "-p" ∷ arguments s
unfolding split
flag-p s = refl

flag-dashes : (s : Bytes) → arguments (codes "-- " ++ s) ≡ codes "--" ∷ arguments s
unfolding split
flag-dashes s = refl

converted_cmdline-words :
    (exe_path : Bytes) (c : ℕ) (rpc_id line : Bytes)
    → has_special exe_path ≡ false
    → has_special (c ∷ rpc_id) ≡ false
    → command_line (converted_cmdline exe_path (c ∷ rpc_id) line)
      ≡ exe_path ∷ codes "-p" ∷ (c ∷ rpc_id) ∷ codes "--" ∷ arguments line
unfolding converted_cmdline
converted_cmdline-words exe_path c rpc_id line no_special plain_id =
    program-plain [] exe_path (codes " -p " ++ ((c ∷ rpc_id) ++ (codes " -- " ++ line))) no_special
    ∙ program-end exe_path (codes " -p " ++ ((c ∷ rpc_id) ++ (codes " -- " ++ line))) refl
    ∙ ap (λ l. exe_path ∷ l)
        (flag-p ((c ∷ rpc_id) ++ (codes " -- " ++ line))
          ∙ ap (λ l. codes "-p" ∷ l)
              (arguments-plain c rpc_id (codes " -- " ++ line) plain_id refl
                ∙ ap (λ l. (c ∷ rpc_id) ∷ l) (flag-dashes line)))

module _ {Rest : Type 0} (fuel : ℕ) (p : Process) (call : Call Rest) where
  -- A hooked CreateProcess whose command line is not null starts catter-proxy, without an
  -- application name, with the fixed environment block and an argv of its path, -p, the id of the
  -- command, -- and the words of the call: if the path of the hook's library is found, the
  -- environment block has an end, the path and the id have no blank and no quote, the id is not
  -- empty, and the application name has no quote and no backslash at its end.
  pub create_process-words :
      (exe_path rpc_id line : Bytes) (fixed_env : Block) (c : ℕ)
      → get_catter_exe_path fuel p ≡ some exe_path
      → get_rpc_id p ≡ c ∷ rpc_id
      → call.command_line ≡ some line
      → fix_env_block call.unicode (c ∷ rpc_id) call.environment ≡ some fixed_env
      → has_special exe_path ≡ false
      → has_special (c ∷ rpc_id) ≡ false
      → IsApplication call.application_name
      → (target : Target Rest) × (create_process fuel p call ≡ some target)
        × (target.application_name ≡ none)
        × (target.environment ≡ fixed_env)
        × (target.rest ≡ call.rest)
        × (command_line target.command_line
            ≡ exe_path ∷ codes "-p" ∷ (c ∷ rpc_id) ∷ codes "--" ∷ words call.application_name line)
  unfolding create_process
  create_process-words exe_path rpc_id line fixed_env c at id given fixed plain_path plain_id
        named =
      (
        call_target call exe_path (c ∷ rpc_id) fixed_env (joined_line call.application_name line),
        rw (create_process, id, fixed, at, given, concat_cmdline-some call.application_name line)
            (ap
              (λ r.
                some
                  (call_target call exe_path r fixed_env (joined_line call.application_name line)))
              id),
        refl,
        refl,
        refl,
        converted_cmdline-words exe_path c rpc_id (joined_line call.application_name line)
              plain_path plain_id
            ∙ ap (λ l. exe_path ∷ codes "-p" ∷ (c ∷ rpc_id) ∷ codes "--" ∷ l)
                (joined_line-words call.application_name line named),
      )
