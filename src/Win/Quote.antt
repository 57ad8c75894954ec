-- ===== src/Win/Quote.antt =====
-- catter-hook/win/impl.cc: quote_win32_arg and cmdline_of. `num_backslashes` is an int in the code;
-- a command line of Windows, of less than 2 ^ 15 characters, keeps it and its double in range.
pub mod Split
pub mod Arguments
pub mod Program
use catter.Prelude.{
  ℕ, suc, ◌+◌, ◌*◌, Bool, true, false, List, [], ◌∷◌, ◌++◌, ◌==◌, ◌||◌, if◌then◌else◌, Bytes,
  replicate,
}
use catter.Rpc.{Command}

abbrev pub backslashes : ℕ → Bytes
backslashes n = replicate n b'\\'

-- A character of " \t\n\v\"".
abbrev pub is_special : ℕ → Bool
is_special c = c == b' ' || (c == 9 || (c == 10 || (c == 11 || c == b'"')))

-- `arg.find_first_of(" \t\n\v\"") != npos`
unfoldable pub has_special : Bytes → Bool
has_special [] = false
has_special (c ∷ arg) = is_special c || has_special arg

-- The loop, and the quote behind it; `n` is num_backslashes so far.
unfoldable pub quoted : ℕ → Bytes → Bytes
quoted n [] = backslashes (n * 2) ++ b'"' ∷ []
quoted n (c ∷ arg) =
    let counted = quoted (suc n) arg in
    let rest = quoted 0 arg in
    if c == b'\\'
    then counted
    else if c == b'"'
    then backslashes (n * 2 + 1) ++ c ∷ rest
    else backslashes n ++ c ∷ rest

unfoldable pub quote_win32_arg : Bytes → Bytes
quote_win32_arg arg = if has_special arg then b'"' ∷ quoted 0 arg else arg

-- The loop of cmdline_of over the arguments.
unfoldable pub append_args : Bytes → List Bytes → Bytes
append_args full_cmd [] = full_cmd
append_args full_cmd (arg ∷ args) = append_args (full_cmd ++ b' ' ∷ quote_win32_arg arg) args

unfoldable pub cmdline_of : Command → Bytes
cmdline_of cmd = append_args (quote_win32_arg cmd.executable) cmd.args
