-- ===== src/Win/Launch.antt =====
-- catter-hook/win/impl.cc: how catter-proxy runs the command on Windows, with the hook injected. The
-- functions of Windows and DetourCreateProcessWithDllExA are parameters.
pub mod Child
use catter.Prelude.{ℕ, Bool, true, false, Option, none, some, List, [], ◌∷◌, ◌++◌, Bytes, codes}
use catter.Decimal.{to_string}
use catter.Rpc.{Command}
use catter.Launch.{Attempt, ok, threw}
use catter.Crossplat.{PathOps, get_environment_win}
use catter.Win.Quote.{cmdline_of}
use catter.Win.Environment.{append_entries, env_var_rpc_id, dll_name}

-- What a created process comes to: its exit code, or nothing where GetExitCodeProcess fails.
pub data Created : Type 0 where
  failed : (error : ℕ) → Created
  no_exit_code : (error : ℕ) → Created
  exited : (exit_code : ℕ) → Created

-- The process that runs `run`: its block of the environment after SetEnvironmentVariableA of a name
-- and a value, the path of catter, and DetourCreateProcessWithDllExA on a command line, a block and
-- a library, with WaitForSingleObject and GetExitCodeProcess.
pub record Windows : Type 0 where
  pub ops : PathOps
  pub root_path : Bytes
  pub with_variable : Bytes → Bytes → Option Bytes
  pub create : Bytes → Bytes → Bytes → Created
  pub message : ℕ → Bytes

-- The environment block: each string with its 0, and one more 0.
unfoldable pub env_block_of : List Bytes → Bytes
env_block_of environment = append_entries environment ++ 0 ∷ []

abbrev pub dll_path : Windows → Bytes
dll_path w = w.ops.append w.root_path dll_name

-- What follows DetourCreateProcessWithDllExA. std::system_error appends the error's message.
abbrev pub waited : Windows → Created → Attempt ℕ
waited w (failed error) =
    threw (codes "Failed to create process with injected dll" ++ (codes ": " ++ w.message error))
waited w (no_exit_code error) =
    threw (codes "Failed to get exit code of process" ++ (codes ": " ++ w.message error))
waited w (exited exit_code) = ok exit_code

abbrev pub run_in : Windows → Bytes → Option (List Bytes) → Option (Attempt ℕ)
run_in w cmdline none = none
run_in w cmdline (some environment) =
    some (waited w (w.create cmdline (env_block_of environment) (dll_path w)))

-- run; nothing where a block of Windows has no end.
unfoldable pub run : Windows → Command → ℕ → Option (Attempt ℕ)
run w cmd id =
    run_in w (cmdline_of cmd) (get_environment_win (w.with_variable env_var_rpc_id (to_string id)))

-- locate_exe does nothing.
unfoldable pub locate_exe : Command → Command
locate_exe command = command
