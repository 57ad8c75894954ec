-- ===== src/Hook/Executor.antt =====
-- payload/executor.cc and payload/linker.cc: what a hooked exec or spawn does. The symbol that
-- dlsym finds is a parameter: what it returns for a command and an environment.
pub mod Intercept
use mathlib.Core.Option
use catter.Prelude.{
  ℕ, Bool, true, false, Option, none, some, List, [], ◌∷◌, Bytes, codes, if◌then◌else◌,
}
use catter.Hook.Buffer.{Memory}
use catter.Hook.Session.{Session, is_valid}
use catter.Hook.Resolver.{
  FileSystem, Resolved, found, failed, overrun, from_current_directory, from_path, from_search_path,
}
use catter.Hook.Command.{
  Argv, CmdBuilder, Command, built, original, valid, make, error_str, proxy_str,
}

abbrev pub efault : ℕ
efault = 14

abbrev pub enosys : ℕ
enosys = 38

-- What a hooked call comes to: the real function is entered with a command (and the hook returns
-- what that returns), a plain return of n, or -1 with errno set. `undefined` is a crash or a read
-- outside an object.
pub data Outcome : Type 0 where
  called : Command → Outcome
  code : ℕ → Outcome
  minus_one : ℕ → Outcome
  undefined : Outcome

-- Linker reads `argv[1][1]` before the call.
abbrev is_readable : Command → Bool
is_readable (built path argv m) = elim (argv 1) [ none ↦ false | some a ↦ true ]
is_readable (original path none) = false
is_readable (original path (some (arg0 ∷ arg1 ∷ args))) = true
is_readable (original path (some _)) = false

-- Linker::execve and Linker::posix_spawn, and the return after them: `linked` says whether dlsym
-- has found the real function.
unfoldable pub launch : Bool → Command → Outcome
launch linked cmd =
    if linked then (if is_readable cmd then called cmd else undefined) else minus_one enosys

-- CHECK_SESSION: for an invalid session the error command.
unfoldable pub check_session :
    Session → CmdBuilder → Bytes → List Bytes → Option (CmdBuilder × Option Command)
check_session session b exec argv =
    if is_valid session
    then some (b, none)
    else Option.map (λ r. (r.0, some r.1))
        (error_str b (codes "invalid enviroment variables of hook library, lost required value")
          exec (some argv))

abbrev launch_built : Bool → Option (CmdBuilder × Command) → Outcome
launch_built linked none = undefined
launch_built linked (some (b, cmd)) = launch linked cmd

-- `auto [new_path, new_argv] = final_cmd_or_error`, built now if there is none yet.
unfoldable pub launch_final : Bool → CmdBuilder → Option Command → Bytes → List Bytes → Outcome
launch_final linked b none exe argv = launch_built linked (proxy_str b exe argv)
launch_final linked b (some cmd) exe argv =
    if valid cmd then launch linked cmd else launch_built linked (proxy_str b exe argv)

-- CHECK_EXEC_RESULT, which builds an error command and returns the error.
abbrev pub after_resolve :
    Bool → CmdBuilder → Option Command → Bytes → List Bytes → Resolved → Outcome
after_resolve linked b final exec argv (found exe) = launch_final linked b final exe argv
after_resolve linked b final exec argv (failed e) =
    elim (error_str b (codes "Unable to locate executable") exec (some argv)) [
      | none ↦ undefined
      | some r ↦ code e
    ]
after_resolve linked b final exec argv overrun = undefined

abbrev after_session :
    Bool → (Bytes → Resolved) → Bytes → List Bytes → Option (CmdBuilder × Option Command) → Outcome
after_session linked resolve exec argv none = undefined
after_session linked resolve exec argv (some (b, final)) =
    after_resolve linked b final exec argv (resolve exec)

-- The body that the five methods share; they differ in how they resolve the name.
unfoldable pub intercept : Bool → (Bytes → Resolved) → Session → Option Bytes → List Bytes → Outcome
intercept linked resolve session none argv = minus_one efault
intercept linked resolve session (some exec) argv =
    after_session linked resolve exec argv
      (check_session session (make session.proxy_path session.self_id) exec argv)

module _ (fs : FileSystem) (confstr : Option Bytes) (linked : Bool) (session : Session) where
  unfoldable pub execve : Option Bytes → List Bytes → List Bytes → Outcome
  execve path argv envp = intercept linked (from_current_directory fs) session path argv

  unfoldable pub execvpe : Option Bytes → List Bytes → List Bytes → Outcome
  execvpe file argv envp = intercept linked (λ f. from_path fs confstr f envp) session file argv

  unfoldable pub execv_search : Option Bytes → Bytes → List Bytes → List Bytes → Outcome
  execv_search file search_path argv envp =
      intercept linked (λ f. from_search_path fs f search_path) session file argv

  unfoldable pub posix_spawn : Option Bytes → List Bytes → List Bytes → Outcome
  posix_spawn path argv envp = intercept linked (from_current_directory fs) session path argv

  unfoldable pub posix_spawnp : Option Bytes → List Bytes → List Bytes → Outcome
  posix_spawnp file argv envp =
      intercept linked (λ f. from_path fs confstr f envp) session file argv
