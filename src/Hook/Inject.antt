-- ===== src/Hook/Inject.antt =====
-- payload/inject/lib.cc (the Linux branch): the exported symbols. A process that bears the mark of
-- catter-proxy gets the real function; any other gets the Executor. The argv[0] that the log
-- prints is not modelled, nor are on_load and on_unload, which put the addresses of the persisted
-- strings into the static session.
pub mod Mark
pub mod Variadic
use catter.Prelude.{
  ℕ, zero, suc, Bool, true, false, Option, none, some, List, [], ◌∷◌, Bytes, if◌then◌else◌,
}
use catter.Hook.Config.{catter_proxy_env_key}
use catter.Hook.Environment.{get_env_value}
use catter.Hook.Session.{Session}
use catter.Hook.Resolver.{FileSystem}
use catter.Hook.Executor.{Outcome}

-- The functions that dynamic_linker looks up.
pub data Symbol : Type 0 where
  execve execv execvpe execvp execv_search posix_spawn posix_spawnp : Symbol

-- What a hook does: it calls the real function, or the Executor with an outcome.
pub data Entered : Type 0 where
  real :
      (name : Symbol) (path : Option Bytes) (search_path : Option Bytes) (argv : List Bytes)
      → (envp : Option (List Bytes)) → Entered
  hooked : Outcome → Entered

-- IF_IN_PROXY, by `getenv`
abbrev pub in_proxy : List Bytes → Bool
in_proxy environment = elim (get_env_value environment catter_proxy_env_key) [
  | none ↦ false
  | some value ↦ true
]

-- An argument behind the named ones.
pub data VaArg : Type 0 where
  string : Bytes → VaArg
  null : VaArg
  array : List Bytes → VaArg

-- va_length: `none` reads past the arguments, or takes an array for a string.
unfoldable pub va_length : List VaArg → Option ℕ
va_length [] = none
va_length (string s ∷ args) = elim (va_length args) [ none ↦ none | some n ↦ some (suc n) ]
va_length (null ∷ args) = some zero
va_length (array envp ∷ args) = none

-- va_copy_n: the strings before the nullptr, of `argc` arguments, and the arguments left.
unfoldable pub va_copy_n : List VaArg → ℕ → Option (List Bytes × List VaArg)
va_copy_n args zero = some ([], args)
va_copy_n (string s ∷ args) (suc argc) = elim (va_copy_n args argc) [
  | none ↦ none
  | some r ↦ some (s ∷ r.0, r.1)
]
va_copy_n (null ∷ args) (suc argc) = some ([], args)
va_copy_n _ (suc argc) = none

-- argv of execl, execlp and execle: the path in the place of `arg`, then the arguments.
unfoldable pub collect_args : Bytes → List VaArg → Option (List Bytes × List VaArg)
collect_args path args = elim (va_length args) [
  | none ↦ none
  | some argc ↦ elim (va_copy_n args (suc argc)) [ none ↦ none | some r ↦ some (path ∷ r.0, r.1) ]
]

module _ (fs : FileSystem) (confstr : Option Bytes) (linked : Bool) (session : Session)
    (environment : List Bytes) where
  unfoldable pub hook_execve : Option Bytes → List Bytes → List Bytes → Entered
  hook_execve path argv envp =
      if in_proxy environment
      then real Symbol.execve path none argv (some envp)
      else hooked (catter.Hook.Executor.execve fs confstr linked session path argv envp)

  unfoldable pub hook_execv : Option Bytes → List Bytes → Entered
  hook_execv path argv =
      if in_proxy environment
      then real Symbol.execv path none argv none
      else hooked (catter.Hook.Executor.execve fs confstr linked session path argv environment)

  unfoldable pub hook_execvpe : Option Bytes → List Bytes → List Bytes → Entered
  hook_execvpe file argv envp =
      if in_proxy environment
      then real Symbol.execvpe file none argv (some envp)
      else hooked (catter.Hook.Executor.execvpe fs confstr linked session file argv envp)

  unfoldable pub hook_execvp : Option Bytes → List Bytes → Entered
  hook_execvp file argv =
      if in_proxy environment
      then real Symbol.execvp file none argv none
      else hooked (catter.Hook.Executor.execvpe fs confstr linked session file argv environment)

  unfoldable pub hook_execv_search : Option Bytes → Bytes → List Bytes → Entered
  hook_execv_search file search_path argv =
      if in_proxy environment
      then real Symbol.execv_search file (some search_path) argv none
      else hooked (
          catter.Hook.Executor.execv_search fs confstr linked session file search_path argv
            environment)

  unfoldable pub hook_exect : Option Bytes → List Bytes → List Bytes → Entered
  hook_exect path argv envp =
      if in_proxy environment
      then real Symbol.execve path none argv (some envp)
      else hooked (catter.Hook.Executor.execve fs confstr linked session path argv envp)

  abbrev pub enter_execl : Bytes → Option (List Bytes × List VaArg) → Option Entered
  enter_execl path none = none
  enter_execl path (some (argv, args)) = some (hook_execve (some path) argv environment)

  unfoldable pub hook_execl : Bytes → Bytes → List VaArg → Option Entered
  hook_execl path arg args = enter_execl path (collect_args path args)

  abbrev pub enter_execlp : Bytes → Option (List Bytes × List VaArg) → Option Entered
  enter_execlp file none = none
  enter_execlp file (some (argv, args)) = some (hook_execvpe (some file) argv environment)

  unfoldable pub hook_execlp : Bytes → Bytes → List VaArg → Option Entered
  hook_execlp file arg args = enter_execlp file (collect_args file args)

  -- `va_arg(ap, char**)` behind the nullptr.
  abbrev pub enter_execle : Bytes → Option (List Bytes × List VaArg) → Option Entered
  enter_execle path (some (argv, array envp ∷ args)) = some (hook_execve (some path) argv envp)
  enter_execle path _ = none

  unfoldable pub hook_execle : Bytes → Bytes → List VaArg → Option Entered
  hook_execle path arg args = enter_execle path (collect_args path args)

  unfoldable pub hook_posix_spawn : Option Bytes → List Bytes → List Bytes → Entered
  hook_posix_spawn path argv envp =
      if in_proxy environment
      then real Symbol.posix_spawn path none argv (some envp)
      else hooked (catter.Hook.Executor.posix_spawn fs confstr linked session path argv envp)

  unfoldable pub hook_posix_spawnp : Option Bytes → List Bytes → List Bytes → Entered
  hook_posix_spawnp file argv envp =
      if in_proxy environment
      then real Symbol.posix_spawnp file none argv (some envp)
      else hooked (catter.Hook.Executor.posix_spawnp fs confstr linked session file argv envp)
