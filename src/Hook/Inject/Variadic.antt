-- ===== src/Hook/Inject/Variadic.antt =====
-- payload/inject/lib.cc: the variadic hooks and the ones that take argv.
use catter.Prelude.{suc, ◌≡◌, refl, ap, Bool, Option, some, List, [], ◌∷◌, Bytes, length}
use catter.Hook.Session.{Session}
use catter.Hook.Resolver.{FileSystem}
use catter.Hook.Inject.{
  VaArg, string, null, array, va_length, va_copy_n, collect_args, hook_execve, hook_execl,
  hook_execle, hook_execlp, hook_execvpe, enter_execl, enter_execle, enter_execlp,
}

-- The arguments of a call: strings, the nullptr, and what is behind it.
abbrev pub va_args : List Bytes → List VaArg → List VaArg
va_args [] rest = null ∷ rest
va_args (s ∷ args) rest = string s ∷ va_args args rest

va_length-va_args :
    (args : List Bytes) (rest : List VaArg) → va_length (va_args args rest) ≡ some (length args)
unfolding va_length
va_length-va_args [] rest = refl
va_length-va_args (s ∷ args) rest = rw (va_length-va_args args rest)

va_copy_n-va_args :
    (args : List Bytes) (rest : List VaArg)
    → va_copy_n (va_args args rest) (suc (length args)) ≡ some (args, rest)
unfolding va_copy_n
va_copy_n-va_args [] rest = refl
va_copy_n-va_args (s ∷ args) rest = rw (va_copy_n, va_copy_n-va_args args rest)

collect_args-va_args :
    (path : Bytes) (args : List Bytes) (rest : List VaArg)
    → collect_args path (va_args args rest) ≡ some (path ∷ args, rest)
unfolding collect_args
collect_args-va_args path args rest =
    rw (collect_args, va_length-va_args args rest, va_copy_n-va_args args rest)

module _ (fs : FileSystem) (confstr : Option Bytes) (linked : Bool) (session : Session)
    (environment : List Bytes) where
  -- The variadic hooks do what the hook of execve or execvpe does with the arguments as argv, and
  -- the path in the place of argv[0].
  pub execl-execve :
      (path arg : Bytes) (args envp : List Bytes) (rest : List VaArg)
      → (hook_execl fs confstr linked session environment path arg (va_args args rest)
          ≡ some (
              hook_execve fs confstr linked session environment
                (some path)
                (path ∷ args)
                environment))
        × (hook_execlp fs confstr linked session environment path arg (va_args args rest)
            ≡ some (
                hook_execvpe fs confstr linked session environment
                  (some path)
                  (path ∷ args)
                  environment))
        × (hook_execle fs confstr linked session environment path arg
              (va_args args (array envp ∷ rest))
            ≡ some
                (hook_execve fs confstr linked session environment (some path) (path ∷ args) envp))
  unfolding hook_execl hook_execlp hook_execle
  execl-execve path arg args envp rest =
      let list = collect_args-va_args path args rest in
      (
        ap (enter_execl fs confstr linked session environment path) list,
        ap (enter_execlp fs confstr linked session environment path) list,
        ap (enter_execle fs confstr linked session environment path)
            (collect_args-va_args path args (array envp ∷ rest)),
      )
