-- ===== src/Launch.antt =====
-- catter-hook/linux-mac/impl.cc: how catter-proxy finds and runs the command, with the hook in its
-- environment. popen, pclose, posix_spawn and waitpid are parameters.
pub mod Environment
pub mod Located
use catter.Prelude.{
  ℕ, zero, suc, ◌==◌, ◌++◌, Bool, true, false, not, Option, none, some, List, [], ◌∷◌, Bytes, codes,
  starts_with, if◌then◌else◌,
}
use catter.Decimal.{to_string}
use catter.Rpc.{Command, no_id}
use catter.Hook.Config.{
  key_preload, key_catter_command_id, key_catter_proxy_path, catter_proxy_env_key,
}

-- `fgets(buffer, n + 1, fp)` on the output of fp: up to n bytes, or through a newline.
unfoldable pub fgets : ℕ → Bytes → Bytes
fgets zero output = []
fgets (suc n) [] = []
fgets (suc n) (c ∷ output) = let rest = fgets n output in if c == 10 then c ∷ [] else c ∷ rest

-- `result = buffer.data()`: a C string ends at its first 0.
unfoldable pub c_str : Bytes → Bytes
c_str [] = []
c_str (c ∷ s) = let rest = c_str s in if c == 0 then [] else c ∷ rest

-- `if(result.back() == '\n') result.pop_back()`
unfoldable pub drop_newline : Bytes → Bytes
drop_newline [] = []
drop_newline (c ∷ []) = if c == 10 then [] else c ∷ []
drop_newline (c ∷ d ∷ s) = c ∷ drop_newline (d ∷ s)

-- A value, or an exception with its what().
pub data Attempt (A : Type 0) : Type 0 where
  ok : A → Attempt A
  threw : Bytes → Attempt A

-- What popen gives: nothing, or the output of the command and pclose's exit status (`none` for -1).
abbrev pub Popen : Type 0
Popen = Bytes → Option (Bytes × Option ℕ)

-- The throws after pclose, and `command.executable = result`.
abbrev pub located : Command → Bytes → Option ℕ → Attempt Command
located command result none = threw (codes "command -v failed to locate executable")
located command result (some (suc n)) = threw (codes "command -v failed to locate executable")
located command [] (some zero) = threw (codes "executable not found")
located command (c ∷ s) (some zero) = ok (record command { executable = c ∷ s })

unfoldable pub locate_exe : Popen → Command → Attempt Command
locate_exe popen command = elim (popen (codes "command -v " ++ command.executable)) [
  | none ↦ threw (codes "popen failed when locating executable")
  | some r ↦ located command (drop_newline (c_str (fgets 127 r.0))) r.1
]

-- What posix_spawn and waitpid come to.
pub data Spawned : Type 0 where
  spawn_failed : Spawned
  wait_failed : Spawned
  exited : (status : ℕ) → Spawned
  not_exited : Spawned

-- posix_spawn(path, argv, envp), then waitpid.
abbrev pub PosixSpawn : Type 0
PosixSpawn = Bytes → List Bytes → List Bytes → Spawned

abbrev pub exit_code : Spawned → ℕ
exit_code spawn_failed = no_id
exit_code wait_failed = no_id
exit_code (exited status) = status
exit_code not_exited = 0

-- run_command; -1 is its 32-bit pattern.
unfoldable pub run_command : PosixSpawn → Command → ℕ
run_command spawn command =
    exit_code (spawn command.executable (command.executable ∷ command.args) command.env)

-- `std::format("{}={}", key, value)`
abbrev pub assignment : Bytes → Bytes → Bytes
assignment key value = key ++ b'=' ∷ value

-- std::remove_if and erase.
unfoldable pub remove_entries : List Bytes → List Bytes
remove_entries [] = []
remove_entries (e ∷ env) =
    let rest = remove_entries env in if starts_with e catter_proxy_env_key then rest else e ∷ rest

-- The environment that `run` builds.
unfoldable pub child_env : Bytes → Bytes → List Bytes → ℕ → List Bytes
child_env lib_path proxy_path env id = remove_entries (
    env
    ++ (assignment key_preload lib_path
        ∷ assignment key_catter_command_id (to_string id)
        ∷ assignment key_catter_proxy_path proxy_path
        ∷ []))

-- What the file system and the system library tell: get_hook_path(), whether it exists,
-- get_executable_path(), and the system calls.
pub record Host : Type 0 where
  pub lib_path : Bytes
  pub lib_exists : Bool
  pub executable_path : Bytes
  pub popen : Popen
  pub spawn : PosixSpawn

-- hook::run
unfoldable pub run : Host → Command → ℕ → Attempt ℕ
run host command id =
    if host.lib_exists
    then ok (
        run_command host.spawn
          (record command { env = child_env host.lib_path host.executable_path command.env id }))
    else threw (codes "Catter-Proxy Hook library not found at path: " ++ host.lib_path)
