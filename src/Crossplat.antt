-- ===== src/Crossplat.antt =====
-- common/util/crossplat.cc: the environment and the paths of a program, on the three platforms. The
-- calls of the systems are parameters, and so are the operations of std::filesystem::path.
pub mod Whole
use catter.Prelude.{
  ℕ, zero, suc, ◌+◌, ◌*◌, Bool, true, false, not, Option, none, some, List, [], ◌∷◌, ◌++◌, ◌==◌,
  ◌&&◌, if◌then◌else◌, Bytes, codes, length, take, ltb,
}
use catter.Decimal.{to_string}
use catter.Launch.{Attempt, ok, threw, c_str}
use catter.Win.Environment.{walk}

-- `path.parent_path()` and `path / name`
pub record PathOps : Type 0 where
  pub parent_path : Bytes → Bytes
  pub append : Bytes → Bytes → Bytes

-- A value of std::error_code, in the text of the exception.
abbrev readlink_failed : ℕ → Bytes → Bytes
readlink_failed value message =
    codes "readlink failed with code "
    ++ (to_string value ++ (codes ": " ++ (message ++ codes ")")))

-- get_environment on Linux and on macOS: the strings of environ.
unfoldable get_environment : List Bytes → List Bytes
get_environment [] = []
get_environment (entry ∷ environ) = entry ∷ get_environment environ

-- get_environment on Windows, with what GetEnvironmentStrings gives; nothing where a block has no end.
unfoldable pub get_environment_win : Option Bytes → Option (List Bytes)
get_environment_win none = some []
get_environment_win (some env_block) = walk [] env_block

-- get_catter_data_path on Linux and on macOS, with what getenv("HOME") gives.
unfoldable get_catter_data_path : PathOps → Option Bytes → Attempt Bytes
get_catter_data_path ops none = threw (codes "HOME environment variable not set")
get_catter_data_path ops (some home) = ok (ops.append home (codes ".catter"))

-- The errno of a failed call and its message.
pub record Failure : Type 0 where
  pub errno : ℕ
  pub message : Bytes

-- get_executable_path on Linux: /proc/self/exe is a link to `link`, or cannot be read. readlink
-- writes at most the 1023 bytes that it is given.
abbrev pub linked : Failure → Bytes → Attempt Bytes
linked e [] = threw (readlink_failed e.errno e.message)
linked e (c ∷ buf) = ok (c_str (c ∷ buf))

unfoldable pub get_executable_path : Failure → Option Bytes → Attempt Bytes
get_executable_path e none = threw (readlink_failed e.errno e.message)
get_executable_path e (some link) = linked e (take 1023 link)

-- On macOS: _NSGetExecutablePath fails where the path and its 0 do not fit in the 1024 bytes.
unfoldable get_executable_path_mac : Failure → Bytes → Attempt Bytes
get_executable_path_mac erange path =
    if ltb (length path) 1024
    then ok (c_str path)
    else threw (readlink_failed erange.errno erange.message)

-- What GetModuleFileNameA leaves for a buffer of some size: its value, the buffer, and whether the
-- last error is ERROR_INSUFFICIENT_BUFFER.
pub record FileName : Type 0 where
  pub returned : ℕ
  pub buffer : Bytes
  pub insufficient : Bool

abbrev pub Module : Type 0
Module = ℕ → FileName

-- The loop of get_executable_path on Windows, and of current_path in the hook, on a buffer of `size`.
unfoldable pub module_loop : ℕ → Module → ℕ → Option Bytes
module_loop zero m size = none
module_loop (suc fuel) m size =
    let data' = m size in
    let larger = module_loop fuel m (size * 2) in
    if data'.returned == size && data'.insufficient then larger else some (c_str data'.buffer)

-- MAX_PATH
abbrev pub max_path : ℕ
max_path = 260

unfoldable pub module_path : ℕ → Module → Option Bytes
module_path fuel m = module_loop fuel m max_path

-- get_catter_root_path
unfoldable get_catter_root_path : PathOps → Attempt Bytes → Attempt Bytes
get_catter_root_path ops (ok path) = ok (ops.parent_path path)
get_catter_root_path ops (threw what) = threw what
