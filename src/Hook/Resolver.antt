-- ===== src/Hook/Resolver.antt =====
-- payload/resolver.{h,cc}: from a file name to the path of an executable. The file system is a
-- parameter, as is what confstr says of the default search path.
pub mod Search
use catter.Prelude.{
  ℕ, zero, suc, ◌+◌, ◌-◌, Bool, true, false, Option, none, some, List, [], ◌∷◌, ◌++◌, ◌==◌, ltb,
  leb, ◌&&◌, ◌||◌, if◌then◌else◌, Bytes, length, codes,
}
use catter.Hook.Config.{os_dir_separator, path_max}
use catter.Hook.Environment.{get_env_value}
use catter.Hook.Paths.{entries}

abbrev pub enoent : ℕ
enoent = 2

abbrev pub eacces : ℕ
eacces = 13

-- What the system says of a path: stat with S_IFREG, access with X_OK and with F_OK.
pub record FileSystem : Type 0 where
  pub is_regular : Bytes → Bool
  pub is_executable : Bytes → Bool
  pub is_there : Bytes → Bool

-- std::expected<const char*, int>, with the string in `result_`. `overrun`: the file name filled
-- `result_` and left no terminating 0, and stat reads on behind the array.
pub data Resolved : Type 0 where
  found : Bytes → Resolved
  failed : ℕ → Resolved
  overrun : Resolved

unfoldable pub contains_dir_separator : Bytes → Bool
contains_dir_separator [] = false
contains_dir_separator (c ∷ s) = (c == b'/') || contains_dir_separator s

-- `path`/`file`, laid out in `candidate`
abbrev pub candidate : Bytes → Bytes → Bytes
candidate path file = path ++ os_dir_separator ∷ file

abbrev pub is_empty : Bytes → Bool
is_empty [] = true
is_empty (c ∷ s) = false

-- The two `continue`s: an empty entry, and one that is too long.
unfoldable pub is_skipped : Bytes → Bytes → Bool
is_skipped path file = is_empty path || ltb path_max (length file + length path + 2)

-- `result.has_value()` returns, an error goes on with the next entry.
abbrev pub or_else : Resolved → Resolved → Resolved
or_else (found path) other = found path
or_else (failed e) other = other
or_else overrun other = overrun

module _ (fs : FileSystem) where
  -- Resolver::from_current_directory
  unfoldable pub from_current_directory : Bytes → Resolved
  from_current_directory file =
      if ltb path_max (length file + 1)
      then overrun
      else if fs.is_regular file
      then (if fs.is_executable file
          then found file
          else if fs.is_there file
          then failed eacces
          else failed enoent)
      else failed enoent

  -- The loop of from_search_path.
  unfoldable pub search_entries : Bytes → List Bytes → Resolved
  search_entries file [] = failed enoent
  search_entries file (path ∷ paths) =
      let rest = search_entries file paths in
      if is_skipped path file
      then rest
      else or_else (from_current_directory (candidate path file)) rest

  -- Resolver::from_search_path
  unfoldable pub from_search_path : Bytes → Bytes → Resolved
  from_search_path file search_path =
      if contains_dir_separator file
      then from_current_directory file
      else search_entries file (entries search_path)

  -- The PATH of the environment, or the one of confstr (`none` where it has none).
  abbrev pub search_in : Bytes → Option Bytes → Option Bytes → Resolved
  search_in file (some paths) confstr = from_search_path file paths
  search_in file none (some search_path) = from_search_path file search_path
  search_in file none none = failed enoent

  -- Resolver::from_path
  unfoldable pub from_path : Option Bytes → Bytes → List Bytes → Resolved
  from_path confstr file envp =
      if contains_dir_separator file
      then from_current_directory file
      else search_in file (get_env_value envp (codes "PATH")) confstr
