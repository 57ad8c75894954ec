-- ===== src/Spawn.antt =====
-- src/common/uv/uv.h: what uv::async::spawn asks of uv_spawn. The flags for Windows are left out.
use catter.Prelude.{ℕ, Bool, if◌then◌else◌, List, [], ◌∷◌, Bytes}

-- UV_IGNORE, or UV_INHERIT_FD with the descriptor.
pub data Stdio : Type 0 where
  ignore : Stdio
  inherit : (fd : ℕ) → Stdio

-- uv_process_options_t; `args` is its strings before the nullptr.
pub record ProcessOptions : Type 0 where
  pub file : Bytes
  pub args : List Bytes
  pub stdio : List Stdio

unfoldable pub spawn_options : Bytes → List Bytes → Bool → ProcessOptions
spawn_options exe_path args close_stdio = record {
  file = exe_path;
  args = exe_path ∷ args;
  stdio =
      Stdio.ignore
      ∷ (if close_stdio then Stdio.ignore else Stdio.inherit 1)
      ∷ (if close_stdio then Stdio.ignore else Stdio.inherit 2)
      ∷ [];
}
