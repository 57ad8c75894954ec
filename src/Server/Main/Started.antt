-- ===== src/Server/Main/Started.antt =====
-- catter/main.cc and catter-proxy/main.cc: catter starting catter-proxy.
use catter.Prelude.{◌≡◌, [], ◌∷◌, Bytes}
use catter.Spawn.{ProcessOptions, Stdio}
use catter.Server.Main.{Acceptor, done}

-- An acceptor that has returned.
abbrev pub IsDone : Acceptor → Type 0
IsDone a = a ≡ done

-- The file of the executable is catter-proxy and its three standard streams are ignored.
abbrev pub IsQuiet : Bytes → ProcessOptions → Type 0
IsQuiet exe_path options =
    (options.file ≡ exe_path) × (options.stdio ≡ Stdio.ignore ∷ Stdio.ignore ∷ Stdio.ignore ∷ [])
