-- ===== src/Tests.antt =====
-- Runs of the program's parts on concrete inputs.
mod Talk
mod Library
mod Options
mod Windows
mod Scripts
use catter.Prelude.{
  ℕ, Bool, true, false, Option, none, some, List, [], ◌∷◌, ◌++◌, Bytes, codes, ◌==◌,
}
use catter.Spawn.{ProcessOptions}
use catter.Rpc.{Command}
use catter.Serde.Readers.{memory_reader}
use catter.Proxy.{Pipe, set_mark}
use catter.Launch.{Attempt, ok, Host, Spawned}
use catter.Hook.Resolver.{FileSystem}

abbrev pub pipe : Pipe
pipe = record {
  reader = memory_reader;
  can_write = λ n. true;
  read_error = codes "EOF";
  write_error = codes "EPIPE";
}

-- `command -v` finds the compiler, which ends with status 3.
abbrev pub host : Host
host = record {
  lib_path = codes "/opt/catter/libcatter-hook-unix.so";
  lib_exists = true;
  executable_path = codes "/opt/catter/catter-proxy";
  popen = λ c. some (codes "/bin/cc" ++ 10 ∷ [], some 0);
  spawn = λ path argv envp. Spawned.exited 3;
}

-- `command -v` finds nothing.
abbrev pub bare_host : Host
bare_host = record host { popen = λ c. some ([], some 1) }

abbrev pub wrap : ProcessOptions → Attempt ℕ
wrap options = ok 0

abbrev pub environment : List Bytes
environment = codes "HOME=/" ∷ []

abbrev pub raw : Command
raw = record {
  working_dir = codes "/w";
  executable = codes "cc";
  args = codes "-c" ∷ codes "x.c" ∷ [];
  env = set_mark environment;
}

abbrev pub compile : Command
compile = record {
  working_dir = codes "/w";
  executable = codes "/bin/cc";
  args = codes "-c" ∷ codes "x.c" ∷ [];
  env = codes "HOME=/" ∷ codes "exec_is_catter_proxy_v1=v1" ∷ [];
}

-- Two executables on the path.
abbrev pub files : FileSystem
files = record { is_regular = λ p. true; is_executable = λ p. true; is_there = λ p. true }
