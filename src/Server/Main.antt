-- ===== src/Server/Main.antt =====
-- catter/main.cc: main and the coroutine `loop`. Whether uv_pipe_bind and uv_listen succeed, what
-- uv_spawn comes to, and what has become of the acceptors by then are parameters.
pub mod Started
use catter.Prelude.{ℕ, Bool, true, if◌then◌else◌, List, [], ◌∷◌, Bytes, codes, bytes_eq}
use catter.Decimal.{to_string}
use catter.Spawn.{ProcessOptions, spawn_options}
use catter.Launch.{Attempt, ok, threw}

-- What is printed.
pub data Notice : Type 0 where
  usage bind_error listen_error : Notice
  proxy_exited : (code : ℕ) → Notice
  acceptor_not_done : Notice
  acceptor_exception : (what : Bytes) → Notice
  fatal_error : (what : Bytes) → Notice

-- A coroutine of `accept`: suspended, returned, or with an exception that `get` throws.
pub data Acceptor : Type 0 where
  not_done done : Acceptor
  thrown : (what : Bytes) → Acceptor

-- The loop over the acceptors.
unfoldable pub check_acceptors : List Acceptor → List Notice
check_acceptors [] = []
check_acceptors (not_done ∷ acceptors) = Notice.acceptor_not_done ∷ check_acceptors acceptors
check_acceptors (done ∷ acceptors) = check_acceptors acceptors
check_acceptors (thrown what ∷ acceptors) =
    Notice.acceptor_exception what ∷ check_acceptors acceptors

-- The system's answers.
pub record Listening : Type 0 where
  pub bound : Bool
  pub listening : Bool
  pub uv_spawn : ProcessOptions → Attempt ℕ
  pub acceptors : List Acceptor

-- What follows `co_await uv::async::spawn(...)`; an exception leaves the coroutine.
unfoldable pub on_exit : List Acceptor → Attempt ℕ → Attempt (List Notice)
on_exit acceptors (ok proxy_ret) = ok (Notice.proxy_exited proxy_ret ∷ check_acceptors acceptors)
on_exit acceptors (threw what) = threw what

unfoldable pub loop : Listening → Bytes → List Bytes → Attempt (List Notice)
loop l exe_path args =
    if l.bound
    then (if l.listening
        then on_exit l.acceptors (l.uv_spawn (spawn_options exe_path args true))
        else ok (Notice.listen_error ∷ []))
    else ok (Notice.bind_error ∷ [])

-- id_generator when main starts
abbrev pub first_id : ℕ
first_id = 0

-- main's try block and its catch for a std::exception.
unfoldable pub outcome : Attempt (List Notice) → ℕ × List Notice
outcome (ok printed) = (0, printed)
outcome (threw what) = (1, Notice.fatal_error what ∷ [])

-- main: the exit code and what is printed.
unfoldable pub main : Listening → Bytes → List Bytes → ℕ × List Notice
main l exe_path (argv0 ∷ mark ∷ command) =
    if bytes_eq mark (codes "--")
    then outcome (loop l exe_path (codes "-p" ∷ to_string first_id ∷ codes "--" ∷ command))
    else (1, Notice.usage ∷ [])
main l exe_path _ = (1, Notice.usage ∷ [])
