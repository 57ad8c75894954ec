-- ===== src/Hook/Session.antt =====
-- payload/session.cc: the session of the process, from its environment, and its copy in the static
-- buffer of lib.cc.
pub mod Persist
use catter.Prelude.{ℕ, ◌*◌, Option, none, some, Bool, true, false, List, if◌then◌else◌, Bytes}
use catter.Hook.Config.{key_catter_proxy_path, key_catter_command_id, path_max}
use catter.Hook.Buffer.{Memory, Buffer, store}
use catter.Hook.Environment.{get_env_value, get_env_entry}

-- struct Session; a pointer is the C string that it points to, or `none`.
pub record Session : Type 0 where
  pub proxy_path : Option Bytes
  pub self_id : Option Bytes
  pub proxy_path_entry : Option Bytes
  pub command_id_entry : Option Bytes

abbrev pub both_set : Option Bytes → Option Bytes → Bool
both_set (some proxy_path) (some self_id) = true
both_set _ _ = false

-- session::is_valid
unfoldable pub is_valid : Session → Bool
is_valid s = both_set s.proxy_path s.self_id

abbrev none_yet : Option Bytes → Option Bytes → Session
none_yet proxy_path self_id = record {
  proxy_path = proxy_path;
  self_id = self_id;
  proxy_path_entry = none;
  command_id_entry = none;
}

-- session::from, on the session that the library starts with
unfoldable pub of_environment : List Bytes → Session
of_environment environment =
    let session =
      none_yet (get_env_value environment key_catter_proxy_path)
        (get_env_value environment key_catter_command_id) in
    elim (is_valid session) [
      | false ↦ session
      | true ↦ record session {
        proxy_path_entry = get_env_entry environment key_catter_proxy_path;
        command_id_entry = get_env_entry environment key_catter_command_id;
      }
    ]

-- The session that points into the buffer.
pub record Persisted : Type 0 where
  pub memory : Memory
  pub proxy_path : Option ℕ
  pub self_id : Option ℕ
  pub proxy_path_entry : Option ℕ
  pub command_id_entry : Option ℕ

abbrev pub store_all : Session → Buffer → Persisted
store_all session buffer =
    let (b1, p1) = store buffer session.proxy_path in
    let (b2, p2) = store b1 session.self_id in
    let (b3, p3) = store b2 session.proxy_path_entry in
    let (b4, p4) = store b3 session.command_id_entry in
    record {
      memory = b4.memory;
      proxy_path = p1;
      self_id = p2;
      proxy_path_entry = p3;
      command_id_entry = p4;
    }

-- session::persist on [begin, end); `none` where it leaves an invalid session as it is.
unfoldable pub persist : Session → Memory → ℕ → ℕ → Option Persisted
unfolding is_valid
persist session memory begin end =
    if is_valid session
    then some (store_all session (record { memory = memory; top = begin; last = end }))
    else none

-- BUFFER_SIZE of lib.cc
abbrev pub buffer_size : ℕ
buffer_size = path_max * 2
