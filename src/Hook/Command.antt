-- ===== src/Hook/Command.antt =====
-- payload/command.{h,cc}: CmdBuilder lays out the command line of catter-proxy in a fixed buffer.
-- Addresses are offsets into `cmd_buf_area`. A nullptr where the code would use it as an address
-- makes an operation undefined (`none`).
pub mod Layout
pub mod Proxy
use catter.Prelude.{
  ℕ, zero, suc, ◌+◌, ◌-◌, ◌*◌, ◌≡◌, Option, none, some, Bool, true, false, List, [], ◌∷◌, ◌++◌,
  ◌==◌, leb, if◌then◌else◌, Bytes, codes,
}
use catter.Hook.Config.{path_max, error_prefix}
use catter.Hook.Buffer.{Memory, Buffer, store, push}

abbrev pub buf_size : ℕ
buf_size = path_max * 100

abbrev pub max_argc : ℕ
max_argc = path_max

-- An array of pointers.
abbrev pub Argv : Type 0
Argv = ℕ → Option ℕ

abbrev pub assign : Argv → ℕ → Option ℕ → Argv
assign argv i p j = if j == i then p else argv j

-- The members that the helpers change, with the Buffer that is at work.
pub record Building : Type 0 where
  pub argv : Argv
  pub append_argv : ℕ
  pub buf : Buffer

abbrev pub stored_arg : Building → Buffer × Option ℕ → Building × Option ℕ
stored_arg st (buf, none) = (record st { buf = buf }, none)
stored_arg st (buf, some a) = (
  record {
    argv = assign st.argv st.append_argv (some a);
    append_argv = st.append_argv + 1;
    buf = buf;
  },
  some a,
)

unfoldable pub store_arg : Building → Option Bytes → Building × Option ℕ
store_arg st str =
    if leb (max_argc - 1) st.append_argv then (st, none) else stored_arg st (store st.buf str)

pub record CmdBuilder : Type 0 where
  pub cmd_buf_area : Memory
  pub argv : Argv
  pub append_ptr : Option ℕ
  pub append_argv : ℕ
  pub executable_path : Option ℕ

-- The state before the constructor's body: both arrays are zero.
abbrev pub blank : Building
blank = record {
  argv = λ i. none;
  append_argv = 0;
  buf = record { memory = λ a. 0; top = 0; last = buf_size };
}

-- CmdBuilder::CmdBuilder(proxy_path, self_id)
unfoldable pub make : Option Bytes → Option Bytes → CmdBuilder
make proxy_path self_id =
    let (st1, executable) = store_arg blank proxy_path in
    let (st2, _) = store_arg st1 (some (codes "-p")) in
    let (st3, _) = store_arg st2 self_id in
    let (buf, ptr) = store st3.buf (some []) in
    record {
      cmd_buf_area = buf.memory;
      argv = st3.argv;
      append_ptr = ptr;
      append_argv = st3.append_argv;
      executable_path = executable;
    }

-- CmdBuilder::command: pointers into the builder, or the caller's own path and argv.
pub data Command : Type 0 where
  built : (path : Option ℕ) → Argv → Memory → Command
  original : (path : Bytes) → (argv_in : Option (List Bytes)) → Command

-- `command::valid`
abbrev pub valid : Command → Bool
valid (built none argv m) = false
valid (built (some a) argv m) = true
valid (original path argv_in) = true

-- `for(i = 1; argv_in[i]; ++i) buf.push(" "), buf.push(argv_in[i])`
unfoldable pub push_args : Buffer → List Bytes → Buffer
push_args buf [] = buf
push_args buf (arg ∷ args) = push_args (push (push buf (some (codes " "))).0 (some arg)).0 args

-- `argv_in` is its strings before the nullptr, argv[0] at least; element 0 is skipped.
abbrev pub rest_of : Option (List Bytes) → List Bytes
rest_of none = []
rest_of (some []) = []
rest_of (some (arg0 ∷ args)) = args

-- The pushes of error_str.
unfoldable pub push_message : Buffer → Bytes → Bytes → List Bytes → Buffer
push_message buf msg path args =
    let buf1 = (push buf (some error_prefix)).0 in
    let buf2 = (push buf1 (some (codes " "))).0 in
    let buf3 = (push buf2 (some msg)).0 in
    let buf4 = (push buf3 (some (codes " in executing:\n    --->"))).0 in
    push_args (push buf4 (some path)).0 args

-- The end of error_str, on the result of `buf.store("")`.
abbrev pub finish_error :
    CmdBuilder → ℕ → Bytes → Option (List Bytes) → Buffer × Option ℕ → CmdBuilder × Command
finish_error b ptr path argv_in (buf, none) =
    (record b { cmd_buf_area = buf.memory }, original path argv_in)
finish_error b ptr path argv_in (buf, some _) =
    let argv = assign (assign b.argv b.append_argv (some ptr)) (b.append_argv + 1) none in
    (record b { cmd_buf_area = buf.memory; argv = argv }, built b.executable_path argv buf.memory)

-- The body of error_str, where `append_ptr` is `ptr`.
abbrev pub error_at :
    CmdBuilder → Bytes → Bytes → Option (List Bytes) → Option ℕ → Option (CmdBuilder × Command)
error_at b msg path argv_in none = none
error_at b msg path argv_in (some ptr) =
    let buf : Buffer = record { memory = b.cmd_buf_area; top = ptr; last = buf_size } in
    let message = push_message buf msg path (rest_of argv_in) in
    some (finish_error b ptr path argv_in (store message (some [])))

-- CmdBuilder::error_str
unfoldable pub error_str :
    CmdBuilder → Bytes → Bytes → Option (List Bytes) → Option (CmdBuilder × Command)
error_str b msg path argv_in = error_at b msg path argv_in b.append_ptr

-- `if(!store_arg(...)) goto rollback`, else what follows.
abbrev pub unless_null : (Building → Building × Bool) → Building × Option ℕ → Building × Bool
unless_null next (st, none) = (st, false)
unless_null next (st, some a) = next st

-- The stores of proxy_str until one of them fails.
unfoldable pub store_args : Building → List Bytes → Building × Bool
store_args st [] = (st, true)
store_args st (arg ∷ args) = unless_null (λ st'. store_args st' args) (store_arg st (some arg))

-- The end of proxy_str: the command, or rollback and the error command.
abbrev pub finish_proxy : CmdBuilder → Bytes → Building × Bool → Option (CmdBuilder × Command)
finish_proxy b path (st, true) =
    let argv = assign st.argv st.append_argv none in
    some (
      record b { cmd_buf_area = st.buf.memory; argv = argv },
      built b.executable_path argv st.buf.memory,
    )
finish_proxy b path (st, false) =
    error_str (record b { cmd_buf_area = st.buf.memory; argv = st.argv })
      (codes "Overflow when building command") path none

abbrev pub building_at : CmdBuilder → ℕ → Building
building_at b ptr = record {
  argv = b.argv;
  append_argv = b.append_argv;
  buf = record { memory = b.cmd_buf_area; top = ptr; last = buf_size };
}

-- The body of proxy_str, where `append_ptr` is `ptr`.
abbrev pub proxy_at : CmdBuilder → Bytes → List Bytes → Option ℕ → Option (CmdBuilder × Command)
proxy_at b path argv_in none = none
proxy_at b path argv_in (some ptr) =
    finish_proxy b path
      (store_args (building_at b ptr) (codes "--" ∷ path ∷ rest_of (some argv_in)))

-- CmdBuilder::proxy_str
unfoldable pub proxy_str : CmdBuilder → Bytes → List Bytes → Option (CmdBuilder × Command)
proxy_str b path argv_in = proxy_at b path argv_in b.append_ptr
