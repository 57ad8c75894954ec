-- ===== src/Hook/Command/Proxy.antt =====
-- payload/command.cc: theorems about the constructor and proxy_str.
use catter.Prelude.{
  ℕ, ◌+◌, ◌≤◌, ◌<◌, ◌≡◌, refl, ap, ◌∙◌, Option, none, some, true, List, [], ◌∷◌, ◌++◌, Bytes, codes,
  length, arith, Bool,
}
use catter.Hook.Buffer.Store.{store_fits}
use catter.Hook.Command.{
  Argv, Building, blank, store_arg, make, CmdBuilder, Command, built, assign, max_argc, buf_size,
  store_args, proxy_str, finish_proxy, proxy_at, building_at,
}
use catter.Hook.Command.Layout.{
  Args, Holds, CommandLine, bytes_of, store_arg-Added, store_args-Holds, Args-CommandLine,
  assign_self, assign_lt, Args-Same, store_arg-entry, store_arg-FirstKept, store_args-FirstKept,
}

-- The arguments that every command of the builder begins with.
abbrev pub prefix_of : Bytes → Bytes → List Bytes
prefix_of proxy_path self_id = proxy_path ∷ codes "-p" ∷ self_id ∷ []

-- A builder between two commands: the prefix is laid out below `append_ptr`.
pub record Ready (b : CmdBuilder) (proxy_path self_id : Bytes) : Type 0 where
  pub ptr : ℕ
  pub append_ptr : b.append_ptr ≡ some ptr
  pub size : ptr ≡ bytes_of (prefix_of proxy_path self_id)
  pub room : ptr < buf_size
  pub args : Args b.cmd_buf_area b.argv ptr 0 (prefix_of proxy_path self_id)
  pub count : b.append_argv ≡ 3
  pub executable : b.executable_path ≡ some 0
  pub first : b.argv 0 ≡ some 0

pub make-Ready :
    (proxy_path self_id : Bytes)
    → bytes_of (prefix_of proxy_path self_id) < buf_size
    → Ready (make (some proxy_path) (some self_id)) proxy_path self_id
unfolding make
make-Ready proxy_path self_id fits =
    let h0 : Holds blank [] = record { args = tt; count = refl; room = omega arith } in
    let a1 = store_arg-Added blank [] proxy_path h0 (omega arith) (omega arith) in
    let st1 = (store_arg blank (some proxy_path)).0 in
    let first_arg : st1.argv 0 ≡ some 0 =
      store_arg-entry blank (some proxy_path) 0 refl a1.address in
    let a2 =
      store_arg-Added st1 (proxy_path ∷ []) (codes "-p") a1.holds (omega arith)
        (omega (arith, a1.top, a1.last)) in
    let st2 = (store_arg st1 (some (codes "-p"))).0 in
    let a3 =
      store_arg-Added st2 (proxy_path ∷ codes "-p" ∷ []) self_id a2.holds (omega arith)
        (omega (arith, a1.top, a1.last, a2.top, a2.last)) in
    let st3 = (store_arg st2 (some self_id)).0 in
    let r =
      store_fits st3.buf [] (omega (arith, a1.top, a1.last, a2.top, a2.last, a3.top, a3.last)) in
    record {
      ptr = st3.buf.top;
      append_ptr = r.address;
      size = omega (arith, a1.top, a2.top, a3.top);
      room = omega (arith, a1.top, a2.top, a3.top);
      args =
          Args-Same st3.argv st3.buf.top st3.buf.last 0 (prefix_of proxy_path self_id) r.kept
            a3.holds.args;
      count = a3.holds.count;
      executable = a1.address;
      first =
          (store_arg-FirstKept st2 (some self_id) (omega (arith, a2.holds.count))).1
          ∙ (store_arg-FirstKept st1 (some (codes "-p")) (omega (arith, a1.holds.count))).1
          ∙ first_arg;
    }

finish_proxy-true :
    (b : CmdBuilder) (path : Bytes) (r : Building × Bool)
    → r.1 ≡ true
    → finish_proxy b path r
      ≡ some (
        record b { cmd_buf_area = r.0.buf.memory; argv = assign r.0.argv r.0.append_argv none },
        built b.executable_path (assign r.0.argv r.0.append_argv none) r.0.buf.memory,
      )
finish_proxy-true b path (st, ok) h = ground arith

-- The command: catter-proxy itself, and the command line that it gets.
pub record ProxyCommand (b : CmdBuilder) (line : List Bytes) (r : Option (CmdBuilder × Command))
    : Type 0 where
  pub after : CmdBuilder
  pub argv : Argv
  pub result : r ≡ some (after, built (some 0) argv after.cmd_buf_area)
  pub command_line : CommandLine after.cmd_buf_area argv 0 line
  pub first : argv 0 ≡ some 0
  pub append_ptr : after.append_ptr ≡ b.append_ptr
  pub append_argv : after.append_argv ≡ b.append_argv

pub proxy_str-ProxyCommand :
    (b : CmdBuilder) (proxy_path self_id path arg0 : Bytes) (args : List Bytes)
    → Ready b proxy_path self_id
    → bytes_of (prefix_of proxy_path self_id) + bytes_of (codes "--" ∷ path ∷ args) ≤ buf_size
    → length args + 5 < max_argc
    → ProxyCommand b
        (prefix_of proxy_path self_id ++ codes "--" ∷ path ∷ args)
        (proxy_str b path (arg0 ∷ args))
unfolding proxy_str
proxy_str-ProxyCommand b proxy_path self_id path arg0 args r fits few =
    let st : Building = building_at b r.ptr in
    let h : Holds st (prefix_of proxy_path self_id) = record {
      args = r.args;
      count = r.count;
      room = omega (arith, r.room);
    } in
    let more = codes "--" ∷ path ∷ args in
    let (ok, holds) =
      store_args-Holds st (prefix_of proxy_path self_id) more h (omega arith)
        (omega (arith, r.size)) in
    let st' = (store_args st more).0 in
    let kept = store_args-FirstKept st more (omega (arith, r.count)) in
    let after : CmdBuilder = record b {
      cmd_buf_area = st'.buf.memory;
      argv = assign st'.argv st'.append_argv none;
    } in
    record {
      after = after;
      argv = assign st'.argv st'.append_argv none;
      result =
          ap (proxy_at b path (arg0 ∷ args)) r.append_ptr
          ∙ finish_proxy-true b path (store_args st more) ok
          ∙ ap (λ (exe : Option ℕ). some (after, built exe after.argv after.cmd_buf_area))
              r.executable;
      command_line =
          Args-CommandLine st'.buf.memory st'.buf.top 0 st'.append_argv
            (prefix_of proxy_path self_id ++ more) holds.args (omega (arith, holds.count))
            (λ j l. assign_lt st'.argv st'.append_argv none j l)
            (assign_self st'.argv st'.append_argv none);
      first = assign_lt st'.argv st'.append_argv none 0 (omega (arith, kept.0)) ∙ kept.1 ∙ r.first;
      append_ptr = refl;
      append_argv = refl;
    }

-- A builder made with the path of catter-proxy and an id makes, for the executable `path` and the
-- arguments behind argv[0], a command whose program is its first argument and whose argv is
-- `proxy_path -p self_id -- path args...` and a nullptr, if they fit in the buffer and in argv.
pub proxy_command :
    (proxy_path self_id path arg0 : Bytes) (args : List Bytes)
    → bytes_of (prefix_of proxy_path self_id ++ codes "--" ∷ path ∷ args) < buf_size
    → length args + 5 < max_argc
    → ProxyCommand
        (make (some proxy_path) (some self_id))
        (prefix_of proxy_path self_id ++ codes "--" ∷ path ∷ args)
        (proxy_str (make (some proxy_path) (some self_id)) path (arg0 ∷ args))
proxy_command proxy_path self_id path arg0 args fits few =
    proxy_str-ProxyCommand (make (some proxy_path) (some self_id)) proxy_path self_id path arg0 args
      (make-Ready proxy_path self_id (omega arith)) (omega arith) few
