-- ===== src/Hook/Executor/Intercept.antt =====
-- payload/executor.cc: theorems about what a hooked call comes to.
use catter.Prelude.{
  ℕ, ◌+◌, ◌<◌, ◌≡◌, refl, sym, ap, ◌∙◌, Bool, true, false, Option, none, some, List, [], ◌∷◌, ◌++◌,
  if◌then◌else◌, Bytes, codes, length,
}
use mathlib.Core.Option
use mathlib.Core.Path.{subst}
use catter.Hook.Buffer.Image.{CString}
use catter.Hook.Buffer.{Memory, Buffer, store, is_some}
use catter.Hook.Session.{Session, is_valid}
use catter.Hook.Resolver.{Resolved, found, failed, overrun}
use catter.Hook.Command.{
  Argv, CmdBuilder, Command, built, original, valid, make, error_str, proxy_str, store_args,
  building_at, push_message, rest_of, store_arg, max_argc, buf_size, error_at, finish_error,
  proxy_at, finish_proxy, Building,
}
use catter.Hook.Command.Layout.{CommandLine, bytes_of}
use catter.Hook.Command.Proxy.{prefix_of, make-Ready, proxy_command}
use catter.Hook.Executor.{
  Outcome, called, code, undefined, is_readable, launch, check_session, launch_built, launch_final,
  after_resolve, after_session, intercept,
}

-- The string at `a` is the first of the command line.
abbrev pub IsProgram : Memory → ℕ → List Bytes → Type 0
IsProgram memory a [] = ⊥
IsProgram memory a (program ∷ args) = CString memory a program

-- The real function is entered with the program `line[0]` and the command line `line`.
pub record Runs (line : List Bytes) (o : Outcome) : Type 0 where
  pub argv : Argv
  pub memory : Memory
  pub result : o ≡ called (built (some 0) argv memory)
  pub program : IsProgram memory 0 line
  pub command_line : CommandLine memory argv 0 line

same_address : {a b : ℕ} → some a ≡ some b → a ≡ b
same_address e = cc

readable_line :
    (path : Option ℕ) (argv : Argv) (m : Memory) (a : ℕ)
    → argv 1 ≡ some a
    → is_readable (built path argv m) ≡ true
readable_line path argv m a h = rw h

launch-readable : (cmd : Command) → is_readable cmd ≡ true → launch true cmd ≡ called cmd
unfolding launch
launch-readable cmd h = rw h

module _ (proxy_path self_id : Bytes) (path_entry id_entry : Option Bytes) where
  -- A session with the path of catter-proxy and the id of the process.
  abbrev pub session_of : Session
  session_of = record {
    proxy_path = some proxy_path;
    self_id = some self_id;
    proxy_path_entry = path_entry;
    command_id_entry = id_entry;
  }

  -- In a session with the path of catter-proxy and an id, where dlsym has found the real function, a
  -- call whose name resolves to `exe` enters it with the path of catter-proxy as the program and the command line
  -- `proxy_path -p self_id -- exe args...`, whole and in order, if that fits in the builder.
  pub intercept-Runs :
      (resolve : Bytes → Resolved) (exec exe arg0 : Bytes) (args : List Bytes)
      → resolve exec ≡ found exe
      → bytes_of (prefix_of proxy_path self_id ++ codes "--" ∷ exe ∷ args) < buf_size
      → length args + 5 < max_argc
      → Runs
          (prefix_of proxy_path self_id ++ codes "--" ∷ exe ∷ args)
          (intercept true resolve session_of (some exec) (arg0 ∷ args))
  unfolding intercept check_session is_valid launch_final
  intercept-Runs resolve exec exe arg0 args e fits few =
      let b = make (some proxy_path) (some self_id) in
      let pc = proxy_command proxy_path self_id exe arg0 args fits few in
      let (p, e0, c, (q, e1, s1, rest)) = pc.command_line in
      record {
        argv = pc.argv;
        memory = pc.after.cmd_buf_area;
        result =
            ap (after_resolve true b none exec (arg0 ∷ args)) e
            ∙ ap (launch_built true) pc.result
            ∙ launch-readable _ (readable_line (some 0) pc.argv pc.after.cmd_buf_area q e1);
        program =
            subst (λ a. CString pc.after.cmd_buf_area a proxy_path)
              (same_address (sym e0 ∙ pc.first)) c;
        command_line = pc.command_line;
      }

  -- In such a session, a call whose name does not resolve runs nothing and returns the error number,
  -- if the path and the id fit in the builder.
  pub intercept-failed :
      (linked : Bool) (resolve : Bytes → Resolved) (exec : Bytes) (argv : List Bytes) (e : ℕ)
      → resolve exec ≡ failed e
      → bytes_of (prefix_of proxy_path self_id) < buf_size
      → intercept linked resolve session_of (some exec) argv ≡ code e
  unfolding intercept check_session is_valid error_str
  intercept-failed linked resolve exec argv e h fits =
      let r = make-Ready proxy_path self_id fits in
      let b = make (some proxy_path) (some self_id) in
      ap (after_resolve linked b none exec argv) h
      ∙ ap
          (λ o.
            elim (error_at b (codes "Unable to locate executable") exec (some argv) o)
              as (λ o. Outcome) [ none ↦ undefined | some r ↦ code e ])
          r.append_ptr

-- Whether a command starts a program of the builder, which is catter-proxy.
abbrev pub starts_proxy : Command → Bool
starts_proxy (built path line m) = is_some path
starts_proxy (original p a) = false

-- A builder without the path of catter-proxy, and what it makes.
abbrev NoProxy : Option (CmdBuilder × Command) → Type 0
NoProxy none = Unit
NoProxy (some (b, cmd)) = (b.executable_path ≡ none) × (starts_proxy cmd ≡ false)

finish_error-NoProxy :
    (b : CmdBuilder) (ptr : ℕ) (path : Bytes) (argv : Option (List Bytes)) (r : Buffer × Option ℕ)
    → b.executable_path ≡ none
    → NoProxy (some (finish_error b ptr path argv r))
finish_error-NoProxy b ptr path argv (buf, none) h = (h, refl)
finish_error-NoProxy b ptr path argv (buf, some a) h = (h, ap is_some h)

error_at-NoProxy :
    (b : CmdBuilder) (msg path : Bytes) (argv : Option (List Bytes)) (ptr : Option ℕ)
    → b.executable_path ≡ none
    → NoProxy (error_at b msg path argv ptr)
error_at-NoProxy b msg path argv none h = tt
error_at-NoProxy b msg path argv (some ptr) h =
    finish_error-NoProxy b ptr path argv
      (store
        (push_message (record { memory = b.cmd_buf_area; top = ptr; last = buf_size }) msg path
          (rest_of argv))
        (some []))
      h

error_str-NoProxy :
    (b : CmdBuilder) (msg path : Bytes) (argv : Option (List Bytes))
    → b.executable_path ≡ none
    → NoProxy (error_str b msg path argv)
unfolding error_str
error_str-NoProxy b msg path argv h = error_at-NoProxy b msg path argv b.append_ptr h

finish_proxy-NoProxy :
    (b : CmdBuilder) (path : Bytes) (r : Building × Bool)
    → b.executable_path ≡ none
    → NoProxy (finish_proxy b path r)
finish_proxy-NoProxy b path (st, true) h = (h, ap is_some h)
finish_proxy-NoProxy b path (st, false) h = error_str-NoProxy _ _ path none h

proxy_at-NoProxy :
    (b : CmdBuilder) (path : Bytes) (argv : List Bytes) (ptr : Option ℕ)
    → b.executable_path ≡ none
    → NoProxy (proxy_at b path argv ptr)
proxy_at-NoProxy b path argv none h = tt
proxy_at-NoProxy b path argv (some ptr) h =
    finish_proxy-NoProxy b path
      (store_args (building_at b ptr) (codes "--" ∷ path ∷ rest_of (some argv))) h

-- Not the proxy: whatever is called starts no program of the builder.
abbrev pub NeverProxy : Outcome → Type 0
NeverProxy (called cmd) = starts_proxy cmd ≡ false
NeverProxy _ = Unit

guarded-NeverProxy :
    (b : Bool) (cmd : Command)
    → starts_proxy cmd ≡ false
    → NeverProxy (if b then called cmd else undefined)
guarded-NeverProxy true cmd h = h
guarded-NeverProxy false cmd h = tt

launch-NeverProxy :
    (linked : Bool) (cmd : Command) → starts_proxy cmd ≡ false → NeverProxy (launch linked cmd)
unfolding launch
launch-NeverProxy false cmd h = tt
launch-NeverProxy true cmd h = guarded-NeverProxy (is_readable cmd) cmd h

launch_built-NeverProxy :
    (linked : Bool) (r : Option (CmdBuilder × Command))
    → NoProxy r
    → NeverProxy (launch_built linked r)
launch_built-NeverProxy linked none h = tt
launch_built-NeverProxy linked (some (b, cmd)) (h, n) = launch-NeverProxy linked cmd n

rebuilt-NeverProxy :
    (linked : Bool) (b : CmdBuilder) (exe : Bytes) (argv : List Bytes)
    → b.executable_path ≡ none
    → NeverProxy (launch_built linked (proxy_str b exe argv))
unfolding proxy_str
rebuilt-NeverProxy linked b exe argv h =
    launch_built-NeverProxy linked _ (proxy_at-NoProxy b exe argv b.append_ptr h)

chosen-NeverProxy :
    (c linked : Bool) (b : CmdBuilder) (cmd : Command) (exe : Bytes) (argv : List Bytes)
    → b.executable_path ≡ none
    → starts_proxy cmd ≡ false
    → NeverProxy (if c then launch linked cmd else launch_built linked (proxy_str b exe argv))
chosen-NeverProxy true linked b cmd exe argv h n = launch-NeverProxy linked cmd n
chosen-NeverProxy false linked b cmd exe argv h n = rebuilt-NeverProxy linked b exe argv h

-- A final command, if there is one, that does not start catter-proxy.
abbrev NotProxy : Option Command → Type 0
NotProxy none = Unit
NotProxy (some cmd) = starts_proxy cmd ≡ false

launch_final-NeverProxy :
    (linked : Bool) (b : CmdBuilder) (final : Option Command) (exe : Bytes) (argv : List Bytes)
    → b.executable_path ≡ none
    → NotProxy final
    → NeverProxy (launch_final linked b final exe argv)
unfolding launch_final
launch_final-NeverProxy linked b none exe argv h n = rebuilt-NeverProxy linked b exe argv h
launch_final-NeverProxy linked b (some cmd) exe argv h n =
    chosen-NeverProxy (valid cmd) linked b cmd exe argv h n

dropped-NeverProxy :
    (r : Option (CmdBuilder × Command)) (e : ℕ)
    → NeverProxy (elim r as (λ o. Outcome) [ none ↦ undefined | some r ↦ code e ])
dropped-NeverProxy none e = tt
dropped-NeverProxy (some r) e = tt

after_resolve-NeverProxy :
    (linked : Bool) (b : CmdBuilder) (final : Option Command) (exec : Bytes) (argv : List Bytes)
    → (r : Resolved) → b.executable_path ≡ none
    → NotProxy final
    → NeverProxy (after_resolve linked b final exec argv r)
after_resolve-NeverProxy linked b final exec argv (found exe) h n =
    launch_final-NeverProxy linked b final exe argv h n
after_resolve-NeverProxy linked b final exec argv (failed e) h n = dropped-NeverProxy _ e
after_resolve-NeverProxy linked b final exec argv overrun h n = tt

-- What check_session leaves to run with.
abbrev Checked : Option (CmdBuilder × Option Command) → Type 0
Checked none = Unit
Checked (some (b, final)) = (b.executable_path ≡ none) × NotProxy final

error_made-Checked :
    (r : Option (CmdBuilder × Command)) → NoProxy r → Checked (Option.map (λ r. (r.0, some r.1)) r)
error_made-Checked none h = tt
error_made-Checked (some (b, cmd)) h = h

check-Checked :
    (c : Bool) (b : CmdBuilder) (msg exec : Bytes) (argv : Option (List Bytes))
    → b.executable_path ≡ none
    → Checked (
        if c then some (b, none) else Option.map (λ r. (r.0, some r.1)) (error_str b msg exec argv))
check-Checked true b msg exec argv h = (h, tt)
check-Checked false b msg exec argv h =
    error_made-Checked (error_str b msg exec argv) (error_str-NoProxy b msg exec argv h)

after_session-NeverProxy :
    (linked : Bool) (resolve : Bytes → Resolved) (exec : Bytes) (argv : List Bytes)
    → (r : Option (CmdBuilder × Option Command)) → Checked r
    → NeverProxy (after_session linked resolve exec argv r)
after_session-NeverProxy linked resolve exec argv none h = tt
after_session-NeverProxy linked resolve exec argv (some (b, final)) (h, n) =
    after_resolve-NeverProxy linked b final exec argv (resolve exec) h n

make-none : (self_id : Option Bytes) → (make none self_id).executable_path ≡ none
unfolding make store_arg store
make-none self_id = refl

-- In a session that has lost the path of catter-proxy no hooked call starts catter-proxy, not
-- even to report the error.
pub intercept-NeverProxy :
    (linked : Bool) (resolve : Bytes → Resolved) (session : Session) (path : Option Bytes)
    → (argv : List Bytes) → session.proxy_path ≡ none
    → NeverProxy (intercept linked resolve session path argv)
unfolding intercept check_session
intercept-NeverProxy linked resolve session none argv e = tt
intercept-NeverProxy linked resolve session (some exec) argv e =
    after_session-NeverProxy linked resolve exec argv _ (
      check-Checked (is_valid session) (make session.proxy_path session.self_id)
        (codes "invalid enviroment variables of hook library, lost required value") exec (some argv)
        (ap (λ p. (make p session.self_id).executable_path) e ∙ make-none session.self_id))
