-- ===== src/Proxy.antt =====
-- catter-proxy: rpc_handler.h (the client of the server's pipe), constructor.cc and main.cc. What
-- the server sends is a parameter, the bytes `unread`, and so is which write succeeds.
pub mod Conversation
use catter.Prelude.{
  ℕ, zero, suc, ◌≡◌, ◌++◌, Bool, true, false, not, Option, none, some, List, [], ◌∷◌, Bytes, codes,
  bytes_eq, length, if◌then◌else◌,
}
use catter.Decimal.{stoi}
use catter.Spawn.{ProcessOptions, spawn_options}
use catter.Serde.{Reader, Serde, int_serde, string_serde}
use catter.Rpc.{
  Command, Action, ActionType, Request, id_bytes, no_id, id_serde, request_serde, command_serde,
  action_serde,
}
use catter.Hook.Config.{catter_proxy_env_key}
use catter.Hook.Environment.{get_env_value}
use catter.Launch.{Attempt, ok, threw, Host, locate_exe, assignment}

-- class rpc_handler: the two ids, what has been written, and what the server has sent.
pub record Handler : Type 0 where
  pub parent_id : ℕ
  pub id : ℕ
  pub written : List Bytes
  pub unread : Bytes

-- rpc_handler(), connected to a server that sends `unread`.
abbrev pub connect : Bytes → Handler
connect unread = record { parent_id = no_id; id = no_id; written = []; unread = unread }

-- What a member function comes to: a value or an exception, and the handler after it.
abbrev pub Call : Type 0 → Type 0
Call A = Attempt A × Handler

abbrev pub and_then : {A B : Type 0} → Call A → (A → Handler → Call B) → Call B
and_then (ok a, h) f = f a h
and_then (threw what, h) f = (threw what, h)

-- build_raw_cmd: the strings of argv from `arg_start` to `arg_end`.
unfoldable pub build_raw_cmd : Bytes → List Bytes → List Bytes → Attempt Command
build_raw_cmd current_path environment [] = threw (codes "No command provided")
build_raw_cmd current_path environment (executable ∷ args) =
    ok (record {
      working_dir = current_path;
      executable = executable;
      args = args;
      env = environment;
    })

-- `setenv(CATTER_PROXY_ENV_KEY, "v1", 0)`, which keeps an entry that is there.
abbrev pub set_mark : List Bytes → List Bytes
set_mark environment = elim (get_env_value environment catter_proxy_env_key) [
  | none ↦ environment ++ assignment catter_proxy_env_key (codes "v1") ∷ []
  | some value ↦ environment
]

-- The pipe: its reader, which writes succeed, and the texts of libuv's errors.
pub record Pipe : Type 0 where
  pub reader : Reader
  pub can_write : ℕ → Bool
  pub read_error : Bytes
  pub write_error : Bytes

module _ (pipe : Pipe) where
  -- write(payload...): the payloads one after the other.
  abbrev pub write : Handler → Bytes → Call Unit
  write h bytes =
      if pipe.can_write (length h.written)
      then (ok tt, record h { written = h.written ++ bytes ∷ [] })
      else (threw (codes "rpc_handler write failed: " ++ pipe.write_error), h)

  -- Serde<T>::deserialize(this->reader())
  abbrev pub receive : {A : Type 0} → Serde A → Handler → Call A
  receive s h = elim (s.deserialize pipe.reader h.unread) [
    | none ↦ (threw (codes "rpc_handler read failed: " ++ pipe.read_error), h)
    | some r ↦ (ok r.0, record h { unread = r.1 })
  ]

  abbrev pub keep_id : ℕ → Handler → Call ℕ
  keep_id nxt_id h = (ok nxt_id, record h { id = nxt_id })

  unfoldable pub create : ℕ → Handler → Call ℕ
  create parent_id h =
      and_then
        (write (record h { parent_id = parent_id })
          (request_serde.serialize Request.create ++ id_serde.serialize parent_id))
        (λ _ h'. and_then (receive id_serde h') keep_id)

  unfoldable pub make_decision : Command → Handler → Call Action
  make_decision cmd h =
      and_then
        (write h (request_serde.serialize Request.make_decision ++ command_serde.serialize cmd))
        (λ _ h'. receive action_serde h')

  unfoldable pub finish : ℕ → Handler → Call Unit
  finish ret_code h =
      write h (request_serde.serialize Request.finish ++ (int_serde id_bytes).serialize ret_code)

  -- noexcept: a failed write is dropped.
  unfoldable pub report_error : Bytes → Handler → Handler
  report_error error_msg h =
      (write h (
        request_serde.serialize Request.report_error
        ++ (id_serde.serialize h.parent_id
            ++ (id_serde.serialize h.id ++ string_serde.serialize error_msg)))).1

  -- proxy::run. WRAP runs the command without the hook, by uv_spawn, which
  -- gives its exit code or fails.
  unfoldable pub run : Host → (ProcessOptions → Attempt ℕ) → Action → ℕ → Attempt ℕ
  run host uv_spawn act id = elim act.type [
    | ActionType.wrap ↦ uv_spawn (spawn_options act.cmd.executable act.cmd.args false)
    | ActionType.inject ↦ catter.Launch.run host act.cmd id
    | ActionType.drop ↦ ok 0
    | ActionType.unnamed n ↦ ok no_id
  ]

  module _ (host : Host) (uv_spawn : ProcessOptions → Attempt ℕ) (current_path : Bytes)
      (environment : List Bytes) where
    -- Steps 4 and 5 of main: `run`, then `finish`.
    abbrev pub report_finish : ℕ → Handler → Call ℕ
    report_finish ret h = and_then (finish ret h) (λ _ h'. (ok ret, h'))

    abbrev pub execute : ℕ → Action → Handler → Call ℕ
    execute id act h = and_then (run host uv_spawn act id, h) report_finish

    -- Step 3: the decision, and the second look-up.
    abbrev pub locate_received : ℕ → Action → Handler → Call ℕ
    locate_received id act h =
        and_then (locate_exe host.popen act.cmd, h)
          (λ received h'. execute id (record act { cmd = received }) h')

    abbrev pub decide_on : ℕ → Command → Handler → Call ℕ
    decide_on id cmd h = and_then (make_decision cmd h) (locate_received id)

    -- Steps 1 and 2: the command, and where its executable is.
    abbrev pub locate_raw : ℕ → Command → Handler → Call ℕ
    locate_raw id raw h = and_then (locate_exe host.popen raw, h) (decide_on id)

    abbrev pub run_steps : ℕ → List Bytes → Handler → Call ℕ
    run_steps id argv h =
        and_then (build_raw_cmd current_path (set_mark environment) argv, h) (locate_raw id)

    -- What follows `create`: a command after "--", or a message of the hook.
    abbrev pub after_create : Bytes → List Bytes → ℕ → Handler → Call ℕ
    after_create mark argv id h =
        if bytes_eq mark (codes "--") then run_steps id argv h else (ok no_id, report_error mark h)

    -- `std::stoi(argv[2])`, which throws, and `create`.
    abbrev pub create_from : Bytes → List Bytes → Handler → Option ℕ → Call ℕ
    create_from mark argv h none = (threw (codes "stoi"), h)
    create_from mark argv h (some parent_id) =
        and_then (create parent_id h) (after_create mark argv)

    -- The body of the try block.
    abbrev pub try_block : Bytes → Bytes → Bytes → List Bytes → Handler → Call ℕ
    try_block flag parent mark argv h =
        if bytes_eq flag (codes "-p")
        then create_from mark argv h (stoi parent)
        else (ok no_id, report_error (codes "Invalid arguments in catter-proxy") h)

    -- The catch clauses.
    abbrev pub catch : Call ℕ → ℕ × Handler
    catch (ok code, h) = (code, h)
    catch (threw what, h) = (no_id, report_error what h)

    -- main: the exit code, and the handler at the end.
    unfoldable pub main : List Bytes → Handler → ℕ × Handler
    main (argv0 ∷ flag ∷ parent ∷ mark ∷ argv) h = catch (try_block flag parent mark argv h)
    main _ h = (no_id, report_error (codes "Insufficient arguments in catter-proxy") h)
