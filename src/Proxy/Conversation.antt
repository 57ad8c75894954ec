-- ===== src/Proxy/Conversation.antt =====
-- catter-proxy/main.cc and catter/main.cc: the two sides of the pipe together.
use catter.Prelude.{
  ℕ, ◌<◌, ◌^◌, ◌≡◌, refl, ap, ◌∙◌, ◌++◌, true, false, some, List, [], ◌∷◌, Bytes, codes, arith,
  if◌then◌else◌, bytes_eq,
}
use catter.Spawn.{ProcessOptions}
use catter.Decimal.{to_string, stoi-to_string}
use catter.Serde.{Serde, string_serde}
use catter.Serde.Codec.{IsReader, RoundTrip-int}
use catter.Rpc.{Command, Request, id_bytes, no_id, id_serde, request_serde, action_serde}
use catter.Rpc.RoundTrip.{ValidCommand, RoundTrip-action}
use catter.Launch.{Attempt, ok, threw, Host, locate_exe}
use catter.Server.{accept, decide, disconnected, Thrown}
use catter.Server.Refinement.{
  Message, message_bytes, IsInt, all_bytes, all_replies, all_events, accept-messages, replies_to,
}
use catter.Proxy.{
  Handler, connect, and_then, Pipe, write, receive, keep_id, create, make_decision, finish,
  build_raw_cmd, set_mark, run, execute, after_create, catch, main, report_error, run_steps,
  report_finish, create_from, decide_on, locate_received,
}

write-ok :
    (pipe : Pipe) (h : Handler) (bytes : Bytes)
    → ((n : ℕ) → pipe.can_write n ≡ true)
    → write pipe h bytes ≡ (ok tt, record h { written = h.written ++ bytes ∷ [] })
write-ok pipe h bytes w = rw (write, w)

receive-ok :
    {A : Type 0} (pipe : Pipe) (s : Serde A) (h : Handler) {a : A} {t : Bytes}
    → s.deserialize pipe.reader h.unread ≡ some (a, t)
    → receive pipe s h ≡ (ok a, record h { unread = t })
receive-ok pipe s h e = rw (receive, e)

module _ (pipe : Pipe) {P : ℕ → Type 0} (r : IsReader pipe.reader P)
    (w : (n : ℕ) → pipe.can_write n ≡ true) where
  create-ok :
      (n id : ℕ) (h : Handler) (rest : Bytes)
      → IsInt id
      → h.unread ≡ id_serde.serialize id ++ rest
      → create pipe n h ≡ (
        ok id,
        record {
          parent_id = n;
          id = id;
          written = h.written ++ message_bytes (Message.create n) ∷ [];
          unread = rest;
        },
      )
  unfolding create message_bytes
  create-ok n id h rest v e =
      ap (λ c. and_then c (λ _ h'. and_then (receive pipe id_serde h') (keep_id pipe)))
        (write-ok pipe (record h { parent_id = n }) _ w)
      ∙ ap (λ c. and_then c (keep_id pipe))
          (receive-ok pipe id_serde _ (
            ap (id_serde.deserialize pipe.reader) e
            ∙ RoundTrip-int r id_bytes (omega arith) id rest v))

  make_decision-ok :
      (cmd : Command) (h : Handler) (rest : Bytes)
      → ValidCommand P cmd
      → h.unread ≡ action_serde.serialize (decide cmd) ++ rest
      → make_decision pipe cmd h ≡ (
        ok (decide cmd),
        record h {
          written = h.written ++ message_bytes (Message.make_decision cmd) ∷ [];
          unread = rest;
        },
      )
  unfolding make_decision message_bytes
  make_decision-ok cmd h rest v e =
      ap (λ c. and_then c (λ _ h'. receive pipe action_serde h')) (write-ok pipe h _ w)
      ∙ receive-ok pipe action_serde _ (
          ap (action_serde.deserialize pipe.reader) e
          ∙ RoundTrip-action r (decide cmd) rest (tt, v))

  finish-ok :
      (ret : ℕ) (h : Handler)
      → finish pipe ret h
        ≡ (ok tt, record h { written = h.written ++ message_bytes (Message.finish ret) ∷ [] })
  unfolding finish message_bytes
  finish-ok ret h = write-ok pipe h _ w

-- The writes of one side as the stream that the other side reads.
unfoldable pub joined : List Bytes → Bytes
joined [] = []
joined (bytes ∷ more) = bytes ++ joined more

-- What a run of catter-proxy for the command `cmd` says: the child of `n` is created, its command
-- is decided on, and its exit code `ret` is reported.
abbrev pub messages_of : ℕ → Command → ℕ → List Message
messages_of n cmd ret = Message.create n ∷ Message.make_decision cmd ∷ Message.finish ret ∷ []

unfoldable pub all_written : List Message → List Bytes
all_written [] = []
all_written (m ∷ ms) = message_bytes m ∷ all_written ms

joined-all_written : (ms : List Message) → joined (all_written ms) ≡ all_bytes ms
unfolding joined all_written all_bytes
joined-all_written [] = refl
joined-all_written (m ∷ ms) = ap (λ b. message_bytes m ++ b) (joined-all_written ms)

module _ (pipe : Pipe) {P : ℕ → Type 0} (r : IsReader pipe.reader P)
    (w : (n : ℕ) → pipe.can_write n ≡ true) (host : Host) (uv_spawn : ProcessOptions → Attempt ℕ)
    (current_path : Bytes) (environment : List Bytes) where
  execute-ok :
      (id ret : ℕ) (cmd : Command) (h : Handler)
      → catter.Launch.run host cmd id ≡ ok ret
      → execute pipe host uv_spawn current_path environment id (decide cmd) h
        ≡ (ok ret, record h { written = h.written ++ message_bytes (Message.finish ret) ∷ [] })
  unfolding run
  execute-ok id ret cmd h e =
      let report = report_finish pipe host uv_spawn current_path environment in
      ap (λ (a : Attempt ℕ). and_then (a, h) report) e
      ∙ ap (λ c. and_then c (λ _ h2. (ok ret, h2))) (finish-ok pipe r w ret h)

  pub main-talks :
      (n id ret : ℕ) (argv0 exe : Bytes) (args : List Bytes) (cmd received : Command)
      → n < 2 ^ 32
      → IsInt id
      → ValidCommand P cmd
      → locate_exe host.popen (record {
        working_dir = current_path;
        executable = exe;
        args = args;
        env = set_mark environment;
      })
        ≡ ok cmd
      → locate_exe host.popen cmd ≡ ok received
      → catter.Launch.run host received id ≡ ok ret
      → main pipe host uv_spawn current_path environment
          (argv0 ∷ codes "-p" ∷ to_string n ∷ codes "--" ∷ exe ∷ args)
          (connect (joined (all_replies id (messages_of n cmd ret))))
        ≡ (
          ret,
          record {
            parent_id = n;
            id = id;
            written = all_written (messages_of n cmd ret);
            unread = [];
          },
        )
  unfolding main build_raw_cmd joined all_replies replies_to all_written
  main-talks n id ret argv0 exe args cmd received vn vid vc e1 e2 e3 =
      let h = connect (joined (all_replies id (messages_of n cmd ret))) in
      let act = action_serde.serialize (decide cmd) ++ [] in
      let argv = exe ∷ args in
      let h1 : Handler = record {
        parent_id = n;
        id = id;
        written = message_bytes (Message.create n) ∷ [];
        unread = act;
      } in
      let h2 : Handler = record h1 {
        written = h1.written ++ message_bytes (Message.make_decision cmd) ∷ [];
        unread = [];
      } in
      ap (catch pipe host uv_spawn current_path environment) (
        ap (create_from pipe host uv_spawn current_path environment (codes "--") argv h)
          (stoi-to_string n vn)
        ∙ ap
            (λ c.
              and_then c
                (after_create pipe host uv_spawn current_path environment (codes "--") argv))
            (create-ok pipe r w n id h act vid refl)
        ∙ ap
            (λ (a : Attempt Command).
              and_then (a, h1) (decide_on pipe host uv_spawn current_path environment id))
            e1
        ∙ ap (λ c. and_then c (locate_received pipe host uv_spawn current_path environment id))
            (make_decision-ok pipe r w cmd h1 [] vc refl)
        ∙ ap
            (λ (a : Attempt Command).
              and_then (a, h2)
                (λ c h'. execute pipe host uv_spawn current_path environment id (decide c) h'))
            e2
        ∙ execute-ok id ret received h2 e3)

  -- Where no write fails, a message of the hook in place of "--" is reported under the id that the
  -- server gives, nothing is run, and the exit code is -1.
  pub main-reports :
      (n id : ℕ) (argv0 message : Bytes) (argv : List Bytes)
      → n < 2 ^ 32
      → IsInt id
      → bytes_eq message (codes "--") ≡ false
      → main pipe host uv_spawn current_path environment
          (argv0 ∷ codes "-p" ∷ to_string n ∷ message ∷ argv)
          (connect
            (joined (all_replies id (Message.create n ∷ Message.report_error n id message ∷ []))))
        ≡ (
          no_id,
          record {
            parent_id = n;
            id = id;
            written = all_written (Message.create n ∷ Message.report_error n id message ∷ []);
            unread = [];
          },
        )
  unfolding main joined all_replies replies_to all_written report_error message_bytes
  main-reports n id argv0 message argv vn vid other =
      let sent = Message.create n ∷ Message.report_error n id message ∷ [] in
      let h = connect (joined (all_replies id sent)) in
      let h1 : Handler = record {
        parent_id = n;
        id = id;
        written = message_bytes (Message.create n) ∷ [];
        unread = [];
      } in
      let body =
        request_serde.serialize Request.report_error
        ++ (id_serde.serialize n ++ (id_serde.serialize id ++ string_serde.serialize message)) in
      ap (catch pipe host uv_spawn current_path environment) (
        ap (create_from pipe host uv_spawn current_path environment message argv h)
          (stoi-to_string n vn)
        ∙ ap
            (λ c.
              and_then c (after_create pipe host uv_spawn current_path environment message argv))
            (create-ok pipe r w n id h [] vid refl)
        ∙ ap
            (λ b.
              if b
              then run_steps pipe host uv_spawn current_path environment id argv h1
              else (ok no_id, report_error pipe message h1))
            other
        ∙ ap (λ c. (ok no_id, c.1)) (write-ok pipe h1 body w))

  -- Where no write fails, a command whose executable cannot be located is not sent to the server: the
  -- exception is reported under the id that the server gives, and the exit code is -1.
  pub main-not_located :
      (n id : ℕ) (argv0 exe what : Bytes) (args : List Bytes)
      → n < 2 ^ 32
      → IsInt id
      → locate_exe host.popen (record {
        working_dir = current_path;
        executable = exe;
        args = args;
        env = set_mark environment;
      })
        ≡ threw what
      → main pipe host uv_spawn current_path environment
          (argv0 ∷ codes "-p" ∷ to_string n ∷ codes "--" ∷ exe ∷ args)
          (connect
            (joined (all_replies id (Message.create n ∷ Message.report_error n id what ∷ []))))
        ≡ (
          no_id,
          record {
            parent_id = n;
            id = id;
            written = all_written (Message.create n ∷ Message.report_error n id what ∷ []);
            unread = [];
          },
        )
  unfolding main build_raw_cmd joined all_replies replies_to all_written report_error message_bytes
  main-not_located n id argv0 exe what args vn vid e =
      let h =
        connect
          (joined (all_replies id (Message.create n ∷ Message.report_error n id what ∷ []))) in
      let argv = exe ∷ args in
      let h1 : Handler = record {
        parent_id = n;
        id = id;
        written = message_bytes (Message.create n) ∷ [];
        unread = [];
      } in
      let body =
        request_serde.serialize Request.report_error
        ++ (id_serde.serialize n ++ (id_serde.serialize id ++ string_serde.serialize what)) in
      ap (catch pipe host uv_spawn current_path environment) (
        ap (create_from pipe host uv_spawn current_path environment (codes "--") argv h)
          (stoi-to_string n vn)
        ∙ ap
            (λ c.
              and_then c
                (after_create pipe host uv_spawn current_path environment (codes "--") argv))
            (create-ok pipe r w n id h [] vid refl)
        ∙ ap
            (λ (a : Attempt Command).
              and_then (a, h1) (decide_on pipe host uv_spawn current_path environment id))
            e)
      ∙ ap (λ c. (no_id, c.1)) (write-ok pipe h1 body w)

  -- A run of catter-proxy against the server, where no write fails, the reader throws UV_EOF at the
  -- end of a stream and delivers the strings of the located command, which the one over libuv does
  -- not do for an empty argument, where both look-ups of the executable succeed and the command runs
  -- and returns `ret`. The server, reading what catter-proxy writes, replies what catter-proxy reads
  -- and prints the three messages and the disconnection without an error, and the exit code of
  -- catter-proxy is `ret`.
  pub conversation :
      (thrown : Bytes → Thrown)
      → thrown [] ≡ Thrown.eof
      → (n id ret : ℕ) (argv0 exe : Bytes) (args : List Bytes) (cmd received : Command) → n < 2 ^ 32
      → IsInt id
      → IsInt ret
      → ValidCommand P cmd
      → locate_exe host.popen (record {
        working_dir = current_path;
        executable = exe;
        args = args;
        env = set_mark environment;
      })
        ≡ ok cmd
      → locate_exe host.popen cmd ≡ ok received
      → catter.Launch.run host received id ≡ ok ret
      → (accept pipe.reader thrown pipe.can_write id true
            (joined (all_written (messages_of n cmd ret)))
          ≡ some (record {
            unread = [];
            replies = all_replies id (messages_of n cmd ret);
            printed = all_events id (messages_of n cmd ret) ++ disconnected id ∷ [];
          }))
        × (main pipe host uv_spawn current_path environment
              (argv0 ∷ codes "-p" ∷ to_string n ∷ codes "--" ∷ exe ∷ args)
              (connect (joined (all_replies id (messages_of n cmd ret))))
            ≡ (
              ret,
              record {
                parent_id = n;
                id = id;
                written = all_written (messages_of n cmd ret);
                unread = [];
              },
            ))
  conversation thrown ended n id ret argv0 exe args cmd received vn vid vret vc e1 e2 e3 = (
    ap (accept pipe.reader thrown pipe.can_write id true)
          (joined-all_written (messages_of n cmd ret))
        ∙ accept-messages r thrown pipe.can_write id (messages_of n cmd ret) ended w
            (omega arith, (vc, (vret, tt))),
    main-talks n id ret argv0 exe args cmd received vn vid vc e1 e2 e3,
  )
