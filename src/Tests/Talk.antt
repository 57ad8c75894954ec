-- ===== src/Tests/Talk.antt =====
-- catter-proxy, the server and the wire format.
use catter.Prelude.{
  zero, suc, length, ℕ, ◌⊎◌, inl, inr, if◌then◌else◌, ◌==◌, Bool-cases, ◌≡◌, ◌≤◌, ◌<◌, refl, true,
  none, some, List, [], ◌∷◌, ◌++◌, Bytes, codes, arith,
}
use catter.Serde.Readers.{
  memory_reader, uv_reader, Libuv, IsLibuv, got, no_bytes, error, enobufs, eof,
}
use catter.Serde.Readers.Exact.{memory_reader-IsReader, uv_reads, uv_reader-zero, CalledEmpty}
use catter.Rpc.{Action, ActionType, no_id, command_serde, action_serde}
use catter.Rpc.RoundTrip.{ValidCommand}
use catter.Rpc.Messages.{deserialize-serialize, action_roundtrip, serialize-deserialize}
use catter.Decimal.{to_string}
use catter.Server.{Thrown, accept, disconnected}
use catter.Server.Refinement.{Message, all_bytes, all_replies, all_events, accept-messages}
use catter.Proxy.{connect, main}
use catter.Proxy.Conversation.{
  conversation, main-reports, main-not_located, joined, all_written, messages_of,
}
use catter.Server.Main.{Listening, done}
use catter.Launch.{locate_exe, Attempt, ok, threw}
use catter.Launch.Located.{locate_exe-line}
use catter.Tests.{pipe, host, bare_host, wrap, environment, raw, compile}

abbrev compile-ValidCommand : ValidCommand (λ n. Unit {0}) compile
compile-ValidCommand = record {
  working_dir = (omega arith, tt);
  executable = (omega arith, tt);
  args = (omega arith, ((omega arith, tt), ((omega arith, tt), tt)));
  env = (omega arith, ((omega arith, tt), ((omega arith, tt), tt)));
}

-- UV_EOF, wherever the read fails.
abbrev at_end : Bytes → Thrown
at_end unread = Thrown.eof

conversation_example :
    (accept memory_reader at_end (λ n. true) 7 true (joined (all_written (messages_of 0 compile 3)))
      ≡ some (record {
        unread = [];
        replies = all_replies 7 (messages_of 0 compile 3);
        printed = all_events 7 (messages_of 0 compile 3) ++ disconnected 7 ∷ [];
      }))
    × (main pipe host wrap
          (codes "/w")
          environment
          (codes "catter-proxy"
            ∷ codes "-p"
            ∷ to_string 0
            ∷ codes "--"
            ∷ codes "cc"
            ∷ codes "-c"
            ∷ codes "x.c"
            ∷ [])
          (connect (joined (all_replies 7 (messages_of 0 compile 3))))
        ≡ (
          3,
          record {
            parent_id = 0;
            id = 7;
            written = all_written (messages_of 0 compile 3);
            unread = [];
          },
        ))
unfolding locate_exe catter.Launch.fgets catter.Launch.c_str catter.Launch.drop_newline
    catter.Launch.run catter.Launch.run_command catter.Hook.Environment.get_env_value
    catter.Hook.Environment.is_entry catter.Hook.Environment.equal_n
conversation_example =
    conversation pipe memory_reader-IsReader (λ n. refl) host wrap (codes "/w") environment at_end
      refl 0 7 3 (codes "catter-proxy") (codes "cc") (codes "-c" ∷ codes "x.c" ∷ []) compile compile
      (omega arith) (omega arith) (omega arith) compile-ValidCommand refl refl refl

abbrev requests : List Message
requests =
    Message.create 0 ∷ Message.make_decision compile ∷ Message.report_error 0 7 (codes "lost") ∷ []

accept-messages_example :
    accept memory_reader at_end (λ n. true) 7 true (all_bytes requests)
    ≡ some (record {
      unread = [];
      replies = all_replies 7 requests;
      printed = all_events 7 requests ++ disconnected 7 ∷ [];
    })
accept-messages_example =
    accept-messages memory_reader-IsReader at_end (λ n. true) 7 requests refl (λ n. refl)
      (omega arith, (compile-ValidCommand, ((omega arith, omega arith, (omega arith, tt)), tt)))

main-reports_example :
    main pipe host wrap
      (codes "/w")
      environment
      (codes "catter-proxy" ∷ codes "-p" ∷ to_string 4 ∷ codes "lost" ∷ [])
      (connect
        (joined (all_replies 7 (Message.create 4 ∷ Message.report_error 4 7 (codes "lost") ∷ []))))
    ≡ (
      no_id,
      record {
        parent_id = 4;
        id = 7;
        written = all_written (Message.create 4 ∷ Message.report_error 4 7 (codes "lost") ∷ []);
        unread = [];
      },
    )
main-reports_example =
    main-reports pipe memory_reader-IsReader (λ n. refl) host wrap (codes "/w") environment 4 7
      (codes "catter-proxy") (codes "lost") [] (omega arith) (omega arith) refl

abbrev failure : Bytes
failure = codes "command -v failed to locate executable"

main-not_located_example :
    main pipe bare_host wrap
      (codes "/w")
      environment
      (codes "catter-proxy" ∷ codes "-p" ∷ to_string 4 ∷ codes "--" ∷ codes "cc" ∷ [])
      (connect (joined (all_replies 7 (Message.create 4 ∷ Message.report_error 4 7 failure ∷ []))))
    ≡ (
      no_id,
      record {
        parent_id = 4;
        id = 7;
        written = all_written (Message.create 4 ∷ Message.report_error 4 7 failure ∷ []);
        unread = [];
      },
    )
unfolding locate_exe catter.Launch.fgets catter.Launch.c_str catter.Launch.drop_newline
main-not_located_example =
    main-not_located pipe memory_reader-IsReader (λ n. refl) bare_host wrap (codes "/w") environment
      4 7 (codes "catter-proxy") (codes "cc") failure [] (omega arith) (omega arith) refl

locate_exe-line_example :
    locate_exe (λ c. some (codes "/bin/cc" ++ 10 ∷ codes "more", some 0)) raw ≡ ok compile
unfolding catter.Hook.Environment.get_env_value catter.Hook.Environment.is_entry
    catter.Hook.Environment.equal_n
locate_exe-line_example =
    locate_exe-line (λ c. some (codes "/bin/cc" ++ 10 ∷ codes "more", some 0)) raw (b'/')
      (codes "bin/cc") (codes "more") refl (ground arith)

deserialize-serialize_example :
    command_serde.deserialize memory_reader (command_serde.serialize compile ++ 9 ∷ [])
    ≡ some (compile, 9 ∷ [])
deserialize-serialize_example =
    deserialize-serialize memory_reader-IsReader compile (9 ∷ []) compile-ValidCommand

abbrev odd_action : Action
odd_action = record { type = ActionType.unnamed 200; cmd = compile }

action_roundtrip_example :
    action_serde.deserialize memory_reader (action_serde.serialize odd_action ++ 9 ∷ [])
    ≡ some (odd_action, 9 ∷ [])
action_roundtrip_example =
    action_roundtrip memory_reader-IsReader odd_action (9 ∷ []) (omega arith, omega arith)
      compile-ValidCommand

abbrev blank_action : Action
blank_action = record {
  type = ActionType.wrap;
  cmd = record { working_dir = []; executable = codes "a"; args = []; env = [] };
}

abbrev blank_bytes : Bytes
blank_bytes =
    2 ∷ 0 ∷ 0 ∷ 0 ∷ 0 ∷ 0 ∷ 0 ∷ 0 ∷ 0 ∷ 1 ∷ 0 ∷ 0 ∷ 0 ∷ 0 ∷ 0 ∷ 0 ∷ 0 ∷ b'a' ∷ 0 ∷ 0 ∷ 0 ∷ 0 ∷ 0 ∷ 0
    ∷ 0 ∷ 0 ∷ 0 ∷ 0 ∷ 0 ∷ 0 ∷ 0 ∷ 0 ∷ 0 ∷ 0 ∷ []

serialize-deserialize_example : blank_bytes ≡ action_serde.serialize blank_action ++ []
unfolding action_serde command_serde memory_reader catter.Serde.from_le catter.Serde.read_items
serialize-deserialize_example =
    serialize-deserialize memory_reader-IsReader blank_bytes blank_action [] (ground arith) refl

-- A libuv that hands over one byte at a time, and none when the next one is 3.
abbrev slow : Libuv
slow zero s = (error enobufs, s)
slow (suc n) [] = (error eof, [])
slow (suc n) (b ∷ s) = if b == 3 then (no_bytes, b ∷ s) else (got (b ∷ []), s)

abbrev slow-IsLibuv : IsLibuv slow
slow-IsLibuv = record { no_space = λ s. refl; at_end = slow_end; pending = slow_pending }
  where
    slow_end :
        (len : ℕ) → 0 < len → (slow len [] ≡ (error eof, [])) ⊎ (slow len [] ≡ (no_bytes, []))
    slow_end zero h = absurd (omega arith)
    slow_end (suc n) h = inl refl

    slow_pending :
        (len b : ℕ) (s : Bytes)
        → 0 < len
        → ((c t : Bytes) × (slow len (b ∷ s) ≡ (got c, t))
            × (0 < length c)
            × (length c ≤ len)
            × (b ∷ s ≡ c ++ t))
          ⊎ (slow len (b ∷ s) ≡ (no_bytes, b ∷ s))
    slow_pending zero b s h = absurd (omega arith)
    slow_pending (suc n) b s h = elim (Bool-cases (b == 3)) [
      | inl three ↦ inr (rw (three) refl)
      | inr other ↦ inl (b ∷ [], s, rw (other) refl, omega arith, omega arith, refl)
    ]

uv_reads_example :
    (uv_reader slow 3 (1 ∷ 2 ∷ 3 ∷ 4 ∷ []) ≡ some (1 ∷ 2 ∷ 3 ∷ [], 4 ∷ []))
    ⊎ ((cs ds : Bytes) × (uv_reader slow 3 (1 ∷ 2 ∷ 3 ∷ 4 ∷ []) ≡ some (cs, ds ++ 4 ∷ []))
        × (1 ∷ 2 ∷ 3 ∷ [] ≡ cs ++ ds)
        × (0 < length ds)
        × CalledEmpty slow)
uv_reads_example = uv_reads slow slow-IsLibuv (1 ∷ 2 ∷ 3 ∷ []) (4 ∷ []) (omega arith)

uv_reader-zero_example : uv_reader slow 0 (4 ∷ []) ≡ none
uv_reader-zero_example = uv_reader-zero slow slow-IsLibuv (4 ∷ [])

-- The system in which uv_spawn runs main of catter-proxy, as client 7.
abbrev listening : Listening
listening = record {
  bound = true;
  listening = true;
  uv_spawn = λ options.
      ok
        (main pipe host wrap (codes "/w") environment options.args
          (connect (joined (all_replies 7 (messages_of 0 compile 3))))).0;
  acceptors = done ∷ [];
}
