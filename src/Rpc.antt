-- ===== src/Rpc.antt =====
-- src/common/uv/rpc_data.h: the messages between catter-proxy and catter, and their `Serde`s.
-- A command_id_t (int32_t) is its 32-bit pattern: -1 is `2 ^ 32 - 1`.
pub mod RoundTrip
pub mod Messages
use catter.Prelude.{ℕ, ◌-◌, ◌^◌, List, ◌++◌, Bytes, ◌==◌, if◌then◌else◌}
use catter.Serde.{Stream, ◌>>=◌, pure, Reader, Serde, int_serde, string_serde, vector_serde}

-- sizeof(command_id_t), also of the int of FINISH
abbrev pub id_bytes : ℕ
id_bytes = 4

-- The pattern of -1, the ids before `create`.
abbrev pub no_id : ℕ
no_id = 2 ^ 32 - 1

abbrev pub id_serde : Serde ℕ
id_serde = int_serde id_bytes

pub record Command : Type 0 where
  pub working_dir : Bytes
  pub executable : Bytes
  pub args : List Bytes
  pub env : List Bytes

-- The enum over uint8_t. A cast from a byte can give a value that has no name.
pub data ActionType : Type 0 where
  drop inject wrap : ActionType
  unnamed : ℕ → ActionType

pub record Action : Type 0 where
  pub type : ActionType
  pub cmd : Command

pub data Request : Type 0 where
  create make_decision report_error finish : Request
  unknown : ℕ → Request

abbrev pub ActionType_to_u8 : ActionType → ℕ
ActionType_to_u8 drop = 0
ActionType_to_u8 inject = 1
ActionType_to_u8 wrap = 2
ActionType_to_u8 (unnamed n) = n

abbrev pub ActionType_of_u8 : ℕ → ActionType
ActionType_of_u8 n =
    if n == 0 then drop else if n == 1 then inject else if n == 2 then wrap else unnamed n

abbrev pub Request_to_u8 : Request → ℕ
Request_to_u8 create = 0
Request_to_u8 make_decision = 1
Request_to_u8 report_error = 2
Request_to_u8 finish = 3
Request_to_u8 (unknown n) = n

abbrev pub Request_of_u8 : ℕ → Request
Request_of_u8 n =
    if n == 0
    then create
    else if n == 1
    then make_decision
    else if n == 2
    then report_error
    else if n == 3
    then finish
    else unknown n

unfoldable pub request_serde : Serde Request
request_serde = record {
  serialize = λ req. (int_serde 1).serialize (Request_to_u8 req);
  deserialize =
      λ reader. ((int_serde 1).deserialize reader >>= λ value. pure (Request_of_u8 value));
}

abbrev pub strings_serde : Serde (List Bytes)
strings_serde = vector_serde string_serde

unfoldable pub command_serde : Serde Command
command_serde = record {
  serialize = λ cmd.
      string_serde.serialize cmd.working_dir
      ++ (string_serde.serialize cmd.executable
          ++ (strings_serde.serialize cmd.args ++ strings_serde.serialize cmd.env));
  deserialize = λ reader.
      (string_serde.deserialize reader >>= λ dir.
      (string_serde.deserialize reader >>= λ exe.
      (strings_serde.deserialize reader >>= λ args.
      (strings_serde.deserialize reader >>= λ env.
      pure (record { working_dir = dir; executable = exe; args = args; env = env })))));
}

unfoldable pub action_serde : Serde Action
action_serde = record {
  serialize =
      λ act. (int_serde 1).serialize (ActionType_to_u8 act.type) ++ command_serde.serialize act.cmd;
  deserialize = λ reader.
      ((int_serde 1).deserialize reader >>= λ type.
      (command_serde.deserialize reader >>= λ cmd.
      pure (record { type = ActionType_of_u8 type; cmd = cmd })));
}
