-- ===== src/Rpc/RoundTrip.antt =====
-- common/uv/rpc_data.h: which messages are valid, and theorems about their `Serde`s.
use catter.Prelude.{ℕ, ◌≤◌, ◌<◌, ◌≡◌, some, List, ◌++◌, append_assoc, arith, Bytes, All, length}
use catter.Serde.{pure, Reader, int_serde, string_serde, to_le}
use catter.Serde.Codec.{
  IsReader, RoundTrip, Faithful, FitsSize, RoundTrip-int, Faithful-int, RoundTrip-string,
  Faithful-string, RoundTrip-vector, Faithful-vector, proceed-eq-some, peel,
}
use catter.Rpc.{
  Command, ActionType, Action, Request, request_serde, command_serde, action_serde,
  ActionType_to_u8, ActionType_of_u8, Request_to_u8, Request_of_u8, strings_serde,
}

-- The sizes fit in size_t, and the reader can deliver every string.
abbrev pub ValidString : (ℕ → Type 0) → Bytes → Type 0
ValidString P str = FitsSize str × P (length str)

abbrev pub ValidStrings : (ℕ → Type 0) → List Bytes → Type 0
ValidStrings P strs = FitsSize strs × All (ValidString P) strs

pub record ValidCommand (P : ℕ → Type 0) (c : Command) : Type 0 where
  pub working_dir : ValidString P c.working_dir
  pub executable : ValidString P c.executable
  pub args : ValidStrings P c.args
  pub env : ValidStrings P c.env

-- A value of the enum: a named one, or one that the cast made.
abbrev pub ValidType : ActionType → Type 0
ValidType (ActionType.unnamed n) = (3 ≤ n) × (n < 256)
ValidType _ = Unit

abbrev pub ValidRequest : Request → Type 0
ValidRequest (Request.unknown n) = (4 ≤ n) × (n < 256)
ValidRequest _ = Unit

pub ActionType_of_u8-to_u8 :
    (t : ActionType) → ValidType t → ActionType_of_u8 (ActionType_to_u8 t) ≡ t
ActionType_of_u8-to_u8 t h = ground arith

pub ActionType_to_u8-of_u8 : (n : ℕ) → ActionType_to_u8 (ActionType_of_u8 n) ≡ n
ActionType_to_u8-of_u8 n = ground arith

ActionType_to_u8-lt : (t : ActionType) → ValidType t → ActionType_to_u8 t < 256
ActionType_to_u8-lt t h = ground arith

pub Request_of_u8-to_u8 : (r : Request) → ValidRequest r → Request_of_u8 (Request_to_u8 r) ≡ r
Request_of_u8-to_u8 r h = ground arith

pub Request_to_u8-of_u8 : (n : ℕ) → Request_to_u8 (Request_of_u8 n) ≡ n
Request_to_u8-of_u8 n = ground arith

Request_to_u8-lt : (r : Request) → ValidRequest r → Request_to_u8 r < 256
Request_to_u8-lt r h = ground arith

command_bytes :
    (dir exe : Bytes) (args env : List Bytes) (c : Command) (rest : Bytes) {b t t2 t3 t4 : Bytes}
    → b ≡ string_serde.serialize dir ++ t
    → t ≡ string_serde.serialize exe ++ t2
    → t2 ≡ strings_serde.serialize args ++ t3
    → t3 ≡ strings_serde.serialize env ++ t4
    → pure {A = Command} (record { working_dir = dir; executable = exe; args = args; env = env }) t4
      ≡ some (c, rest)
    → b ≡ command_serde.serialize c ++ rest
unfolding command_serde
command_bytes dir exe args env c rest p p2 p3 p4 q =
    let dir' = string_serde.serialize dir in
    let exe' = string_serde.serialize exe in
    let args' = strings_serde.serialize args in
    let env' = strings_serde.serialize env in
    cc (
      append_assoc dir' (exe' ++ (args' ++ env')) rest,
      append_assoc exe' (args' ++ env') rest,
      append_assoc args' env' rest,
    )

action_bytes :
    (type : ℕ) (cmd : Command) (a : Action) (rest : Bytes) {b t t2 : Bytes}
    → b ≡ (int_serde 1).serialize type ++ t
    → t ≡ command_serde.serialize cmd ++ t2
    → pure {A = Action} (record { type = ActionType_of_u8 type; cmd = cmd }) t2 ≡ some (a, rest)
    → b ≡ action_serde.serialize a ++ rest
unfolding action_serde
action_bytes type cmd a rest p p2 q =
    cc (ActionType_to_u8-of_u8 type, append_assoc (to_le 1 type) (command_serde.serialize cmd) rest)

module _ {reader : Reader} {P : ℕ → Type 0} (r : IsReader reader P) where
  pub RoundTrip-request : RoundTrip reader ValidRequest request_serde
  unfolding request_serde
  RoundTrip-request req rest h =
      rw (RoundTrip-int r 1 (omega arith) (Request_to_u8 req) rest (Request_to_u8-lt req h))
        (rw (Request_of_u8-to_u8 req h))

  RoundTrip-strings : RoundTrip reader (ValidStrings P) strings_serde
  RoundTrip-strings = RoundTrip-vector r string_serde (ValidString P) (RoundTrip-string r)

  -- A command comes back unchanged.
  pub RoundTrip-command : RoundTrip reader (ValidCommand P) command_serde
  unfolding command_serde
  RoundTrip-command c rest h =
      let dir = string_serde.serialize c.working_dir in
      let exe = string_serde.serialize c.executable in
      let args = strings_serde.serialize c.args in
      let env = strings_serde.serialize c.env in
      rw (append_assoc dir (exe ++ (args ++ env)) rest) (
        rw (RoundTrip-string r c.working_dir _ h.working_dir) (
          rw (append_assoc exe (args ++ env) rest) (
            rw (RoundTrip-string r c.executable _ h.executable) (
              rw (append_assoc args env rest)
                (rw (RoundTrip-strings c.args _ h.args) (rw (RoundTrip-strings c.env _ h.env)))))))

  pub RoundTrip-action :
      RoundTrip reader (λ a. ValidType a.type × ValidCommand P a.cmd) action_serde
  unfolding action_serde
  RoundTrip-action a rest (t, c) = rw append_assoc (
      rw
        (RoundTrip-int r 1 (omega arith) (ActionType_to_u8 a.type)
          (command_serde.serialize a.cmd ++ rest) (ActionType_to_u8-lt a.type t))
        (rw (RoundTrip-command a.cmd rest c) (rw (ActionType_of_u8-to_u8 a.type t))))

  Faithful-strings : Faithful reader strings_serde
  Faithful-strings = Faithful-vector r string_serde (Faithful-string r)

  -- What is accepted as a command is the serialization of that command.
  pub Faithful-command : Faithful reader command_serde
  unfolding command_serde
  Faithful-command bytes c rest bs h =
      let (dir, t, e, f) = proceed-eq-some (string_serde.deserialize reader bytes) _ h in
      let (exe, t2, e2, f2) = proceed-eq-some (string_serde.deserialize reader t) _ f in
      let (args, t3, e3, f3) = proceed-eq-some (strings_serde.deserialize reader t2) _ f2 in
      let (env, t4, e4, f4) = proceed-eq-some (strings_serde.deserialize reader t3) _ f3 in
      let (p, bs1) = peel reader string_serde (Faithful-string r) bytes dir t bs e in
      let (p2, bs2) = peel reader string_serde (Faithful-string r) t exe t2 bs1 e2 in
      let (p3, bs3) = peel reader strings_serde Faithful-strings t2 args t3 bs2 e3 in
      let (p4, bs4) = peel reader strings_serde Faithful-strings t3 env t4 bs3 e4 in
      command_bytes dir exe args env c rest p p2 p3 p4 f4

  pub Faithful-action : Faithful reader action_serde
  unfolding action_serde
  Faithful-action bytes a rest bs h =
      let (type, t, e, f) = proceed-eq-some ((int_serde 1).deserialize reader bytes) _ h in
      let (cmd, t2, e2, f2) = proceed-eq-some (command_serde.deserialize reader t) _ f in
      let (p, bs1) = peel reader (int_serde 1) (Faithful-int r 1) bytes type t bs e in
      let (p2, bs2) = peel reader command_serde Faithful-command t cmd t2 bs1 e2 in
      action_bytes type cmd a rest p p2 f2
