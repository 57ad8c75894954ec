-- ===== src/Rpc/Messages.antt =====
-- common/uv/rpc_data.h: the `Serde`s of the messages over any reader.
use catter.Prelude.{ℕ, ◌≡◌, some, ◌++◌, Bytes, All, IsByte}
use catter.Serde.{Reader}
use catter.Serde.Codec.{IsReader}
use catter.Rpc.{Command, Action, command_serde, action_serde}
use catter.Rpc.RoundTrip.{
  ValidCommand, ValidType, RoundTrip-command, RoundTrip-action, Faithful-action,
}

-- A command whose sizes fit in size_t, and whose strings have lengths that the reader can
-- deliver, comes back from its serialization, and the bytes behind it are left.
pub deserialize-serialize :
    {reader : Reader} {P : ℕ → Type 0}
    → IsReader reader P
    → (cmd : Command) (rest : Bytes) → ValidCommand P cmd
    → command_serde.deserialize reader (command_serde.serialize cmd ++ rest) ≡ some (cmd, rest)
deserialize-serialize r cmd rest v = RoundTrip-command r cmd rest v

-- The same for an action, which has also a type: a named one, or one that has no name and still
-- fits in a byte.
pub action_roundtrip :
    {reader : Reader} {P : ℕ → Type 0}
    → IsReader reader P
    → (act : Action) (rest : Bytes) → ValidType act.type
    → ValidCommand P act.cmd
    → action_serde.deserialize reader (action_serde.serialize act ++ rest) ≡ some (act, rest)
action_roundtrip r act rest t v = RoundTrip-action r act rest (t, v)

-- Bytes that are accepted as an action are the serialization of that action, and what is behind
-- it: no other encoding is accepted, and nothing is skipped.
pub serialize-deserialize :
    {reader : Reader} {P : ℕ → Type 0}
    → IsReader reader P
    → (bytes : Bytes) (act : Action) (rest : Bytes) → All IsByte bytes
    → action_serde.deserialize reader bytes ≡ some (act, rest)
    → bytes ≡ action_serde.serialize act ++ rest
serialize-deserialize r bytes act rest all h = Faithful-action r bytes act rest all h
