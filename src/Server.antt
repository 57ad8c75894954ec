-- ===== src/Server.antt =====
-- catter/main.cc: the server. `serve` is the coroutine `accept`, which answers the requests of one
-- client until its stream ends. Memory for what is read is never lacking.
pub mod Main
pub mod Refinement
pub mod Termination
use catter.Prelude.{
  ℕ, zero, suc, ◌+◌, ◌≡◌, Option, none, some, Bool, true, false, List, [], ◌∷◌, ◌++◌, Bytes, codes,
  length, bytes_eq, if◌then◌else◌,
}
use catter.Serde.{Reader, Serde, Stream, int_serde, string_serde}
use catter.Rpc.{
  Command, Action, Request, ActionType, id_bytes, id_serde, request_serde, command_serde,
  action_serde,
}

-- What is printed, with the values that the text shows.
pub data Event : Type 0 where
  created : (id parent_id : ℕ) → Event
  decision : (id : ℕ) → (line : Bytes) → Event
  finish_code : (id code : ℕ) → Event
  reported_error : (cmd_id parent_id : ℕ) → (error_msg : Bytes) → Event
  unknown_request : Event
  disconnected : ℕ → Event
  disconnected_with_error : (id err : ℕ) → Event
  accept_error : Event
  handling_failed : Event

-- What a reader throws: UV_EOF or another ssize_t, or the exception of a read that cannot start.
pub data Thrown : Type 0 where
  eof : Thrown
  error : (err : ℕ) → Thrown
  exception : Thrown

-- The three `catch`es, for a failed read.
unfoldable pub caught : ℕ → Thrown → Event
caught id eof = disconnected id
caught id (error err) = disconnected_with_error id err
caught id exception = handling_failed

-- One client: the bytes that it has sent and that are unread, what has been written to it, and
-- what has been printed.
pub record Connection : Type 0 where
  pub unread : Bytes
  pub replies : List Bytes
  pub printed : List Event

-- A round ends with the connection served further or closed.
pub data Round : Type 0 where
  next : Connection → Round
  closed : Connection → Round

-- std::println
abbrev pub print : Connection → Event → Connection
print c e = record c { printed = c.printed ++ e ∷ [] }

-- The command line that is printed.
unfoldable pub line_of : Bytes → List Bytes → Bytes
line_of line [] = line
line_of line (arg ∷ args) = line_of (line ++ (codes " " ++ arg)) args

-- The action that every command gets.
abbrev pub decide : Command → Action
decide cmd = record { type = ActionType.inject; cmd = cmd }

abbrev pub go_on : (Connection → Option Connection) → Round → Option Connection
go_on loop (next c) = loop c
go_on loop (closed c) = some c

module _ (reader : Reader) (thrown : Bytes → Thrown) (can_write : ℕ → Bool) (id : ℕ) where
  -- `co_await co_deserialize(reader)`, and what follows it. Where the reader throws in it, `thrown`
  -- says what, for the bytes that were unread.
  abbrev pub await : {A : Type 0} → Serde A → Connection → (A → Connection → Round) → Round
  await s c f = elim (s.deserialize reader c.unread) [
    | none ↦ closed (print c (caught id (thrown c.unread)))
    | some r ↦ f r.0 (record c { unread = r.1 })
  ]

  -- `co_await write(...)`. The n-th write succeeds if `can_write n`.
  abbrev pub reply : Connection → Bytes → Round
  reply c bytes =
      if can_write (length c.replies)
      then next (record c { replies = c.replies ++ bytes ∷ [] })
      else closed (print c handling_failed)

  -- What follows the read of each request's fields.
  abbrev pub on_create : ℕ → Connection → Round
  on_create parent_id c = reply (print c (created id parent_id)) (id_serde.serialize id)

  abbrev pub on_command : Command → Connection → Round
  on_command cmd c =
      reply (print c (decision id (line_of cmd.executable cmd.args)))
        (action_serde.serialize (decide cmd))

  abbrev pub on_finish : ℕ → Connection → Round
  on_finish ret_code c = next (print c (finish_code id ret_code))

  abbrev pub on_message : (parent_id cmd_id : ℕ) → Bytes → Connection → Round
  on_message parent_id cmd_id error_msg c =
      next (print c (reported_error cmd_id parent_id error_msg))

  abbrev pub on_id : (parent_id cmd_id : ℕ) → Connection → Round
  on_id parent_id cmd_id c = await string_serde c (on_message parent_id cmd_id)

  abbrev pub on_parent_id : ℕ → Connection → Round
  on_parent_id parent_id c = await id_serde c (on_id parent_id)

  -- The switch on the request.
  unfoldable pub handle : Request → Connection → Round
  handle Request.create c = await id_serde c on_create
  handle Request.make_decision c = await command_serde c on_command
  handle Request.finish c = await (int_serde id_bytes) c on_finish
  handle Request.report_error c = await id_serde c on_parent_id
  handle (Request.unknown n) c = next (print c unknown_request)

  -- One round of `while(true)`.
  unfoldable pub round : Connection → Round
  round c = await request_serde c handle

  -- The loop, `fuel` rounds at most: `none` when they were not enough. A round that goes on has
  -- read a byte, so one more round than there are bytes is enough.
  unfoldable pub serve : ℕ → Connection → Option Connection
  serve zero c = none
  serve (suc fuel) c = go_on (serve fuel) (round c)

  -- accept, for a client that sends `unread`, if uv_accept succeeds
  unfoldable pub accept : Bool → Bytes → Option Connection
  accept accepted unread =
      let served =
        serve (suc (length unread)) (record { unread = unread; replies = []; printed = [] }) in
      if accepted
      then served
      else some (record { unread = unread; replies = []; printed = accept_error ∷ [] })
