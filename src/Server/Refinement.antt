-- ===== src/Server/Refinement.antt =====
-- catter/main.cc: the loop of `accept`, and its specification on whole messages.
use catter.Prelude.{
  ℕ, zero, suc, ◌≤◌, ◌<◌, ◌^◌, ◌≡◌, refl, sym, ap, ap₂, ◌∙◌, Option, none, some, Bool, true, List,
  [], ◌∷◌, ◌++◌, Bytes, length, arith, append_assoc, append-nil, length-append, All,
}
use catter.Serde.{Reader, Serde, int_serde, string_serde, to_le}
use catter.Serde.Codec.{IsReader, RoundTrip-int, RoundTrip-string}
use catter.Rpc.{
  Command, ActionType, Request, id_bytes, id_serde, request_serde, command_serde, action_serde,
}
use catter.Rpc.RoundTrip.{
  ValidRequest, ValidString, ValidCommand, RoundTrip-request, RoundTrip-command,
}
use catter.Server.{
  Event, created, decision, finish_code, reported_error, disconnected, Connection, print, Round,
  next, closed, line_of, Thrown, eof, caught, decide, handle, round, serve, accept, await, reply,
  on_create, on_command, on_finish, on_message, on_id, on_parent_id, go_on,
}

-- A whole request of the client.
pub data Message : Type 0 where
  create : (parent_id : ℕ) → Message
  make_decision : Command → Message
  finish : (ret_code : ℕ) → Message
  report_error : (parent_id id : ℕ) → (error_msg : Bytes) → Message

-- The bytes that the client writes for it.
unfoldable pub message_bytes : Message → Bytes
message_bytes (create parent_id) =
    request_serde.serialize Request.create ++ id_serde.serialize parent_id
message_bytes (make_decision cmd) =
    request_serde.serialize Request.make_decision ++ command_serde.serialize cmd
message_bytes (finish ret_code) =
    request_serde.serialize Request.finish ++ (int_serde id_bytes).serialize ret_code
message_bytes (report_error parent_id id error_msg) =
    request_serde.serialize Request.report_error
    ++ (id_serde.serialize parent_id ++ (id_serde.serialize id ++ string_serde.serialize error_msg))

abbrev pub IsInt : ℕ → Type 0
IsInt n = n < 256 ^ id_bytes

-- A message of 32-bit integers, whose strings the reader can deliver.
abbrev pub ValidMessage : (ℕ → Type 0) → Message → Type 0
ValidMessage P (create parent_id) = IsInt parent_id
ValidMessage P (make_decision cmd) = ValidCommand P cmd
ValidMessage P (finish ret_code) = IsInt ret_code
ValidMessage P (report_error parent_id id error_msg) =
    IsInt parent_id × IsInt id × ValidString P error_msg

-- The answer: the client's id, or the order to inject the hook into the command as it is.
unfoldable pub replies_to : ℕ → Message → List Bytes
replies_to id (create parent_id) = id_serde.serialize id ∷ []
replies_to id (make_decision cmd) =
    action_serde.serialize (record { type = ActionType.inject; cmd = cmd }) ∷ []
replies_to id (finish ret_code) = []
replies_to id (report_error parent_id cmd_id error_msg) = []

-- The command line that is printed: the executable, and each argument behind a blank.
abbrev pub spaced : List Bytes → Bytes
spaced [] = []
spaced (arg ∷ args) = b' ' ∷ arg ++ spaced args

line_of-spaced : (line : Bytes) (args : List Bytes) → line_of line args ≡ line ++ spaced args
unfolding line_of
line_of-spaced line [] = sym (append-nil line)
line_of-spaced line (arg ∷ args) =
    line_of-spaced (line ++ b' ' ∷ arg) args ∙ append_assoc line (b' ' ∷ arg) (spaced args)

unfoldable pub event_of : ℕ → Message → Event
event_of id (create parent_id) = created id parent_id
event_of id (make_decision cmd) = decision id (cmd.executable ++ spaced cmd.args)
event_of id (finish ret_code) = finish_code id ret_code
event_of id (report_error parent_id cmd_id error_msg) = reported_error cmd_id parent_id error_msg

unfoldable pub all_bytes : List Message → Bytes
all_bytes [] = []
all_bytes (m ∷ ms) = message_bytes m ++ all_bytes ms

unfoldable pub all_replies : ℕ → List Message → List Bytes
all_replies id [] = []
all_replies id (m ∷ ms) = replies_to id m ++ all_replies id ms

unfoldable pub all_events : ℕ → List Message → List Event
all_events id [] = []
all_events id (m ∷ ms) = event_of id m ∷ all_events id ms

-- The connection after one message.
abbrev after : ℕ → Connection → Message → Bytes → Connection
after id c m rest = record {
  unread = rest;
  replies = c.replies ++ replies_to id m;
  printed = c.printed ++ event_of id m ∷ [];
}

-- A read that succeeds.
await-some :
    {A : Type 0} (reader : Reader) (thrown : Bytes → Thrown) (can_write : ℕ → Bool) (id : ℕ)
    (s : Serde A) (c : Connection)
    → (f : A → Connection → Round) {a : A} {t : Bytes} → s.deserialize reader c.unread ≡ some (a, t)
    → await reader thrown can_write id s c f ≡ f a (record c { unread = t })
await-some reader thrown can_write id s c f h = rw (await, h)

await-none :
    {A : Type 0} (reader : Reader) (thrown : Bytes → Thrown) (can_write : ℕ → Bool) (id : ℕ)
    (s : Serde A) (c : Connection)
    → (f : A → Connection → Round) → s.deserialize reader c.unread ≡ none
    → await reader thrown can_write id s c f ≡ closed (print c (caught id (thrown c.unread)))
await-none reader thrown can_write id s c f h = rw (await, h)

reply-next :
    (reader : Reader) (thrown : Bytes → Thrown) (can_write : ℕ → Bool) (id : ℕ) (c : Connection)
    (bytes : Bytes)
    → ((n : ℕ) → can_write n ≡ true)
    → reply reader thrown can_write id c bytes
      ≡ next (record c { replies = c.replies ++ bytes ∷ [] })
reply-next reader thrown can_write id c bytes w = rw (reply, w)

no_reply :
    (c : Connection) (e : Event) (rest : Bytes)
    → next (print (record c { unread = rest }) e)
      ≡ next (record { unread = rest; replies = c.replies ++ []; printed = c.printed ++ e ∷ [] })
no_reply c e rest =
    ap (λ rs. next (record { unread = rest; replies = rs; printed = c.printed ++ e ∷ [] }))
      (sym (append-nil c.replies))

message_bytes-lt : (m : Message) → 0 < length (message_bytes m)
unfolding message_bytes request_serde to_le
message_bytes-lt (create n) = omega arith
message_bytes-lt (make_decision cmd) = omega arith
message_bytes-lt (finish n) = omega arith
message_bytes-lt (report_error p i msg) = omega arith

length-all_bytes : (ms : List Message) → length ms ≤ length (all_bytes ms)
unfolding all_bytes
length-all_bytes [] = omega arith
length-all_bytes (m ∷ ms) =
    omega (
      arith,
      message_bytes-lt m,
      length-all_bytes ms,
      length-append (message_bytes m) (all_bytes ms),
    )

module _ {reader : Reader} {P : ℕ → Type 0} (r : IsReader reader P) where
  -- One round: the request is read, and its handler runs on the rest.
  round-request :
      (thrown : Bytes → Thrown) (can_write : ℕ → Bool) (id : ℕ) (c : Connection) (req : Request)
      (body : Bytes)
      → ValidRequest req
      → c.unread ≡ request_serde.serialize req ++ body
      → round reader thrown can_write id c
        ≡ handle reader thrown can_write id req (record c { unread = body })
  unfolding round
  round-request thrown can_write id c req body v e =
      await-some reader thrown can_write id request_serde c (handle reader thrown can_write id)
        (ap (request_serde.deserialize reader) e ∙ RoundTrip-request r req body v)

  read_id :
      (thrown : Bytes → Thrown) (can_write : ℕ → Bool) (id : ℕ) (c : Connection)
      (f : ℕ → Connection → Round) (n : ℕ)
      → (rest : Bytes) → IsInt n
      → c.unread ≡ id_serde.serialize n ++ rest
      → await reader thrown can_write id id_serde c f ≡ f n (record c { unread = rest })
  read_id thrown can_write id c f n rest v e =
      await-some reader thrown can_write id id_serde c f
        (ap (id_serde.deserialize reader) e ∙ RoundTrip-int r id_bytes (omega arith) n rest v)

  round-message :
      (thrown : Bytes → Thrown) (can_write : ℕ → Bool) (id : ℕ) (c : Connection) (m : Message)
      (rest : Bytes)
      → ((n : ℕ) → can_write n ≡ true)
      → ValidMessage P m
      → c.unread ≡ message_bytes m ++ rest
      → round reader thrown can_write id c ≡ next (after id c m rest)
  unfolding handle message_bytes replies_to event_of
  round-message thrown can_write id c (create n) rest w v e =
      let body = id_serde.serialize n ++ rest in
      round-request thrown can_write id c Request.create body tt
        (e ∙ append_assoc (request_serde.serialize Request.create) (id_serde.serialize n) rest)
      ∙ read_id thrown can_write id (record c { unread = body })
          (on_create reader thrown can_write id) n rest v refl
      ∙ reply-next reader thrown can_write id _ _ w
  round-message thrown can_write id c (make_decision cmd) rest w v e =
      let body = command_serde.serialize cmd ++ rest in
      round-request thrown can_write id c Request.make_decision body tt (
        e
        ∙ append_assoc (request_serde.serialize Request.make_decision) (command_serde.serialize cmd)
            rest)
      ∙ await-some reader thrown can_write id command_serde (record c { unread = body })
          (on_command reader thrown can_write id) (RoundTrip-command r cmd rest v)
      ∙ reply-next reader thrown can_write id _ _ w
      ∙ ap
          (λ line. next (record {
            unread = rest;
            replies = c.replies ++ action_serde.serialize (decide cmd) ∷ [];
            printed = c.printed ++ decision id line ∷ [];
          }))
          (line_of-spaced cmd.executable cmd.args)
  round-message thrown can_write id c (finish n) rest w v e =
      let body = (int_serde id_bytes).serialize n ++ rest in
      round-request thrown can_write id c Request.finish body tt
        (e ∙ append_assoc (request_serde.serialize Request.finish) (id_serde.serialize n) rest)
      ∙ read_id thrown can_write id (record c { unread = body })
          (on_finish reader thrown can_write id) n rest v refl
      ∙ no_reply c (finish_code id n) rest
  round-message thrown can_write id c (report_error p i msg) rest w (vp, vi, vm) e =
      let body3 = string_serde.serialize msg ++ rest in
      let body2 = id_serde.serialize i ++ body3 in
      let body = id_serde.serialize p ++ body2 in
      round-request thrown can_write id c Request.report_error body tt (
        e
        ∙ append_assoc (request_serde.serialize Request.report_error) _ rest
        ∙ ap (λ t. request_serde.serialize Request.report_error ++ t)
            (append_assoc (id_serde.serialize p) _ rest
              ∙ ap (λ t. id_serde.serialize p ++ t)
                  (append_assoc (id_serde.serialize i) (string_serde.serialize msg) rest)))
      ∙ read_id thrown can_write id (record c { unread = body })
          (on_parent_id reader thrown can_write id) p body2 vp refl
      ∙ read_id thrown can_write id (record c { unread = body2 })
          (on_id reader thrown can_write id p) i body3 vi refl
      ∙ await-some reader thrown can_write id string_serde (record c { unread = body3 })
          (on_message reader thrown can_write id p i) (RoundTrip-string r msg rest vm)
      ∙ no_reply c (reported_error i p msg) rest

  no_bytes : (o : Option (Bytes × Bytes)) → reader 1 [] ≡ o → o ≡ none
  no_bytes none h = refl
  no_bytes (some (bs, rest)) h =
      let (len, split) = r.sound 1 [] bs rest h in
      absurd (omega (arith, len, ap length split, length-append bs rest))

  -- At the end of the stream the connection is closed.
  round-end :
      (thrown : Bytes → Thrown) (can_write : ℕ → Bool) (id : ℕ) (c : Connection)
      → thrown [] ≡ eof
      → c.unread ≡ []
      → round reader thrown can_write id c
        ≡ closed (record {
          unread = [];
          replies = c.replies;
          printed = c.printed ++ disconnected id ∷ [];
        })
  unfolding round request_serde caught
  round-end thrown can_write id c ended e =
      let at_end : reader 1 [] ≡ none = no_bytes (reader 1 []) refl in
      await-none reader thrown can_write id request_serde c (handle reader thrown can_write id)
        (ap (request_serde.deserialize reader) e ∙ rw at_end)
      ∙ ap
          (λ u. closed (record {
            unread = u;
            replies = c.replies;
            printed = c.printed ++ caught id (thrown u) ∷ [];
          }))
          e
      ∙ ap
          (λ t.
            closed (record {
              unread = [];
              replies = c.replies;
              printed = c.printed ++ caught id t ∷ [];
            }))
          ended

  -- The loop handles every message in turn.
  pub serve-messages :
      (thrown : Bytes → Thrown) (can_write : ℕ → Bool) (id fuel : ℕ) (ms : List Message)
      (c : Connection)
      → thrown [] ≡ eof
      → ((n : ℕ) → can_write n ≡ true)
      → All (ValidMessage P) ms
      → length ms < fuel
      → c.unread ≡ all_bytes ms
      → serve reader thrown can_write id fuel c
        ≡ some (record {
          unread = [];
          replies = c.replies ++ all_replies id ms;
          printed = c.printed ++ (all_events id ms ++ disconnected id ∷ []);
        })
  unfolding serve all_bytes all_replies all_events
  serve-messages thrown can_write id zero ms c ended w v few e = absurd (omega arith)
  serve-messages thrown can_write id (suc fuel) [] c ended w v few e =
      ap (go_on (serve reader thrown can_write id fuel)) (round-end thrown can_write id c ended e)
      ∙ rw append-nil
  serve-messages thrown can_write id (suc fuel) (m ∷ ms) c ended w (v, vs) few e =
      ap (go_on (serve reader thrown can_write id fuel))
        (round-message thrown can_write id c m (all_bytes ms) w v e)
      ∙ serve-messages thrown can_write id fuel ms (after id c m (all_bytes ms)) ended w vs
          (omega arith) refl
      ∙ ap₂ (λ rs ps. some (record { unread = []; replies = rs; printed = ps }))
          (append_assoc c.replies (replies_to id m) (all_replies id ms))
          (append_assoc c.printed (event_of id m ∷ []) (all_events id ms ++ disconnected id ∷ []))

-- A client that is accepted, sends any valid requests and then closes the pipe, where no write
-- fails: accept ends, having replied to each message in turn, printed each, a command as its
-- executable and arguments with a blank before each, and at last the disconnection without an error.
-- For every reader that delivers the bytes, at the lengths that the messages have, and throws UV_EOF
-- at the end; over the pipe that excludes messages with empty strings.
pub accept-messages :
    {reader : Reader} {P : ℕ → Type 0}
    → IsReader reader P
    → (thrown : Bytes → Thrown) (can_write : ℕ → Bool) (id : ℕ) (ms : List Message)
    → thrown [] ≡ eof
    → ((n : ℕ) → can_write n ≡ true)
    → All (ValidMessage P) ms
    → accept reader thrown can_write id true (all_bytes ms)
      ≡ some (record {
        unread = [];
        replies = all_replies id ms;
        printed = all_events id ms ++ disconnected id ∷ [];
      })
unfolding accept
accept-messages r thrown can_write id ms ended w v =
    serve-messages r thrown can_write id (suc (length (all_bytes ms))) ms
      (record { unread = all_bytes ms; replies = []; printed = [] }) ended w v
      (omega (arith, length-all_bytes ms)) refl
