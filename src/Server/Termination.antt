-- ===== src/Server/Termination.antt =====
-- catter/main.cc: theorems about the end of the loop of `accept`.
use catter.Prelude.{ℕ, ◌≤◌, ◌<◌, ◌≡◌, some, Bytes, length}
use catter.Serde.{Serde, Stream}
use catter.Server.{Round, next, closed}

-- A reading function that only drops bytes.
abbrev Shrinks : {A : Type 0} → Stream A → Type 0
Shrinks {A} f = (s : Bytes) (a : A) (t : Bytes) → f s ≡ some (a, t) → length t ≤ length s

-- A round that goes on leaves less than n bytes.
abbrev Within : ℕ → Round → Type 0
Within n (next c) = length c.unread < n
Within n (closed c) = Unit
