-- ===== src/Serde/Readers.antt =====
-- The readers that `deserialize` is given: `memory_reader`, a vector in memory read by `memcpy`,
-- and `uv_reader`, the one of rpc_handler.h and main.cc, which awaits `Read` of
-- src/common/uv/uv.h. libuv is a parameter: asked for at most `len` bytes of a stream it calls
-- `read_cb` with what it got. Pending bytes come in chunks of a size that libuv chooses.
pub mod Exact
use catter.Prelude.{
  ℕ, zero, suc, ◌+◌, ◌-◌, ◌≤◌, ◌<◌, ◌≡◌, ◌⊎◌, Option, none, some, Bool, true, false, [], ◌∷◌, ◌++◌,
  leb, ◌==◌, if◌then◌else◌, Bytes, length, take, drop,
}
use catter.Serde.{Reader}

unfoldable pub memory_reader : Reader
memory_reader n s = if leb n (length s) then some (take n s, drop n s) else none

pub data UvError : Type 0 where
  eof enobufs : UvError
  other : ℕ → UvError

-- `nread` of `read_cb`, with the bytes that libuv has put into the buffer.
pub data Nread : Type 0 where
  got : Bytes → Nread
  no_bytes : Nread
  error : UvError → Nread

-- The ssize_t that `co_await read(...)` returns; a negative one is an error.
pub data Ssize : Type 0 where
  count : ℕ → Ssize
  failure : UvError → Ssize

-- class Read: what `dst` has received, `remaining`, and `get_result()`.
pub record Read : Type 0 where
  pub dst : Bytes
  pub remaining : ℕ
  pub result : Ssize

abbrev pub start : ℕ → Read
start len = record { dst = []; remaining = len; result = count 0 }

abbrev pub add_result : Ssize → ℕ → Ssize
add_result (count n) k = count (n + k)
add_result (failure e) k = failure e

-- The new state, and whether the callback stops the read and resumes the coroutine.
read_cb : Read → Nread → Read × Bool
read_cb r (got bytes) =
    let left = r.remaining - length bytes in
    (
      record {
        dst = r.dst ++ bytes;
        remaining = left;
        result = add_result r.result (length bytes);
      },
      left == 0,
    )
read_cb r no_bytes = (record r { result = count 0 }, true)
read_cb r (error e) = (record r { result = failure e }, true)

abbrev pub Libuv : Type 0
Libuv = ℕ → Bytes → Nread × Bytes

-- libuv's contract for uv_read_start: with no buffer space it reports UV_ENOBUFS, with nothing
-- left on a closed stream UV_EOF, and else it hands over some of the pending bytes. At any time it
-- may call back with nread = 0, which is no error and no end of the stream and takes nothing.
pub record IsLibuv (libuv : Libuv) : Type 0 where
  pub no_space : (s : Bytes) → libuv 0 s ≡ (error enobufs, s)
  pub at_end :
      (len : ℕ) → 0 < len → (libuv len [] ≡ (error eof, [])) ⊎ (libuv len [] ≡ (no_bytes, []))
  pub pending :
      (len b : ℕ) (s : Bytes)
      → 0 < len
      → ((c t : Bytes) × (libuv len (b ∷ s) ≡ (got c, t))
          × (0 < length c)
          × (length c ≤ len)
          × (b ∷ s ≡ c ++ t))
        ⊎ (libuv len (b ∷ s) ≡ (no_bytes, b ∷ s))

-- A libuv that makes no callback with nread = 0.
pub record IsSteady (libuv : Libuv) : Type 0 where
  pub contract : IsLibuv libuv
  pub never_empty : (len : ℕ) (s t : Bytes) → ¬ (libuv len s ≡ (no_bytes, t))

after_callback :
    (Read → Bytes → Option (Read × Bytes)) → Read → Nread × Bytes → Option (Read × Bytes)
after_callback wait r (nread, s) =
    let (r', resumed) = read_cb r nread in elim resumed [ true ↦ some (r', s) | false ↦ wait r' s ]

-- `if(ret < 0) throw`, with what the buffer and the stream then hold.
abbrev pub checked : Ssize → Bytes → Bytes → Option (Bytes × Bytes)
checked (count n) dst s = some (dst, s)
checked (failure e) dst s = none

abbrev pub throw_if_failed : Option (Read × Bytes) → Option (Bytes × Bytes)
throw_if_failed none = none
throw_if_failed (some (r, s)) = checked r.result r.dst s

module _ (libuv : Libuv) where
  -- The callbacks of one `Read` until the coroutine is resumed.
  run : ℕ → Read → Bytes → Option (Read × Bytes)
  run zero r s = none
  run (suc fuel) r s = after_callback (run fuel) r (libuv r.remaining s)

  -- Every callback takes a byte or ends the read, so `suc len` callbacks are enough.
  unfoldable pub uv_reader : Reader
  unfolding run after_callback read_cb
  uv_reader len s = throw_if_failed (run (suc len) (start len) s)
