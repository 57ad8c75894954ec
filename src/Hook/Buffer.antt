-- ===== src/Hook/Buffer.antt =====
-- payload/array.h and payload/buffer.{h,cc}. Memory is a function from addresses to bytes, and a
-- pointer an address (`none` for nullptr). A C string argument is the list of its bytes before the
-- terminating 0, which the functions write too.
pub mod Image
pub mod Store
use catter.Prelude.{
  ℕ, zero, suc, ◌+◌, ◌≡◌, Option, none, some, Bool, true, false, [], ◌∷◌, ◌++◌, ◌==◌, if◌then◌else◌,
  Bytes,
}

abbrev pub Memory : Type 0
Memory = ℕ → ℕ

abbrev pub write : Memory → ℕ → ℕ → Memory
write m a v = λ j. if j == a then v else m j

-- array::copy of `src` to [it, last): the memory, and the end of the copy or nullptr.
unfoldable pub copy : Memory → Bytes → ℕ → ℕ → Memory × Option ℕ
copy m [] it last = (m, some it)
copy m (c ∷ src) it last =
    let rest = copy (write m it c) src (it + 1) last in if it == last then (m, none) else rest

-- class Buffer: `top_` and `end_`, with the memory that they point into.
pub record Buffer : Type 0 where
  pub memory : Memory
  pub top : ℕ
  pub last : ℕ

-- `if(top != nullptr) std::swap(top_, top)`: the new buffer and what `top` then is.
unfoldable pub swap_top : Buffer → Memory × Option ℕ → Buffer × Option ℕ
swap_top b (m, none) = (record b { memory = m }, none)
swap_top b (m, some top) = (record b { memory = m; top = top }, some b.top)

-- Buffer::store, which returns the address of the copy.
unfoldable pub store : Buffer → Option Bytes → Buffer × Option ℕ
store b none = (b, none)
store b (some input) = swap_top b (copy b.memory (input ++ 0 ∷ []) b.top b.last)

abbrev pub is_some : {A : Type 0} → Option A → Bool
is_some none = false
is_some (some a) = true

-- Buffer::push, with no terminating 0.
unfoldable pub push : Buffer → Option Bytes → Buffer × Bool
push b none = (b, false)
push b (some input) =
    let (b', top) = swap_top b (copy b.memory input b.top b.last) in (b', is_some top)
