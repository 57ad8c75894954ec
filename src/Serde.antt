-- ===== src/Serde.antt =====
-- src/common/util/serde.h: the wire format, as a record of the two functions of `Serde<T>`.
-- A `Reader` is the invocable that `deserialize` takes, `reader(dst, len)`: it fills `len` bytes
-- from the stream, or throws (`none`). Integers are copied byte by byte, lowest byte first (the
-- little-endian hosts that the program is built for); a signed integer is its bit pattern.
pub mod Bits
pub mod Codec
pub mod Readers
use catter.Prelude.{
  ℕ, zero, suc, ◌+◌, ◌*◌, ◌/◌, ◌%◌, ◌≡◌, Option, none, some, List, [], ◌∷◌, ◌++◌, Bytes, length,
}

-- What a reading function does to the stream: a value and the bytes left, or an exception.
abbrev pub Stream : Type 0 → Type 0
Stream A = Bytes → Option (A × Bytes)

abbrev pub proceed : {A B : Type 0} → Option (A × Bytes) → (A → Stream B) → Option (B × Bytes)
proceed none f = none
proceed (some (a, s)) f = f a s

infixl 5 ◌>>=◌
abbrev pub ◌>>=◌ : {A B : Type 0} → Stream A → (A → Stream B) → Stream B
◌>>=◌ m f s = proceed (m s) f

abbrev pub pure : {A : Type 0} → A → Stream A
pure a s = some (a, s)

abbrev pub Reader : Type 0
Reader = ℕ → Stream Bytes

-- template <typename T> struct Serde
pub record Serde (A : Type 0) : Type 0 where
  pub serialize : A → Bytes
  pub deserialize : Reader → Stream A

-- `std::memcpy` of an integer of `w` bytes, out and in.
unfoldable pub to_le : ℕ → ℕ → Bytes
to_le zero n = []
to_le (suc w) n = (n % 256) ∷ to_le w (n / 256)

unfoldable pub from_le : Bytes → ℕ
from_le [] = 0
from_le (b ∷ bs) = b + 256 * from_le bs

-- Serde<T> for integral T with sizeof(T) = w.
abbrev pub int_serde : ℕ → Serde ℕ
int_serde w = record {
  serialize = to_le w;
  deserialize = λ reader. (reader w >>= λ bs. pure (from_le bs));
}

-- sizeof(size_t)
abbrev pub size_bytes : ℕ
size_bytes = 8

-- Serde<std::string>
abbrev pub string_serde : Serde Bytes
string_serde = record {
  serialize = λ str. to_le size_bytes (length str) ++ str;
  deserialize = λ reader. ((int_serde size_bytes).deserialize reader >>= λ len. reader len);
}

-- The loop of Serde<std::vector<T>>::serialize.
unfoldable pub write_items : {A : Type 0} → (A → Bytes) → List A → Bytes
write_items f [] = []
write_items f (x ∷ xs) = f x ++ write_items f xs

-- The loop of Serde<std::vector<T>>::deserialize, `count` rounds.
unfoldable pub read_items : {A : Type 0} → ℕ → Stream A → Stream (List A)
read_items zero item = pure []
read_items (suc count) item = item >>= λ x. (read_items count item >>= λ xs. pure (x ∷ xs))

-- Serde<std::vector<T>>
abbrev pub vector_serde : {A : Type 0} → Serde A → Serde (List A)
vector_serde s = record {
  serialize = λ vec. to_le size_bytes (length vec) ++ write_items s.serialize vec;
  deserialize = λ reader.
      ((int_serde size_bytes).deserialize reader >>= λ len. read_items len (s.deserialize reader));
}
