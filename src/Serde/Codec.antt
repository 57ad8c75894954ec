-- ===== src/Serde/Codec.antt =====
-- common/util/serde.h: the contracts of a reader and of a `Serde`, and theorems about each template.
use mathlib.Core.Path.{subst}
use catter.Prelude.{
  ℕ, zero, suc, ◌^◌, ◌<◌, ◌≡◌, refl, Option, none, some, List, [], ◌∷◌, ◌++◌, append_assoc, arith,
  Bytes, IsByte, All, length, All-append_left, All-append_right,
}
use catter.Serde.{
  Stream, proceed, pure, Reader, Serde, to_le, from_le, int_serde, size_bytes, string_serde,
  write_items, read_items, vector_serde,
}
use catter.Serde.Bits.{length-to_le, from_le-to_le, to_le-from_le}

-- A reader that hands over the next `n` bytes of the stream for every length in `P`, and that
-- returns only bytes of the stream.
pub record IsReader (reader : Reader) (P : ℕ → Type 0) : Type 0 where
  pub positive : (n : ℕ) → 0 < n → P n
  pub delivers :
      (bs rest : Bytes) → P (length bs) → reader (length bs) (bs ++ rest) ≡ some (bs, rest)
  pub sound :
      (n : ℕ) (s bs rest : Bytes)
      → reader n s ≡ some (bs, rest)
      → (length bs ≡ n) × (s ≡ bs ++ rest)

pub proceed-eq-some :
    {A B : Type 0} (o : Option (A × Bytes)) (f : A → Stream B) {r : B × Bytes}
    → proceed o f ≡ some r
    → (a : A) × (t : Bytes) × (o ≡ some (a, t)) × (f a t ≡ some r)
proceed-eq-some none f h = cc
proceed-eq-some (some (a, t)) f h = (a, t, refl, h)

-- `deserialize` after `serialize` gives the value back and leaves what follows it.
abbrev pub RoundTrip : {A : Type 0} → Reader → (A → Type 0) → Serde A → Type 0
RoundTrip {A} reader Valid s =
    (a : A) (rest : Bytes) → Valid a → s.deserialize reader (s.serialize a ++ rest) ≡ some (a, rest)

-- What `deserialize` consumes is the serialization of what it returns.
abbrev pub Faithful : {A : Type 0} → Reader → Serde A → Type 0
Faithful {A} reader s =
    (bytes : Bytes) (a : A) (rest : Bytes)
    → All IsByte bytes
    → s.deserialize reader bytes ≡ some (a, rest)
    → bytes ≡ s.serialize a ++ rest

-- The step of a proof of `Faithful`: the bytes of one value, and that what follows is bytes.
pub peel :
    {A : Type 0} (reader : Reader) (s : Serde A)
    → Faithful reader s
    → (bytes : Bytes) (a : A) (t : Bytes) → All IsByte bytes
    → s.deserialize reader bytes ≡ some (a, t)
    → (bytes ≡ s.serialize a ++ t) × All IsByte t
peel reader s f bytes a t bs h =
    let first : bytes ≡ s.serialize a ++ t = f bytes a t bs h in
    (first, All-append_right IsByte (s.serialize a) t (subst (All IsByte) first bs))

-- A size fits in size_t.
abbrev pub FitsSize : {A : Type 0} → List A → Type 0
FitsSize xs = length xs < 256 ^ size_bytes

module _ {reader : Reader} {P : ℕ → Type 0} (r : IsReader reader P) where
  pub RoundTrip-int : (w : ℕ) → 0 < w → RoundTrip reader (λ n. n < 256 ^ w) (int_serde w)
  RoundTrip-int w pos n rest h =
      let len : length (to_le w n) ≡ w = length-to_le w n in
      let got : reader w (to_le w n ++ rest) ≡ some (to_le w n, rest) =
        subst (λ k. reader k (to_le w n ++ rest) ≡ some (to_le w n, rest)) len
          (r.delivers (to_le w n) rest (r.positive _ (omega arith))) in
      rw (got, from_le-to_le w n h)

  pub Faithful-int : (w : ℕ) → Faithful reader (int_serde w)
  Faithful-int w bytes n rest bs h =
      let (got, t, e, f) = proceed-eq-some (reader w bytes) (λ bs'. pure (from_le bs')) h in
      let (len, split) = r.sound w bytes got t e in
      let all : All IsByte got = All-append_left IsByte got t (subst (All IsByte) split bs) in
      cc (to_le-from_le got all)

  pub RoundTrip-string : RoundTrip reader (λ str. FitsSize str × P (length str)) string_serde
  RoundTrip-string str rest (fits, ok) = rw append_assoc (
      rw (RoundTrip-int size_bytes (omega arith) (length str) (str ++ rest) fits)
        (r.delivers str rest ok))

  pub Faithful-string : Faithful reader string_serde
  Faithful-string bytes str rest bs h =
      let (n, t, e, f) =
        proceed-eq-some ((int_serde size_bytes).deserialize reader bytes) (λ len. reader len) h in
      let (len, split) = r.sound n t str rest f in
      cc (Faithful-int size_bytes bytes n t bs e, append_assoc (to_le size_bytes n) str rest)

  module _ {A : Type 0} (s : Serde A) where
    items-RoundTrip :
        (Valid : A → Type 0)
        → RoundTrip reader Valid s
        → (vec : List A) (rest : Bytes) → All Valid vec
        → read_items (length vec) (s.deserialize reader) (write_items s.serialize vec ++ rest)
          ≡ some (vec, rest)
    unfolding read_items write_items
    items-RoundTrip Valid item [] rest h = refl
    items-RoundTrip Valid item (x ∷ xs) rest h = rw append_assoc (
        rw (item x (write_items s.serialize xs ++ rest) h.0)
          (rw (items-RoundTrip Valid item xs rest h.1)))

    pub RoundTrip-vector :
        (Valid : A → Type 0)
        → RoundTrip reader Valid s
        → RoundTrip reader (λ vec. FitsSize vec × All Valid vec) (vector_serde s)
    RoundTrip-vector Valid item vec rest (fits, h) = rw append_assoc (
        rw
          (RoundTrip-int size_bytes (omega arith) (length vec) (write_items s.serialize vec ++ rest)
            fits)
          (items-RoundTrip Valid item vec rest h))

    items-Faithful :
        Faithful reader s
        → (count : ℕ) (bytes : Bytes) (vec : List A) (rest : Bytes) → All IsByte bytes
        → read_items count (s.deserialize reader) bytes ≡ some (vec, rest)
        → (length vec ≡ count) × (bytes ≡ write_items s.serialize vec ++ rest)
    unfolding read_items write_items
    items-Faithful item zero bytes vec rest bs h = ground arith
    items-Faithful item (suc count) bytes vec rest bs h =
        let (x, t, e, f) = proceed-eq-some (s.deserialize reader bytes) _ h in
        let (xs, t', e', f') = proceed-eq-some (read_items count (s.deserialize reader) t) _ f in
        let first : bytes ≡ s.serialize x ++ t = item bytes x t bs e in
        let more : All IsByte t =
          All-append_right IsByte (s.serialize x) t (subst (All IsByte) first bs) in
        ground (
          arith,
          items-Faithful item count t xs t' more e',
          append_assoc (s.serialize x) (write_items s.serialize xs) t',
        )

    pub Faithful-vector : Faithful reader s → Faithful reader (vector_serde s)
    Faithful-vector item bytes vec rest bs h =
        let (n, t, e, f) = proceed-eq-some ((int_serde size_bytes).deserialize reader bytes) _ h in
        let size : bytes ≡ to_le size_bytes n ++ t = Faithful-int size_bytes bytes n t bs e in
        let more : All IsByte t =
          All-append_right IsByte (to_le size_bytes n) t (subst (All IsByte) size bs) in
        let (len, items) = items-Faithful item n t vec rest more f in
        cc (append_assoc (to_le size_bytes n) (write_items s.serialize vec) rest)
