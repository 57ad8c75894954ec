-- ===== src/Serde/Readers/Exact.antt =====
-- common/uv/uv.h: theorems about the two readers.
use mathlib.Core.Bool.{false≢true}
use catter.Prelude.{
  ℕ, zero, suc, ◌+◌, ◌-◌, ◌≤◌, ◌<◌, ◌≡◌, refl, sym, ap, ◌∙◌, ◌⊎◌, inl, inr, Option, none, some,
  true, false, [], ◌∷◌, ◌++◌, arith, ◌==◌, Bytes, length, take-append, drop-append,
  take-append-drop, append-split, length-append, length-take, append_assoc, append-nil,
}
use catter.Serde.Codec.{IsReader}
use catter.Serde.Readers.{
  memory_reader, Read, Libuv, IsLibuv, IsSteady, got, no_bytes, error, count, run, after_callback,
  uv_reader, read_cb, add_result, start, checked, throw_if_failed, eof, failure, Ssize,
}

memory_delivers : (bs rest : Bytes) → memory_reader (length bs) (bs ++ rest) ≡ some (bs, rest)
unfolding memory_reader
memory_delivers bs rest =
    ground (arith, length-append bs rest, take-append bs rest, drop-append bs rest)

add_result_twice : (s : Ssize) (a b : ℕ) → add_result (add_result s a) b ≡ add_result s (a + b)
add_result_twice s a b = ground arith

lt_or_le : (a b : ℕ) → (a < b) ⊎ (b ≤ a)
lt_or_le a b = omega arith

steady_at_end :
    {libuv : Libuv} → IsSteady libuv → (len : ℕ) → 0 < len → libuv len [] ≡ (error eof, [])
steady_at_end l len pos = elim (l.contract.at_end len pos) [
  | inl e ↦ e
  | inr empty ↦ absurd (l.never_empty len [] [] empty)
]

abbrev Chunk : Libuv → ℕ → Bytes → Type 0
Chunk libuv len s =
    (c t : Bytes) × (libuv len s ≡ (got c, t)) × (0 < length c) × (length c ≤ len) × (s ≡ c ++ t)

steady_pending :
    {libuv : Libuv} → IsSteady libuv → (len b : ℕ) (s : Bytes) → 0 < len → Chunk libuv len (b ∷ s)
steady_pending l len b s pos = elim (l.contract.pending len b s pos) [
  | inl chunk ↦ chunk
  | inr empty ↦ absurd (l.never_empty len (b ∷ s) (b ∷ s) empty)
]

module _ (libuv : Libuv) where
  run_resumes :
      (fuel : ℕ) (r : Read) (s c t : Bytes)
      → libuv r.remaining s ≡ (got c, t)
      → r.remaining ≡ length c
      → run libuv (suc fuel) r s ≡ some ((read_cb r (got c)).0, t)
  unfolding run after_callback read_cb
  run_resumes fuel r s c t e size =
      let done : (r.remaining - length c == 0) ≡ true = ground arith in
      ap (after_callback (run libuv fuel) r) e ∙ rw (done, after_callback)

  run_waits :
      (fuel : ℕ) (r : Read) (s c t : Bytes)
      → libuv r.remaining s ≡ (got c, t)
      → length c < r.remaining
      → run libuv (suc fuel) r s ≡ run libuv fuel (read_cb r (got c)).0 t
  unfolding run after_callback read_cb
  run_waits fuel r s c t e size =
      let more : (r.remaining - length c == 0) ≡ false = ground arith in
      ap (after_callback (run libuv fuel) r) e ∙ rw (more, after_callback)

  run_stops :
      (fuel : ℕ) (r : Read) (s : Bytes)
      → libuv r.remaining s ≡ (no_bytes, s)
      → run libuv (suc fuel) r s ≡ some (record r { result = count 0 }, s)
  unfolding run after_callback read_cb
  run_stops fuel r s e = ap (after_callback (run libuv fuel) r) e

  -- The read got all of `bs`.
  abbrev Delivered : ℕ → Read → Bytes → Bytes → Type 0
  Delivered fuel r bs rest =
      (r' : Read) × (run libuv fuel r (bs ++ rest) ≡ some (r', rest))
      × (r'.dst ≡ r.dst ++ bs)
      × (r'.result ≡ add_result r.result (length bs))

  -- Somewhere libuv called back without bytes.
  abbrev pub CalledEmpty : Type 0
  CalledEmpty = (len : ℕ) × (s : Bytes) × (libuv len s ≡ (no_bytes, s))

  -- The read ended with `cs`, before `ds`.
  abbrev Short : ℕ → Read → Bytes → Bytes → Type 0
  Short fuel r bs rest =
      (cs ds : Bytes) × (r' : Read) × (run libuv fuel r (bs ++ rest) ≡ some (r', ds ++ rest))
      × (r'.dst ≡ r.dst ++ cs)
      × (r'.result ≡ count 0)
      × (bs ≡ cs ++ ds)
      × (0 < length ds)
      × CalledEmpty

  abbrev Outcome : ℕ → Read → Bytes → Bytes → Type 0
  Outcome fuel r bs rest = Delivered fuel r bs rest ⊎ Short fuel r bs rest

  -- A chunk that is not the last one, before the outcome of what is left.
  outcome_later :
      (fuel : ℕ) (r : Read) (bs rest c t : Bytes) (z : ℕ) (zs : Bytes)
      → libuv r.remaining (bs ++ rest) ≡ (got c, t)
      → length c < r.remaining
      → bs ≡ c ++ z ∷ zs
      → t ≡ z ∷ zs ++ rest
      → Outcome fuel (read_cb r (got c)).0 (z ∷ zs) rest
      → Outcome (suc fuel) r bs rest
  unfolding read_cb
  outcome_later fuel r bs rest c t z zs e less whole left o =
      let sizes : length bs ≡ length c + length (z ∷ zs) =
        ap length whole ∙ length-append c (z ∷ zs) in
      let ran =
        run_waits fuel r (bs ++ rest) c t e less ∙ ap (run libuv fuel (read_cb r (got c)).0) left in
      elim o [
        | inl (r', run, dst, result) ↦ inl (
          r',
          ran ∙ run,
          cc (append_assoc r.dst c (z ∷ zs)),
          ground (arith, add_result_twice r.result (length c) (length (z ∷ zs))),
        )
        | inr (cs, ds, r', run, dst, result, split, more, empty) ↦ inr (
          c ++ cs,
          ds,
          r',
          ran ∙ run,
          cc (append_assoc r.dst c cs),
          result,
          whole ∙ ap (λ u. c ++ u) split ∙ sym (append_assoc c cs ds),
          more,
          empty,
        )
      ]

module _ (libuv : Libuv) (l : IsLibuv libuv) where
  run_reads :
      (fuel : ℕ) (r : Read) (bs rest : Bytes)
      → 0 < length bs
      → r.remaining ≡ length bs
      → length bs ≤ fuel
      → Outcome libuv fuel r bs rest
  unfolding read_cb
  run_reads zero r bs rest pos rem enough = absurd (omega arith)
  run_reads (suc fuel) r [] rest pos rem enough = absurd (omega arith)
  run_reads (suc fuel) r (b ∷ bs) rest pos rem enough =
      elim (l.pending r.remaining b (bs ++ rest) (omega arith)) [
        | inr empty ↦ inr (
          [],
          b ∷ bs,
          record r { result = count 0 },
          run_stops libuv fuel r (b ∷ bs ++ rest) empty,
          sym (append-nil r.dst),
          refl,
          refl,
          omega arith,
          (r.remaining, b ∷ bs ++ rest, empty),
        )
        | inl (c, t, e, some_byte, fits, split) ↦
            let (zs, whole, left) =
              append-split c (b ∷ bs) {us = t} {vs = rest} (sym split) (omega arith) in
            (elim zs
                as (λ zs.
                  b ∷ bs ≡ c ++ zs → t ≡ zs ++ rest → Outcome libuv (suc fuel) r (b ∷ bs) rest) [
                    | [] ↦ λ whole left.
                        let same : b ∷ bs ≡ c = whole ∙ append-nil c in
                        let size : r.remaining ≡ length c = rem ∙ ap length same in
                        inl (
                          (read_cb r (got c)).0,
                          run_resumes libuv fuel r (b ∷ bs ++ rest) c t e size
                              ∙ ap (λ u. some ((read_cb r (got c)).0, u)) left,
                          ap (λ u. r.dst ++ u) (sym same),
                          ap (λ n. add_result r.result n) (sym (ap length same)),
                        )
                    | z ∷ zs ↦ λ whole left.
                        let sizes : length (b ∷ bs) ≡ length c + length (z ∷ zs) =
                          ap length whole ∙ length-append c (z ∷ zs) in
                        outcome_later libuv fuel r (b ∷ bs) rest c t z zs e (omega arith) whole left
                          (run_reads fuel (read_cb r (got c)).0 (z ∷ zs) rest (omega arith)
                            (omega arith) (omega arith))
                  ])
              whole left
      ]

module _ (libuv : Libuv) (l : IsSteady libuv) where
  run_fails :
      (fuel : ℕ) (r : Read)
      → 0 < r.remaining
      → run libuv (suc fuel) r [] ≡ some (record r { result = failure eof }, [])
  unfolding run after_callback read_cb
  run_fails fuel r pos = ap (after_callback (run libuv fuel) r) (steady_at_end l r.remaining pos)

  -- Whatever the read returns was taken off the front of the stream.
  run_sound :
      (fuel : ℕ) (r : Read) (s : Bytes) (r' : Read) (rest : Bytes) (n : ℕ)
      → 0 < r.remaining
      → run libuv fuel r s ≡ some (r', rest)
      → r'.result ≡ count n
      → (bs : Bytes) × (length bs ≡ r.remaining) × (s ≡ bs ++ rest) × (r'.dst ≡ r.dst ++ bs)
  unfolding read_cb
  run_sound zero r s r' rest n pos h ok = absurd (unfold run in (cc))
  run_sound (suc fuel) r [] r' rest n pos h ok =
      let back : ◌≡◌ {A = Option (Read × Bytes)} (some (record r { result = failure eof }, []))
          (some (r', rest)) =
        sym (run_fails fuel r pos) ∙ h in
      absurd (cc)
  run_sound (suc fuel) r (b ∷ s) r' rest n pos h ok =
      let (c, t, e, some_byte, fits, split) = steady_pending l r.remaining b s pos in
      elim (lt_or_le (length c) r.remaining) [
        | inl less ↦
            let (bs, size, more, dst) =
              run_sound fuel (read_cb r (got c)).0 t r' rest n (omega arith)
                (sym (run_waits libuv fuel r (b ∷ s) c t e less) ∙ h) ok in
            (
              c ++ bs,
              omega (arith, length-append c bs),
              cc (append_assoc c bs rest),
              cc (append_assoc r.dst c bs),
            )
        | inr full ↦
            let size : r.remaining ≡ length c = omega arith in
            let back : ◌≡◌ {A = Option (Read × Bytes)} (some ((read_cb r (got c)).0, t))
                (some (r', rest)) =
              sym (run_resumes libuv fuel r (b ∷ s) c t e size) ∙ h in
            (c, sym size, cc, cc)
      ]

memory_sound :
    (n : ℕ) (s bs rest : Bytes)
    → memory_reader n s ≡ some (bs, rest)
    → (length bs ≡ n) × (s ≡ bs ++ rest)
unfolding memory_reader
memory_sound n s bs rest h = ground (arith, length-take n s, take-append-drop n s)

-- A vector in memory is read exactly, at every length.
pub memory_reader-IsReader : IsReader memory_reader (λ n. Unit {0})
memory_reader-IsReader = record {
  positive = λ n h. tt;
  delivers = λ bs rest h. memory_delivers bs rest;
  sound = memory_sound;
}

checked-inv :
    (z : Ssize) {d s bs rest : Bytes}
    → checked z d s ≡ some (bs, rest)
    → (n : ℕ) × (z ≡ count n) × (d ≡ bs) × (s ≡ rest)
checked-inv (count n) h = (n, refl, cc, cc)
checked-inv (failure e) h = absurd (false≢true (cc))

throw_if_failed-inv :
    (o : Option (Read × Bytes)) {bs rest : Bytes}
    → throw_if_failed o ≡ some (bs, rest)
    → (r : Read) × (n : ℕ) × (o ≡ some (r, rest)) × (r.result ≡ count n) × (r.dst ≡ bs)
throw_if_failed-inv none h = absurd (false≢true (cc))
throw_if_failed-inv (some (r, s)) h =
    let (n, ok, dst, left) = checked-inv r.result h in (r, n, cc, ok, dst)

module _ (libuv : Libuv) (l : IsLibuv libuv) where
  -- A read of at least one byte from a stream that holds them gives exactly these bytes and leaves what
  -- is behind them, in however many chunks libuv delivers them, unless libuv called back without
  -- bytes: then the read may also end, with no error, with fewer bytes than it was asked for, and
  -- leave the others on the stream.
  pub uv_reads :
      (bs rest : Bytes)
      → 0 < length bs
      → (uv_reader libuv (length bs) (bs ++ rest) ≡ some (bs, rest))
        ⊎ ((cs ds : Bytes) × (uv_reader libuv (length bs) (bs ++ rest) ≡ some (cs, ds ++ rest))
            × (bs ≡ cs ++ ds)
            × (0 < length ds)
            × CalledEmpty libuv)
  unfolding uv_reader
  uv_reads bs rest pos =
      elim (run_reads libuv l (suc (length bs)) (start (length bs)) bs rest pos refl
        (omega arith)) [
          | inl (r, ran, dst, result) ↦ inl (
              ap throw_if_failed ran
              ∙ ap (λ z. checked z r.dst rest) result
              ∙ ap (λ d. some (d, rest)) dst)
          | inr (cs, ds, r, ran, dst, result, split, more, empty) ↦ inr (
            cs,
            ds,
            ap throw_if_failed ran
                ∙ ap (λ z. checked z r.dst (ds ++ rest)) result
                ∙ ap (λ d. some (d, ds ++ rest)) dst,
            split,
            more,
            empty,
          )
        ]

  -- Over a libuv that keeps its contract a read of no bytes fails, whatever the stream holds.
  pub uv_reader-zero : (s : Bytes) → uv_reader libuv 0 s ≡ none
  unfolding uv_reader
  uv_reader-zero s =
      ap (λ p. throw_if_failed (after_callback (run libuv 0) (start 0) p)) (l.no_space s)

module _ (libuv : Libuv) (l : IsSteady libuv) where
  uv_delivers :
      (bs rest : Bytes) → 0 < length bs → uv_reader libuv (length bs) (bs ++ rest) ≡ some (bs, rest)
  uv_delivers bs rest pos = elim (uv_reads libuv l.contract bs rest pos) [
    | inl e ↦ e
    | inr (cs, ds, e, split, more, (len, s, empty)) ↦ absurd (l.never_empty len s s empty)
  ]

  -- What the awaiter returns without an error is the next `n` bytes of the stream.
  pub uv_sound :
      (n : ℕ) (s bs rest : Bytes)
      → uv_reader libuv n s ≡ some (bs, rest)
      → (length bs ≡ n) × (s ≡ bs ++ rest)
  uv_sound zero s bs rest h = absurd (false≢true (cc (uv_reader-zero libuv l.contract s)))
  uv_sound (suc n) s bs rest h =
      let (r, k, ran, ok, dst) =
        throw_if_failed-inv (run libuv (suc (suc n)) (start (suc n)) s) {bs = bs} {rest = rest}
          (unfold uv_reader in h) in
      let (all, size, split, whole) =
        run_sound libuv l (suc (suc n)) (start (suc n)) s r rest k (omega arith) ran ok in
      let same : all ≡ bs = sym whole ∙ dst in
      (ap length (sym same) ∙ size, split ∙ ap (λ b. b ++ rest) same)

  -- Where libuv makes no callback without bytes, the reader meets the contract of the wire format, at
  -- every length but 0.
  pub uv_reader-IsReader : IsReader (uv_reader libuv) (λ n. 0 < n)
  uv_reader-IsReader = record { positive = λ n h. h; delivers = uv_delivers; sound = uv_sound }
