-- ===== src/Core/Files/Closed.antt =====
-- catter/core/capi/io.cc: theorems about the ids of the open files.
use catter.Prelude.{
  ℕ, suc, ◌+◌, ◌%◌, ◌^◌, ◌≤◌, ◌<◌, ◌≡◌, ◌≢◌, refl, ap, ◌∙◌, sym, Option, none, some, List, [], ◌∷◌,
  ◌++◌, ◌==◌, Bytes, length, take, arith, Bool-cases, inl, inr, codes, ltb, Option-cases,
}
use native.Mathlib.Decide.{dec_lt}
use catter.Decimal.{digits}
use catter.Core.Files.{
  Files, Fstream, Call, Result, threw, undefined, of_outcome, of_read, of_write, Outcome,
  ArrayBuffer, other, detached, buffer, Direction, find, erase, put, emplaced, key, invalid_id,
  update, with_direction, with_data, opened, file_open, found, on_file, file_close, moved, told,
  was_read, was_written, call, after_calls, file_seek_read, file_seek_write, file_tell_read,
  file_tell_write, file_read_n, file_write_n, open_call, close_call, seek_read_call,
  seek_write_call, tell_read_call, tell_write_call, read_call, write_call,
}

-- A script as it begins: no file is open, and the first id is 1.
abbrev pub initial : {World Stream : Type 0} → World → Files World Stream
initial world = record { world = world; file_id_cnt = 1; open_files = [] }

-- The id that a call is given.
abbrev pub used_id : Call → Option ℕ
used_id (open_call path) = none
used_id (close_call file_id) = some file_id
used_id (seek_read_call file_id offset whence) = some file_id
used_id (seek_write_call file_id offset whence) = some file_id
used_id (tell_read_call file_id) = some file_id
used_id (tell_write_call file_id) = some file_id
used_id (read_call file_id buf_size array_buffer) = some file_id
used_id (write_call file_id buf_size array_buffer) = some file_id

module _ {Stream : Type 0} where
  find-put :
      (files : List (ℕ × Stream)) (j k : ℕ) (s : Stream)
      → find files k ≡ none
      → find (put files j s) k ≡ none
  unfolding find put
  find-put [] j k s h = refl
  find-put ((i, t) ∷ files) j k s h = ground (arith, find-put files j k s)

  find-erase :
      (files : List (ℕ × Stream)) (j k : ℕ) → find files k ≡ none → find (erase files j) k ≡ none
  unfolding find erase
  find-erase [] j k h = refl
  find-erase ((i, t) ∷ files) j k h = ground (arith, find-erase files j k)

  find-erase_same : (files : List (ℕ × Stream)) (k : ℕ) → find (erase files k) k ≡ none
  unfolding find erase
  find-erase_same [] k = refl
  find-erase_same ((i, t) ∷ files) k = ground (arith, find-erase_same files k)

  find-emplaced :
      (files : List (ℕ × Stream)) (j k : ℕ) (s : Stream) (old : Option Stream)
      → find files k ≡ none
      → j ≢ k
      → find (emplaced files j s old) k ≡ none
  unfolding find
  find-emplaced files j k s none h other_key = ground arith
  find-emplaced files j k s (some old) h other_key = h

module _ {World Stream : Type 0} where
  -- What no call does: an id that is not open becomes open only if it is the next one.
  abbrev Steps : Files World Stream → Result × Files World Stream → Type 0
  Steps f r =
      ((k : ℕ)
        → find f.open_files k ≡ none
        → (f.file_id_cnt ≡ k → (r.1).file_id_cnt ≡ f.file_id_cnt)
        → find (r.1).open_files k ≡ none)
      × (f.file_id_cnt ≤ (r.1).file_id_cnt)
      × ((r.1).file_id_cnt ≤ suc f.file_id_cnt)

  Steps-same : (f : Files World Stream) (result : Result) → Steps f (result, f)
  Steps-same f result = ((λ k h next. h), omega arith, omega arith)

  Steps-update :
      (f : Files World Stream) (file_id : ℕ) (result : Result) (world : World) (s : Stream)
      → Steps f (result, update f file_id world s)
  Steps-update f file_id result world s =
      ((λ k h next. find-put f.open_files (key file_id) k s h), omega arith, omega arith)

  with_direction-Steps :
      (whence : ℕ) (f : Files World Stream) (go : Direction → Result × Files World Stream)
      → ((dir : Direction) → Steps f (go dir))
      → Steps f (with_direction whence f go)
  with_direction-Steps whence f go h = elim (Bool-cases (whence == 0)) [
    | inl at_beg ↦ rw (at_beg) (h Direction.beg)
    | inr no_zero ↦ elim (Bool-cases (whence == 1)) [
      | inl one ↦ rw (no_zero, one) (h Direction.cur)
      | inr no_one ↦ elim (Bool-cases (whence == 2)) [
        | inl two ↦ rw (no_zero, no_one, two) (h Direction.end)
        | inr no_two ↦
            rw (no_zero, no_one, no_two)
              (Steps-same f (threw (codes "Invalid whence: " ++ digits 10 whence)))
      ]
    ]
  ]

  with_data-Steps :
      (array_buffer : ArrayBuffer) (buf_size : ℕ) (too_small : Bytes) (f : Files World Stream)
      (go : Bytes → Result × Files World Stream)
      → ((bytes : Bytes) → Steps f (go bytes))
      → Steps f (with_data array_buffer buf_size too_small f go)
  with_data-Steps other buf_size too_small f go h =
      Steps-same f (threw (codes "Third argument must be an ArrayBuffer"))
  with_data-Steps detached buf_size too_small f go h = Steps-same f (threw too_small)
  with_data-Steps (buffer bytes) buf_size too_small f go h =
      elim (Bool-cases (ltb (length bytes) buf_size)) [
        | inl small ↦ rw (small) (Steps-same f (threw too_small))
        | inr enough ↦ rw (enough) (h bytes)
      ]

  module _ (io : Fstream World Stream) where
    found-Steps :
        (file_id : ℕ) (f : Files World Stream) (s : Option Stream)
        (go : Stream → Result × Files World Stream)
        → ((s' : Stream) → Steps f (go s'))
        → Steps f (found io file_id f s go)
    found-Steps file_id f none go h = Steps-same f (threw (invalid_id file_id))
    found-Steps file_id f (some s) go h = h s

    opened_next : {n : ℕ} → (n + 1) % 2 ^ 64 ≡ n → ⊥
    opened_next e = omega (arith, e)

    opened-Steps :
        (f : Files World Stream) (path : Bytes) (r : World × Option Stream)
        → f.file_id_cnt < 2 ^ 32
        → Steps f (opened io f path r)
    opened-Steps f path (world, none) few = ((λ k h next. h), omega arith, omega arith)
    opened-Steps f path (world, some s) few = (
      (λ k h next.
          find-emplaced f.open_files (key f.file_id_cnt) k s (find f.open_files (key f.file_id_cnt))
            h (λ same. opened_next (next (omega arith)))),
      omega arith,
      omega arith,
    )

    on_file-Steps :
        (file_id : ℕ) (f : Files World Stream) (go : Stream → Result × Files World Stream)
        → ((s : Stream) → Steps f (go s))
        → Steps f (on_file io file_id f go)
    on_file-Steps file_id f go h = found-Steps file_id f (find f.open_files (key file_id)) go h

    moved-Steps :
        (file_id : ℕ) (f : Files World Stream) (r : World × Stream) → Steps f (moved io file_id f r)
    moved-Steps file_id f (world, s) = Steps-update f file_id undefined world s

    told-Steps :
        (file_id : ℕ) (f : Files World Stream) (r : Outcome ℕ × Stream)
        → Steps f (told io file_id f r)
    told-Steps file_id f (position, s) = Steps-update f file_id (of_outcome position) f.world s

    was_read-Steps :
        (file_id : ℕ) (f : Files World Stream) (r : Outcome Bytes × Stream)
        → Steps f (was_read io file_id f r)
    was_read-Steps file_id f (bytes, s) = Steps-update f file_id (of_read bytes) f.world s

    was_written-Steps :
        (file_id : ℕ) (f : Files World Stream) (r : Outcome (Unit {0}) × (World × Stream))
        → Steps f (was_written io file_id f r)
    was_written-Steps file_id f (done, (world, s)) = Steps-update f file_id (of_write done) world s

    call-Steps :
        (c : Call) (f : Files World Stream) → f.file_id_cnt < 2 ^ 32 → Steps f (call io c f)
    unfolding call file_open file_close file_seek_read file_seek_write file_tell_read
        file_tell_write file_read_n file_write_n
    call-Steps (open_call path) f few =
        opened-Steps f path (io.open_path f.world (io.absolute_of path)) few
    call-Steps (close_call file_id) f few =
        on_file-Steps file_id f _
          (λ s. ((λ k h next. find-erase f.open_files (key file_id) k h), omega arith, omega arith))
    call-Steps (seek_read_call file_id offset whence) f few = on_file-Steps file_id f _ (λ s.
        with_direction-Steps whence f
          (λ dir. moved io file_id f (io.seekg f.world (io.clear s) offset dir))
          (λ dir. moved-Steps file_id f (io.seekg f.world (io.clear s) offset dir)))
    call-Steps (seek_write_call file_id offset whence) f few = on_file-Steps file_id f _ (λ s.
        with_direction-Steps whence f
          (λ dir. moved io file_id f (io.seekp f.world (io.clear s) offset dir))
          (λ dir. moved-Steps file_id f (io.seekp f.world (io.clear s) offset dir)))
    call-Steps (tell_read_call file_id) f few =
        on_file-Steps file_id f _ (λ s. told-Steps file_id f (io.tellg f.world (io.clear s)))
    call-Steps (tell_write_call file_id) f few =
        on_file-Steps file_id f _ (λ s. told-Steps file_id f (io.tellp f.world (io.clear s)))
    call-Steps (read_call file_id buf_size array_buffer) f few = on_file-Steps file_id f _ (λ s.
        with_data-Steps array_buffer buf_size _ f _
          (λ bytes. was_read-Steps file_id f (io.read f.world s buf_size)))
    call-Steps (write_call file_id buf_size array_buffer) f few = on_file-Steps file_id f _ (λ s.
        with_data-Steps array_buffer buf_size _ f _
          (λ bytes. was_written-Steps file_id f (io.write f.world s (take buf_size bytes))))

    -- An id that was handed out and is not open stays so, while the ids are in the range of int.
    after_calls-Absent :
        (calls : List Call) (f : Files World Stream) (k : ℕ)
        → f.file_id_cnt + length calls ≤ 2 ^ 32
        → k < f.file_id_cnt
        → find f.open_files k ≡ none
        → find (after_calls io calls f).open_files k ≡ none
    unfolding after_calls
    after_calls-Absent [] f k few handed absent = absent
    after_calls-Absent (c ∷ calls) f k few handed absent =
        let (stays, up, one) = call-Steps c f (omega arith) in
        after_calls-Absent calls (call io c f).1 k (omega arith) (omega arith)
          (stays k absent (λ same. omega arith))

    -- An id that was not handed out is not open.
    after_calls-Issued :
        (calls : List Call) (f : Files World Stream)
        → f.file_id_cnt + length calls ≤ 2 ^ 32
        → ((k : ℕ) → f.file_id_cnt ≤ k → find f.open_files k ≡ none)
        → ((k : ℕ)
            → (after_calls io calls f).file_id_cnt ≤ k
            → find (after_calls io calls f).open_files k ≡ none)
          × ((after_calls io calls f).file_id_cnt ≤ f.file_id_cnt + length calls)
    unfolding after_calls
    after_calls-Issued [] f few issued = (issued, omega arith)
    after_calls-Issued (c ∷ calls) f few issued =
        let (stays, up, one) = call-Steps c f (omega arith) in
        let (rest, bound) =
          after_calls-Issued calls (call io c f).1 (omega arith)
            (λ k le. stays k (issued k (omega arith)) (λ same. omega arith)) in
        (rest, omega arith)

    on_file-Absent :
        (x file_id : ℕ) (f : Files World Stream) (go : Stream → Result × Files World Stream)
        → some x ≡ some file_id
        → find f.open_files (key file_id) ≡ none
        → on_file io x f go ≡ (threw (invalid_id file_id), f)
    on_file-Absent x file_id f go e absent =
        let same : x ≡ file_id = cc in
        ap (λ y. on_file io y f go) same ∙ ap (λ s. found io file_id f s go) absent

    call-Absent :
        (c : Call) (f : Files World Stream) (file_id : ℕ)
        → used_id c ≡ some file_id
        → find f.open_files (key file_id) ≡ none
        → call io c f ≡ (threw (invalid_id file_id), f)
    unfolding call file_close file_seek_read file_seek_write file_tell_read file_tell_write
        file_read_n file_write_n
    call-Absent (open_call path) f file_id e h = cc
    call-Absent (close_call x) f file_id e h = on_file-Absent x file_id f _ e h
    call-Absent (seek_read_call x offset whence) f file_id e h = on_file-Absent x file_id f _ e h
    call-Absent (seek_write_call x offset whence) f file_id e h = on_file-Absent x file_id f _ e h
    call-Absent (tell_read_call x) f file_id e h = on_file-Absent x file_id f _ e h
    call-Absent (tell_write_call x) f file_id e h = on_file-Absent x file_id f _ e h
    call-Absent (read_call x buf_size array_buffer) f file_id e h = on_file-Absent x file_id f _ e h
    call-Absent (write_call x buf_size array_buffer) f file_id e h =
        on_file-Absent x file_id f _ e h

    abbrev closed_files : ℕ → Files World Stream → Stream → Files World Stream
    closed_files file_id f s = record f {
      world = io.close f.world s;
      open_files = erase f.open_files (key file_id);
    }

    threw_not_undefined : {what : Bytes} → threw what ≡ undefined → ⊥
    threw_not_undefined e = cc

    none_not_some : {s : Stream} → none ≡ some s → ⊥
    none_not_some e = cc

    -- A close that is done leaves the id closed, and the id was handed out.
    file_close-Closed :
        (file_id : ℕ) (f : Files World Stream)
        → ((k : ℕ) → f.file_id_cnt ≤ k → find f.open_files k ≡ none)
        → (file_close io file_id f).0 ≡ undefined
        → (key file_id < f.file_id_cnt)
          × (find (file_close io file_id f).1.open_files (key file_id) ≡ none)
          × ((file_close io file_id f).1.file_id_cnt ≡ f.file_id_cnt)
    unfolding file_close
    file_close-Closed file_id f issued closed =
        elim (Option-cases (find f.open_files (key file_id))) [
          | inl absent ↦ absurd (
              threw_not_undefined
                (sym (ap (λ r. r.0) (on_file-Absent file_id file_id f _ refl absent)) ∙ closed))
          | inr (s, at) ↦
              let done : file_close io file_id f ≡ (undefined, closed_files file_id f s) =
                ap (λ o. found io file_id f o (λ t. (undefined, closed_files file_id f t))) at in
              (
                elim (dec_lt (key file_id) f.file_id_cnt) [
                  | yes handed ↦ handed
                  | no above ↦
                      absurd (none_not_some (sym (issued (key file_id) (omega arith)) ∙ at))
                ],
                ap (λ r. find (r.1).open_files (key file_id)) done
                    ∙ find-erase_same f.open_files (key file_id),
                ap (λ r. (r.1).file_id_cnt) done,
              )
        ]

    -- A file id that has been closed is never valid again, whatever a script calls in between and in
    -- its files: every further call with it throws, and changes nothing. While the script makes at
    -- most 2 ^ 32 - 1 other calls, so that no two ids have the same key.
    pub closed-Invalid :
        (world : World) (calls later : List Call) (closed_id file_id : ℕ) (c : Call)
        → length calls + length later + 1 ≤ 2 ^ 32
        → (file_close io closed_id (after_calls io calls (initial world))).0 ≡ undefined
        → used_id c ≡ some file_id
        → key file_id ≡ key closed_id
        → call io c (
            after_calls io later (file_close io closed_id (after_calls io calls (initial world))).1)
          ≡ (
            threw (invalid_id file_id),
            after_calls io later (file_close io closed_id (after_calls io calls (initial world))).1,
          )
    closed-Invalid world calls later closed_id file_id c few closed uses same =
        let (issued, bound) =
          after_calls-Issued calls (initial world) (omega arith) (λ k le. unfold find in refl) in
        let (handed, absent, cnt) =
          file_close-Closed closed_id (after_calls io calls (initial world)) issued closed in
        call-Absent c _ file_id uses (
          ap (find _) same
          ∙ after_calls-Absent later
              (file_close io closed_id (after_calls io calls (initial world))).1 (key closed_id)
              (omega arith) (omega arith) absent)
