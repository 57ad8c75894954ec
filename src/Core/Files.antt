-- ===== src/Core/Files.antt =====
-- catter/core/capi/io.cc: the files that a script has open. std::fstream and the file system are a
-- parameter, and so is the conversion of the arguments by QuickJS. An int64_t is its 64-bit pattern.
pub mod Closed
use catter.Prelude.{
  ℕ, ◌+◌, ◌-◌, ◌%◌, ◌^◌, Bool, true, false, Option, none, some, List, [], ◌∷◌, ◌++◌, ◌==◌,
  if◌then◌else◌, ltb, Bytes, codes, length, take,
}
use catter.Decimal.{digits}

-- std::to_string of an int64_t, and of a uint32_t
abbrev to_string64 : ℕ → Bytes
to_string64 n = if ltb n (2 ^ 63) then digits 20 n else b'-' ∷ digits 20 (2 ^ 64 - n)

abbrev pub invalid_id : ℕ → Bytes
invalid_id file_id = codes "Invalid file id: " ++ to_string64 file_id

-- What a call of a stream leaves: its value, or the failure that it throws.
pub data Outcome (A : Type 0) : Type 0 where
  value : A → Outcome A
  failure : Bytes → Outcome A

pub data Direction : Type 0 where
  beg cur end : Direction

-- std::fstream, with badbit thrown, on a file system of type World.
pub record Fstream (World Stream : Type 0) : Type 0 where
  pub absolute_of : Bytes → Bytes
  pub open_path : World → Bytes → World × Option Stream
  pub close : World → Stream → World
  pub clear : Stream → Stream
  pub seekg : World → Stream → ℕ → Direction → World × Stream
  pub seekp : World → Stream → ℕ → Direction → World × Stream
  pub tellg : World → Stream → Outcome ℕ × Stream
  pub tellp : World → Stream → Outcome ℕ × Stream
  pub read : World → Stream → ℕ → Outcome Bytes × Stream
  pub write : World → Stream → Bytes → Outcome (Unit {0}) × (World × Stream)

-- The third argument: another object, an ArrayBuffer that has no data, or one with its bytes.
pub data ArrayBuffer : Type 0 where
  other : ArrayBuffer
  detached : ArrayBuffer
  buffer : Bytes → ArrayBuffer

-- What a call comes to: an id or a number, the bytes read, nothing, or an exception.
pub data Result : Type 0 where
  number : ℕ → Result
  bytes_read : Bytes → Result
  undefined : Result
  threw : Bytes → Result

-- The keys of open_files are int, and a file id is an int64_t.
abbrev pub key : ℕ → ℕ
key file_id = file_id % 2 ^ 32

-- A call of a script.
pub data Call : Type 0 where
  open_call : Bytes → Call
  close_call : ℕ → Call
  seek_read_call : ℕ → ℕ → ℕ → Call
  seek_write_call : ℕ → ℕ → ℕ → Call
  tell_read_call : ℕ → Call
  tell_write_call : ℕ → Call
  read_call : ℕ → ℕ → ArrayBuffer → Call
  write_call : ℕ → ℕ → ArrayBuffer → Call

module _ {Stream : Type 0} where
  -- unordered_map: find, emplace and erase, and the change of a value in place.
  unfoldable pub find : List (ℕ × Stream) → ℕ → Option Stream
  find [] k = none
  find ((j, s) ∷ files) k = let rest = find files k in if j == k then some s else rest

  unfoldable pub erase : List (ℕ × Stream) → ℕ → List (ℕ × Stream)
  erase [] k = []
  erase ((j, s) ∷ files) k = let rest = erase files k in if j == k then rest else (j, s) ∷ rest

  unfoldable pub put : List (ℕ × Stream) → ℕ → Stream → List (ℕ × Stream)
  put [] k s = []
  put ((j, t) ∷ files) k s =
      let rest = put files k s in if j == k then (j, s) ∷ files else (j, t) ∷ rest

  abbrev emplaced : List (ℕ × Stream) → ℕ → Stream → Option Stream → List (ℕ × Stream)
  emplaced files k s none = (k, s) ∷ files
  emplaced files k s (some old) = files

  abbrev pub emplace : List (ℕ × Stream) → ℕ → Stream → List (ℕ × Stream)
  emplace files k s = emplaced files k s (find files k)

-- The statics of io.cc, and the file system.
pub record Files (World Stream : Type 0) : Type 0 where
  pub world : World
  pub file_id_cnt : ℕ
  pub open_files : List (ℕ × Stream)

abbrev pub of_outcome : Outcome ℕ → Result
of_outcome (value n) = number n
of_outcome (failure what) = threw what

abbrev pub of_read : Outcome Bytes → Result
of_read (value bytes) = bytes_read bytes
of_read (failure what) = threw what

abbrev pub of_write : Outcome (Unit {0}) → Result
of_write (value u) = undefined
of_write (failure what) = threw what

module _ {World Stream : Type 0} where
  -- A call that changes a stream in place.
  abbrev pub update : Files World Stream → ℕ → World → Stream → Files World Stream
  update f file_id world s = record f {
    world = world;
    open_files = put f.open_files (key file_id) s;
  }

  -- `switch(whence)`, and what is done with the direction.
  abbrev pub with_direction :
      ℕ
      → Files World Stream
      → (Direction → Result × Files World Stream)
      → Result × Files World Stream
  with_direction whence f go =
      if whence == 0
      then go Direction.beg
      else if whence == 1
      then go Direction.cur
      else if whence == 2
      then go Direction.end
      else (threw (codes "Invalid whence: " ++ digits 10 whence), f)

  -- The data of the ArrayBuffer, if it has `buf_size` bytes.
  abbrev pub with_data :
      ArrayBuffer
      → ℕ
      → Bytes
      → Files World Stream
      → (Bytes → Result × Files World Stream)
      → Result × Files World Stream
  with_data other buf_size too_small f go =
      (threw (codes "Third argument must be an ArrayBuffer"), f)
  with_data detached buf_size too_small f go = (threw too_small, f)
  with_data (buffer bytes) buf_size too_small f go =
      if ltb (length bytes) buf_size then (threw too_small, f) else go bytes

  module _ (io : Fstream World Stream) where
    abbrev pub opened :
        Files World Stream → Bytes → World × Option Stream → Result × Files World Stream
    opened f path (world, none) =
        (threw (codes "Failed to open file: " ++ path), record f { world = world })
    opened f path (world, some s) = (
      number f.file_id_cnt,
      record {
        world = world;
        file_id_cnt = (f.file_id_cnt + 1) % 2 ^ 64;
        open_files = emplace f.open_files (key f.file_id_cnt) s;
      },
    )

    unfoldable pub file_open : Bytes → Files World Stream → Result × Files World Stream
    file_open path f = opened f path (io.open_path f.world (io.absolute_of path))

    -- `find`, the exception for an id that is not open, and what follows.
    abbrev pub found :
        ℕ
        → Files World Stream
        → Option Stream
        → (Stream → Result × Files World Stream)
        → Result × Files World Stream
    found file_id f none go = (threw (invalid_id file_id), f)
    found file_id f (some s) go = go s

    abbrev pub on_file :
        ℕ
        → Files World Stream
        → (Stream → Result × Files World Stream)
        → Result × Files World Stream
    on_file file_id f go = found file_id f (find f.open_files (key file_id)) go

    unfoldable pub file_close : ℕ → Files World Stream → Result × Files World Stream
    file_close file_id f = on_file file_id f (λ s. (
      undefined,
      record f { world = io.close f.world s; open_files = erase f.open_files (key file_id) },
    ))

    abbrev pub moved : ℕ → Files World Stream → World × Stream → Result × Files World Stream
    moved file_id f (world, s) = (undefined, update f file_id world s)

    unfoldable pub file_seek_read : ℕ → ℕ → ℕ → Files World Stream → Result × Files World Stream
    file_seek_read file_id offset whence f = on_file file_id f (λ s.
        with_direction whence f (λ dir. moved file_id f (io.seekg f.world (io.clear s) offset dir)))

    unfoldable pub file_seek_write : ℕ → ℕ → ℕ → Files World Stream → Result × Files World Stream
    file_seek_write file_id offset whence f = on_file file_id f (λ s.
        with_direction whence f (λ dir. moved file_id f (io.seekp f.world (io.clear s) offset dir)))

    abbrev pub told : ℕ → Files World Stream → Outcome ℕ × Stream → Result × Files World Stream
    told file_id f (position, s) = (of_outcome position, update f file_id f.world s)

    unfoldable pub file_tell_read : ℕ → Files World Stream → Result × Files World Stream
    file_tell_read file_id f =
        on_file file_id f (λ s. told file_id f (io.tellg f.world (io.clear s)))

    unfoldable pub file_tell_write : ℕ → Files World Stream → Result × Files World Stream
    file_tell_write file_id f =
        on_file file_id f (λ s. told file_id f (io.tellp f.world (io.clear s)))

    abbrev pub was_read :
        ℕ → Files World Stream → Outcome Bytes × Stream → Result × Files World Stream
    was_read file_id f (bytes, s) = (of_read bytes, update f file_id f.world s)

    unfoldable pub file_read_n :
        ℕ → ℕ → ArrayBuffer → Files World Stream → Result × Files World Stream
    file_read_n file_id buf_size array_buffer f = on_file file_id f (λ s.
        with_data array_buffer buf_size
          (codes "Failed to get ArrayBuffer data or buffer is too small!") f
          (λ bytes. was_read file_id f (io.read f.world s buf_size)))

    abbrev pub was_written :
        ℕ → Files World Stream → Outcome (Unit {0}) × (World × Stream) → Result × Files World Stream
    was_written file_id f (done, (world, s)) = (of_write done, update f file_id world s)

    unfoldable pub file_write_n :
        ℕ → ℕ → ArrayBuffer → Files World Stream → Result × Files World Stream
    file_write_n file_id buf_size array_buffer f = on_file file_id f (λ s.
        with_data array_buffer buf_size (codes "Failed to get ArrayBuffer data or buffer is small!")
          f (λ bytes. was_written file_id f (io.write f.world s (take buf_size bytes))))

    unfoldable pub call : Call → Files World Stream → Result × Files World Stream
    call (open_call path) f = file_open path f
    call (close_call file_id) f = file_close file_id f
    call (seek_read_call file_id offset whence) f = file_seek_read file_id offset whence f
    call (seek_write_call file_id offset whence) f = file_seek_write file_id offset whence f
    call (tell_read_call file_id) f = file_tell_read file_id f
    call (tell_write_call file_id) f = file_tell_write file_id f
    call (read_call file_id buf_size array_buffer) f = file_read_n file_id buf_size array_buffer f
    call (write_call file_id buf_size array_buffer) f = file_write_n file_id buf_size array_buffer f

    -- The files after some calls.
    unfoldable pub after_calls : List Call → Files World Stream → Files World Stream
    after_calls [] f = f
    after_calls (c ∷ calls) f = after_calls calls (call c f).1
