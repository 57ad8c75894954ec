-- ===== src/Tests/Scripts.antt =====
-- The files of a script.
use catter.Prelude.{ℕ, ◌+◌, ◌≡◌, refl, some, List, [], ◌∷◌, codes, arith}
use catter.Core.Files.{
  Files, Fstream, Call, Result, threw, undefined, number, value, Direction, invalid_id, after_calls,
  call, file_close, open_call, seek_read_call, tell_read_call, close_call,
}
use catter.Core.Files.Closed.{initial, closed-Invalid}

-- A stream is its position, and a file system where every path opens.
abbrev io : Fstream (Unit {0}) ℕ
io = record {
  absolute_of = λ path. path;
  open_path = λ world path. (world, some 0);
  close = λ world s. world;
  clear = λ s. s;
  seekg = λ world s offset dir. (world, offset);
  seekp = λ world s offset dir. (world, offset);
  tellg = λ world s. (value s, s);
  tellp = λ world s. (value s, s);
  read = λ world s n. (value [], s + n);
  write = λ world s bytes. (value tt, (world, s));
}

abbrev before : List Call
before = open_call (codes "a") ∷ open_call (codes "b") ∷ seek_read_call 1 5 0 ∷ []

abbrev later : List Call
later = open_call (codes "c") ∷ tell_read_call 2 ∷ close_call 1 ∷ []

closed_1 : (file_close io 1 (after_calls io before (initial tt))).0 ≡ undefined
unfolding file_close after_calls call catter.Core.Files.file_open catter.Core.Files.file_seek_read
    catter.Core.Files.find catter.Core.Files.put
closed_1 = refl

-- The second file is still open.
tell_2 : (call io (tell_read_call 2) (after_calls io before (initial tt))).0 ≡ number 0
unfolding file_close after_calls call catter.Core.Files.file_open catter.Core.Files.file_seek_read
    catter.Core.Files.file_tell_read catter.Core.Files.find catter.Core.Files.put
tell_2 = refl

closed-Invalid_example :
    call io
      (tell_read_call 1)
      (after_calls io later (file_close io 1 (after_calls io before (initial tt))).1)
    ≡ (
      threw (invalid_id 1),
      after_calls io later (file_close io 1 (after_calls io before (initial tt))).1,
    )
closed-Invalid_example =
    closed-Invalid io tt before later 1 1 (tell_read_call 1) (omega arith) closed_1 refl refl
