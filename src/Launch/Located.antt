-- ===== src/Launch/Located.antt =====
-- catter-hook/linux-mac/impl.cc: theorems about locate_exe.
use catter.Prelude.{
  ℕ, zero, suc, ◌≤◌, ◌≡◌, ◌≢◌, refl, ap, ◌∙◌, ◌==◌, ◌++◌, some, [], ◌∷◌, false, Bytes, codes, take,
  All, length, arith,
}
use catter.Rpc.{Command}
use catter.Launch.{fgets, c_str, drop_newline, Popen, ok, located, locate_exe}

-- The name of a file in one line of output: no 0 and no newline.
abbrev pub IsLine : Bytes → Type 0
IsLine s = All (λ c. (c ≢ 0) × (c ≢ 10)) s

drop_newline-cons :
    (c : ℕ) (s : Bytes) → (c == 10) ≡ false → drop_newline (c ∷ s) ≡ c ∷ drop_newline s
unfolding drop_newline
drop_newline-cons c [] h = rw h
drop_newline-cons c (d ∷ s) h = refl

line_read :
    (n : ℕ) (path rest : Bytes)
    → IsLine path
    → drop_newline (c_str (fgets n (path ++ 10 ∷ rest))) ≡ take n path
unfolding fgets c_str drop_newline
line_read zero path rest l = refl
line_read (suc n) [] rest l = refl
line_read (suc n) (c ∷ path) rest ((z, nl), l) =
    let a : (c == 10) ≡ false = ground arith in
    let b : (c == 0) ≡ false = ground arith in
    let read : c_str (fgets (suc n) (c ∷ path ++ 10 ∷ rest))
        ≡ c ∷ c_str (fgets n (path ++ 10 ∷ rest)) =
      rw (a, b) in
    ap drop_newline read
    ∙ drop_newline-cons c (c_str (fgets n (path ++ 10 ∷ rest))) a
    ∙ ap (λ s. c ∷ s) (line_read n path rest l)

-- `command -v` that succeeds and prints the line `path`: the executable becomes `path`, cut off
-- after 127 bytes.
pub locate_exe-line :
    (popen : Popen) (command : Command) (c : ℕ) (path rest : Bytes)
    → popen (codes "command -v " ++ command.executable) ≡ some ((c ∷ path) ++ 10 ∷ rest, some 0)
    → IsLine (c ∷ path)
    → locate_exe popen command ≡ ok (record command { executable = take 127 (c ∷ path) })
unfolding locate_exe
locate_exe-line popen command c path rest h l =
    rw (locate_exe, h) (ap (λ s. located command s (some 0)) (line_read 127 (c ∷ path) rest l))

take-all : (n : ℕ) (s : Bytes) → length s ≤ n → take n s ≡ s
take-all zero [] h = refl
take-all zero (c ∷ s) h = absurd (omega arith)
take-all (suc n) [] h = refl
take-all (suc n) (c ∷ s) h = ap (λ t. c ∷ t) (take-all n s (omega arith))

-- A path that `command -v` prints on one line is taken as it is when it has at most 127 bytes.
locate_exe-whole :
    (popen : Popen) (command : Command) (c : ℕ) (path rest : Bytes)
    → popen (codes "command -v " ++ command.executable) ≡ some ((c ∷ path) ++ 10 ∷ rest, some 0)
    → IsLine (c ∷ path)
    → length (c ∷ path) ≤ 127
    → locate_exe popen command ≡ ok (record command { executable = c ∷ path })
locate_exe-whole popen command c path rest h l short =
    locate_exe-line popen command c path rest h l
    ∙ ap (λ s. ok (record command { executable = s })) (take-all 127 (c ∷ path) short)
