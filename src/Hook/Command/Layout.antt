-- ===== src/Hook/Command/Layout.antt =====
-- payload/command.cc: the arguments that `store_arg` has laid out, pointers in argv and the strings in
-- the buffer.
use mathlib.Core.Bool.{false≢true}
use mathlib.Core.Path.{subst}
use catter.Prelude.{
  if-eq_false, Bool-cases, inl, inr, ℕ, ◌+◌, ◌-◌, ◌≤◌, ◌<◌, ◌≡◌, refl, sym, ap, ◌∙◌, Option, none,
  some, true, false, List, [], ◌∷◌, ◌++◌, leb, Bytes, length, arith, length-append, append-nil,
  append_assoc, Bool,
}
use catter.Hook.Buffer.{Memory, Buffer, store}
use catter.Hook.Buffer.Image.{CString, Same, Image-Same}
use catter.Hook.Buffer.Store.{Stored, store_fits}
use catter.Hook.Command.{
  Argv, assign, Building, store_arg, stored_arg, max_argc, store_args, unless_null,
}

-- argv[i], argv[i + 1], ... point to the strings `strs`, which stand below `top`.
abbrev pub Args : Memory → Argv → ℕ → ℕ → List Bytes → Type 0
Args m argv top i [] = Unit
Args m argv top i (s ∷ strs) =
    (a : ℕ) × (argv i ≡ some a)
    × (a + length s + 1 ≤ top)
    × CString m a s
    × Args m argv top (i + 1) strs

-- The command line `strs`, with its nullptr.
abbrev pub CommandLine : Memory → Argv → ℕ → List Bytes → Type 0
CommandLine m argv i [] = argv i ≡ none
CommandLine m argv i (s ∷ strs) =
    (a : ℕ) × (argv i ≡ some a) × CString m a s × CommandLine m argv (i + 1) strs

-- `strs` has been laid out, and nothing else.
pub record Holds (st : Building) (strs : List Bytes) : Type 0 where
  pub args : Args st.buf.memory st.argv st.buf.top 0 strs
  pub count : st.append_argv ≡ length strs
  pub room : st.buf.top ≤ st.buf.last

-- The buffer that `strs` takes, a terminating 0 with each.
abbrev pub bytes_of : List Bytes → ℕ
bytes_of [] = 0
bytes_of (s ∷ strs) = length s + 1 + bytes_of strs

-- Arguments stay where they are while memory below the top and argv below the end stay.
pub Args-append :
    {m m' : Memory} {argv argv' : Argv} {top top' last : ℕ} (i n : ℕ) (strs : List Bytes)
    (s : Bytes)
    → Args m argv top i strs
    → Same top last m m'
    → ((j : ℕ) → j < n → argv' j ≡ argv j)
    → n ≡ i + length strs
    → argv' n ≡ some top
    → top + length s + 1 ≡ top'
    → CString m' top s
    → Args m' argv' top' i (strs ++ s ∷ [])
Args-append {argv'} {top} i n [] s args same keep e at size string =
    let here : i ≡ n = omega arith in (top, ap argv' here ∙ at, omega arith, string, tt)
Args-append i n (t ∷ strs) s (a, p, q, c, more) same keep e at size string = (
  a,
  keep i (omega arith) ∙ p,
  omega arith,
  Image-Same a (t ++ 0 ∷ []) same (omega (arith, length-append t (0 ∷ []))) c,
  Args-append (i + 1) n strs s more same keep (omega arith) at size string,
)

pub Args-Same :
    {m m' : Memory} (argv : Argv) (top last i : ℕ) (strs : List Bytes)
    → Same top last m m'
    → Args m argv top i strs
    → Args m' argv top i strs
Args-Same argv top last i [] same args = tt
Args-Same argv top last i (t ∷ strs) same (a, p, q, c, more) = (
  a,
  p,
  q,
  Image-Same a (t ++ 0 ∷ []) same (omega (arith, length-append t (0 ∷ []))) c,
  Args-Same argv top last (i + 1) strs same more,
)

-- With the nullptr behind them the arguments are a command line.
pub Args-CommandLine :
    (m : Memory) {argv argv' : Argv} (top i n : ℕ) (strs : List Bytes)
    → Args m argv top i strs
    → n ≡ i + length strs
    → ((j : ℕ) → j < n → argv' j ≡ argv j)
    → argv' n ≡ none
    → CommandLine m argv' i strs
Args-CommandLine m {argv'} top i n [] args e keep end =
    let here : i ≡ n = omega arith in ap argv' here ∙ end
Args-CommandLine m top i n (t ∷ strs) (a, p, q, c, more) e keep end = (
  a,
  keep i (omega arith) ∙ p,
  c,
  Args-CommandLine m top (i + 1) n strs more (omega arith) keep end,
)

pub assign_self : (argv : Argv) (i : ℕ) (p : Option ℕ) → assign argv i p i ≡ p
assign_self argv i p = ground arith

pub assign_lt : (argv : Argv) (i : ℕ) (p : Option ℕ) (j : ℕ) → j < i → assign argv i p j ≡ argv j
assign_lt argv i p j h = ground arith

-- What one argument adds.
pub record Added (st st' : Building) (strs : List Bytes) (s : Bytes) (p : Option ℕ) : Type 0 where
  pub holds : Holds st' (strs ++ s ∷ [])
  pub address : p ≡ some st.buf.top
  pub top : st'.buf.top ≡ st.buf.top + length s + 1
  pub last : st'.buf.last ≡ st.buf.last

stored_arg-Added :
    (st : Building) (strs : List Bytes) (s : Bytes) (buf : Buffer) (p : Option ℕ)
    → Holds st strs
    → Stored st.buf buf p s
    → st.buf.top + length s + 1 ≤ st.buf.last
    → Added st (stored_arg st (buf, p)).0 strs s (stored_arg st (buf, p)).1
stored_arg-Added st strs s buf none h r fits = absurd (false≢true (cc (r.address)))
stored_arg-Added st strs s buf (some a) h r fits = record {
  holds = record {
    args =
        Args-append 0 st.append_argv strs s h.args r.kept
          (λ j l. assign_lt st.argv st.append_argv (some a) j l) (omega (arith, h.count))
          (assign_self st.argv st.append_argv (some a) ∙ r.address) (sym r.top) r.string;
    count = omega (arith, h.count, length-append strs (s ∷ []));
    room = omega (arith, r.top, r.last);
  };
  address = r.address;
  top = r.top;
  last = r.last;
}

pub store_arg-Added :
    (st : Building) (strs : List Bytes) (s : Bytes)
    → Holds st strs
    → length strs + 1 < max_argc
    → st.buf.top + length s + 1 ≤ st.buf.last
    → Added st (store_arg st (some s)).0 strs s (store_arg st (some s)).1
unfolding store_arg
store_arg-Added st strs s h few fits =
    let room : leb (max_argc - 1) st.append_argv ≡ false = ground (arith, h.count) in
    let (buf, p) = store st.buf (some s) in
    rw room (stored_arg-Added st strs s buf p h (store_fits st.buf s fits) fits)

unless_null-some :
    (next : Building → Building × Bool) (r : Building × Option ℕ) (a : ℕ)
    → r.1 ≡ some a
    → unless_null next r ≡ next r.0
unless_null-some next (st, p) a h = ground arith

-- The loop of proxy_str: all of `more` is laid out when it fits.
pub store_args-Holds :
    (st : Building) (strs more : List Bytes)
    → Holds st strs
    → length strs + length more < max_argc
    → st.buf.top + bytes_of more ≤ st.buf.last
    → ((store_args st more).1 ≡ true) × Holds (store_args st more).0 (strs ++ more)
unfolding store_args
store_args-Holds st strs [] h few fits = (refl, subst (Holds st) (sym (append-nil strs)) h)
store_args-Holds st strs (s ∷ more) h few fits =
    let a = store_arg-Added st strs s h (omega arith) (omega arith) in
    let (ok, holds) =
      store_args-Holds (store_arg st (some s)).0 (strs ++ s ∷ []) more a.holds
        (omega (arith, length-append strs (s ∷ []))) (omega (arith, a.top, a.last)) in
    subst (λ (r : Building × Bool). (r.1 ≡ true) × Holds r.0 (strs ++ s ∷ more))
      (sym (unless_null-some (λ st'. store_args st' more) (store_arg st (some s)) _ a.address))
      (
        ok,
        subst (Holds (store_args (store_arg st (some s)).0 more).0)
            (append_assoc strs (s ∷ []) more) holds,
      )

-- The first entry of argv is not overwritten.
abbrev pub FirstKept : Building → Building → Type 0
FirstKept st st' = (0 < st'.append_argv) × (st'.argv 0 ≡ st.argv 0)

stored_arg-FirstKept :
    (st : Building) (r : Buffer × Option ℕ) → 0 < st.append_argv → FirstKept st (stored_arg st r).0
stored_arg-FirstKept st (buf, none) h = (h, refl)
stored_arg-FirstKept st (buf, some a) h =
    (omega arith, assign_lt st.argv st.append_argv (some a) 0 h)

pub store_arg-FirstKept :
    (st : Building) (s : Option Bytes) → 0 < st.append_argv → FirstKept st (store_arg st s).0
unfolding store_arg
store_arg-FirstKept st s h = elim (Bool-cases (leb (max_argc - 1) st.append_argv)) [
  | inl full ↦ rw (full) (h, refl)
  | inr room ↦ rw (room) (stored_arg-FirstKept st (store st.buf s) h)
]

unless_null-FirstKept :
    (st : Building) (next : Building → Building × Bool) (r : Building × Option ℕ)
    → FirstKept st r.0
    → ((st' : Building) → 0 < st'.append_argv → FirstKept st' (next st').0)
    → FirstKept st (unless_null next r).0
unless_null-FirstKept st next (st', none) h k = h
unless_null-FirstKept st next (st', some a) (some_arg, same) k =
    let (more, kept) = k st' some_arg in (more, kept ∙ same)

pub store_args-FirstKept :
    (st : Building) (args : List Bytes) → 0 < st.append_argv → FirstKept st (store_args st args).0
unfolding store_args
store_args-FirstKept st [] h = (h, refl)
store_args-FirstKept st (s ∷ args) h =
    unless_null-FirstKept st (λ st'. store_args st' args) (store_arg st (some s))
      (store_arg-FirstKept st (some s) h) (λ st' h'. store_args-FirstKept st' args h')

stored_arg-entry :
    (st : Building) (r : Buffer × Option ℕ) (a : ℕ)
    → (stored_arg st r).1 ≡ some a
    → (stored_arg st r).0.argv st.append_argv ≡ some a
stored_arg-entry st (buf, none) a h = absurd (false≢true (cc (h)))
stored_arg-entry st (buf, some b) a h = assign_self st.argv st.append_argv (some b) ∙ h

-- The address that store_arg returns is the entry that it has set.
pub store_arg-entry :
    (st : Building) (s : Option Bytes) (a : ℕ)
    → leb (max_argc - 1) st.append_argv ≡ false
    → (store_arg st s).1 ≡ some a
    → (store_arg st s).0.argv st.append_argv ≡ some a
unfolding store_arg
store_arg-entry st s a room h = rw (room) (
    stored_arg-entry st (store st.buf s) a
      (sym (ap (λ (r : Building × Option ℕ). r.1) (if-eq_false _ _ _ room)) ∙ h))
