-- ===== src/Opt.antt =====
-- common/option: the option parser. `Checked` is what a call comes to: a value, or the failure of
-- an assert, an exception, or code that must not be reached.
pub mod Text
pub mod Info
pub mod Table
pub mod Argument
pub mod Accept
pub mod Match
pub mod ParseOne
pub mod Parse
pub mod Tables
use catter.Prelude.{◌≡◌, refl, if◌then◌else◌, ℕ, ◌<◌, ◌%◌, ◌^◌, ◌+◌, ◌-◌, Bool, true, false}

pub data Fault : Type 0 where
  assertion : Fault
  out_of_range : Fault
  unreachable : Fault
  read_past_end : Fault

pub data Checked (A : Type 0) : Type 0 where
  ok : A → Checked A
  fault : Fault → Checked A

infixl 5 ◌>>=◌
abbrev pub ◌>>=◌ : {A B : Type 0} → Checked A → (A → Checked B) → Checked B
ok a >>= f = f a
fault e >>= f = fault e

-- `assert(test)`
abbrev pub assert : Bool → Checked (Unit {0})
assert true = ok tt
assert false = fault assertion

-- unsigned addition and subtraction.
abbrev pub u32 : ℕ
u32 = 2 ^ 32

abbrev pub add32 : ℕ → ℕ → ℕ
add32 a b = (a + b) % u32

abbrev pub sub32 : ℕ → ℕ → ℕ
sub32 a b = (a + u32 - b) % u32

-- What holds of the value of a call that does not fail.
abbrev pub OnOk : {A : Type 0} → (A → Type 0) → Checked A → Type 0
OnOk P (ok a) = P a
OnOk P (fault e) = Unit

-- An argv whose indices do not wrap, whatever an option adds to them.
abbrev pub Fits : ℕ → Type 0
Fits size = size + 256 < u32

pub OnOk-bind :
    {A B : Type 0} (P : A → Type 0) (Q : B → Type 0) (r : Checked A) (f : A → Checked B)
    → OnOk P r
    → ((a : A) → P a → OnOk Q (f a))
    → OnOk Q (r >>= f)
OnOk-bind P Q (ok a) f h k = k a h
OnOk-bind P Q (fault e) f h k = tt

pub OnOk-all : {A : Type 0} (P : A → Type 0) (r : Checked A) → ((a : A) → P a) → OnOk P r
OnOk-all P (ok a) h = h a
OnOk-all P (fault e) h = tt

pub OnOk-if :
    {A : Type 0} (P : A → Type 0) (b : Bool) (x y : Checked A)
    → (b ≡ true → OnOk P x)
    → (b ≡ false → OnOk P y)
    → OnOk P (if b then x else y)
OnOk-if P true x y h k = h refl
OnOk-if P false x y h k = k refl

pub OnOk-mono :
    {A : Type 0} (P Q : A → Type 0) (r : Checked A) → OnOk P r → ((a : A) → P a → Q a) → OnOk Q r
OnOk-mono P Q (ok a) h k = k a h
OnOk-mono P Q (fault e) h k = tt
