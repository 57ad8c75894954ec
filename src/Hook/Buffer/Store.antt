-- ===== src/Hook/Buffer/Store.antt =====
-- payload/buffer.cc: theorems about store and push.
use mathlib.Core.Path.{subst}
use catter.Prelude.{
  ℕ, ◌+◌, ◌≤◌, ◌<◌, ◌≡◌, refl, sym, ◌∙◌, Option, none, some, [], ◌∷◌, ◌++◌, Bytes, length, arith,
  length-append, ◌⊎◌, inl, inr,
}
use catter.Hook.Buffer.{Memory, copy, Buffer, swap_top, store, push}
use catter.Hook.Buffer.Image.{CString, Same, copy-Same, copy_fits, copy_overflows}

lt_or_le : (a b : ℕ) → (a < b) ⊎ (b ≤ a)
lt_or_le a b = omega arith

length_cstr : (s : Bytes) → length (s ++ 0 ∷ []) ≡ length s + 1
length_cstr s = omega (arith, length-append s (0 ∷ []))

swap_top-memory : (b : Buffer) (p : Memory × Option ℕ) → (swap_top b p).0.memory ≡ p.0
unfolding swap_top
swap_top-memory b (m, none) = refl
swap_top-memory b (m, some top) = refl

swap_top-last : (b : Buffer) (p : Memory × Option ℕ) → (swap_top b p).0.last ≡ b.last
unfolding swap_top
swap_top-last b (m, none) = refl
swap_top-last b (m, some top) = refl

swap_top-some :
    (b : Buffer) (p : Memory × Option ℕ) (top : ℕ)
    → p.1 ≡ some top
    → (swap_top b p).1 ≡ some b.top × ((swap_top b p).0.top ≡ top)
unfolding swap_top
swap_top-some b (m, o) top h = ground arith

swap_top-none :
    (b : Buffer) (p : Memory × Option ℕ)
    → p.1 ≡ none
    → ((swap_top b p).1 ≡ none) × ((swap_top b p).0.top ≡ b.top)
unfolding swap_top
swap_top-none b (m, o) h = ground arith

-- A string that fits with its terminating 0 is stored at the top.
pub record Stored (b b' : Buffer) (a : Option ℕ) (s : Bytes) : Type 0 where
  pub address : a ≡ some b.top
  pub top : b'.top ≡ b.top + length s + 1
  pub last : b'.last ≡ b.last
  pub string : CString b'.memory b.top s
  pub kept : Same b.top b.last b.memory b'.memory

-- A string that fits with its terminating 0 is stored at the old top: store returns that address,
-- the top moves behind the copy, and memory outside the free part of the buffer stays.
pub store_fits :
    (b : Buffer) (s : Bytes)
    → b.top + length s + 1 ≤ b.last
    → Stored b (store b (some s)).0 (store b (some s)).1 s
store_fits b s h =
    let src = s ++ 0 ∷ [] in
    let (end, image) = copy_fits b.memory src b.top b.last (omega (arith, length_cstr s)) in
    let (address, top) = swap_top-some b (copy b.memory src b.top b.last) _ end in
    let memory = swap_top-memory b (copy b.memory src b.top b.last) in
    unfold store in
    record {
      address = address;
      top = top ∙ (omega (arith, length_cstr s));
      last = swap_top-last b (copy b.memory src b.top b.last);
      string = subst (λ m. CString m b.top s) (sym memory) image;
      kept =
          subst (Same b.top b.last b.memory) (sym memory)
            (copy-Same b.memory src b.top b.last (omega arith));
    }

-- A string that does not fit is refused: the top stays, and so does all below it.
pub record Refused (b b' : Buffer) : Type 0 where
  pub top : b'.top ≡ b.top
  pub last : b'.last ≡ b.last
  pub kept : Same b.top b.last b.memory b'.memory

-- A string that does not fit is refused: store returns nullptr, the top stays, and so does memory
-- outside the free part of the buffer.
pub store_overflows :
    (b : Buffer) (s : Bytes)
    → b.top ≤ b.last
    → b.last < b.top + length s + 1
    → ((store b (some s)).1 ≡ none) × Refused b (store b (some s)).0
store_overflows b s fits h =
    let src = s ++ 0 ∷ [] in
    let p = copy b.memory src b.top b.last in
    let (address, top) =
      swap_top-none b p
        (copy_overflows b.memory src b.top b.last fits (omega (arith, length_cstr s))) in
    unfold store in
    (
      address,
      record {
        top = top;
        last = swap_top-last b p;
        kept =
            subst (Same b.top b.last b.memory) (sym (swap_top-memory b p))
              (copy-Same b.memory src b.top b.last fits);
      },
    )

-- A push, done or refused, moves the top up inside the buffer and writes nothing below it.
pub record Pushed (b b' : Buffer) : Type 0 where
  pub grows : b.top ≤ b'.top
  pub within : b'.top ≤ b.last
  pub last : b'.last ≡ b.last
  pub kept : Same b.top b.last b.memory b'.memory

-- A push, done or refused, moves the top up at most to the end of the buffer, and leaves memory
-- outside the free part of the buffer as it was.
pub push-Pushed : (b : Buffer) (s : Option Bytes) → b.top ≤ b.last → Pushed b (push b s).0
push-Pushed b none fits =
    unfold push in
    record {
      grows = omega arith;
      within = fits;
      last = refl;
      kept = record { below = λ j l. refl; above = λ j l. refl };
    }
push-Pushed b (some s) fits =
    let p = copy b.memory s b.top b.last in
    let kept : Same b.top b.last b.memory (swap_top b p).0.memory =
      subst (Same b.top b.last b.memory) (sym (swap_top-memory b p))
        (copy-Same b.memory s b.top b.last fits) in
    elim (lt_or_le b.last (b.top + length s)) [
      | inl more ↦
          let (address, top) =
            swap_top-none b p (copy_overflows b.memory s b.top b.last fits more) in
          unfold push in
          record {
            grows = omega arith;
            within = omega arith;
            last = swap_top-last b p;
            kept = kept;
          }
      | inr less ↦
          let (end, image) = copy_fits b.memory s b.top b.last less in
          let (address, top) = swap_top-some b p (b.top + length s) end in
          unfold push in
          record {
            grows = omega arith;
            within = omega arith;
            last = swap_top-last b p;
            kept = kept;
          }
    ]
