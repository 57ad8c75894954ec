-- ===== src/Hook/Buffer/Image.antt =====
-- payload/array.h: theorems about copy, and strings in memory.
use mathlib.Core.Path.{subst}
use catter.Prelude.{
  ℕ, ◌+◌, ◌≤◌, ◌<◌, ◌≡◌, refl, sym, ap, ◌∙◌, Option, none, some, [], ◌∷◌, ◌++◌, ◌==◌, Bytes, length,
  arith, false, Bool-cases, inl, inr,
}
use catter.Hook.Buffer.{Memory, write, copy}

-- The bytes `src` stand in memory from address `a` on.
abbrev pub Image : Memory → ℕ → Bytes → Type 0
Image m a [] = Unit
Image m a (c ∷ src) = (m a ≡ c) × Image m (a + 1) src

-- The C string `s` stands at `a`.
abbrev pub CString : Memory → ℕ → Bytes → Type 0
CString m a s = Image m a (s ++ 0 ∷ [])

-- Memory outside [from, to) is the same.
pub record Same (from to : ℕ) (m m' : Memory) : Type 0 where
  pub below : (j : ℕ) → j < from → m' j ≡ m j
  pub above : (j : ℕ) → to ≤ j → m' j ≡ m j

pub Image-Same :
    {m m' : Memory} {from to : ℕ} (a : ℕ) (src : Bytes)
    → Same from to m m'
    → a + length src ≤ from
    → Image m a src
    → Image m' a src
Image-Same a [] s h i = tt
Image-Same {m} {m'} a (c ∷ src) s h i =
    (s.below a (omega arith) ∙ i.0, Image-Same (a + 1) src s (omega arith) i.1)

-- Whether it fits or not, `copy` writes only to the destination.
pub copy-Same :
    (m : Memory) (src : Bytes) (it last : ℕ) → it ≤ last → Same it last m (copy m src it last).0
unfolding copy
copy-Same m [] it last h = record { below = λ j l. refl; above = λ j l. refl }
copy-Same m (c ∷ src) it last h = elim (Bool-cases (it == last)) [
  | inl full ↦ rw full (record { below = λ j l. refl; above = λ j l. refl })
  | inr room ↦
      let s : Same (it + 1) last (write m it c) (copy (write m it c) src (it + 1) last).0 =
        copy-Same (write m it c) src (it + 1) last (ground arith) in
      rw room (record {
        below = λ j l. s.below j (omega arith) ∙ (ground arith);
        above = λ j l. s.above j l ∙ (ground arith);
      })
]

copy_step :
    (m : Memory) (c : ℕ) (src : Bytes) (it last : ℕ)
    → (it == last) ≡ false
    → copy m (c ∷ src) it last ≡ copy (write m it c) src (it + 1) last
unfolding copy
copy_step m c src it last room = rw room

-- What fits is written whole, and the end of the copy is returned.
pub copy_fits :
    (m : Memory) (src : Bytes) (it last : ℕ)
    → it + length src ≤ last
    → ((copy m src it last).1 ≡ some (it + length src)) × Image (copy m src it last).0 it src
copy_fits m [] it last h = (unfold copy in (ground arith), tt)
copy_fits m (c ∷ src) it last h =
    let room : (it == last) ≡ false = ground arith in
    let (end, image) = copy_fits (write m it c) src (it + 1) last (omega arith) in
    let s : Same (it + 1) last (write m it c) (copy (write m it c) src (it + 1) last).0 =
      copy-Same (write m it c) src (it + 1) last (omega arith) in
    subst (λ (p : Memory × Option ℕ). (p.1 ≡ some (it + length (c ∷ src))) × Image p.0 it (c ∷ src))
      (sym (copy_step m c src it last room))
      (end ∙ ap some (omega arith), (s.below it (omega arith) ∙ (ground arith), image))

-- What does not fit is refused.
pub copy_overflows :
    (m : Memory) (src : Bytes) (it last : ℕ)
    → it ≤ last
    → last < it + length src
    → (copy m src it last).1 ≡ none
unfolding copy
copy_overflows m [] it last h k = absurd (omega arith)
copy_overflows m (c ∷ src) it last h k =
    ground (arith, copy_overflows (write m it c) src (it + 1) last)
