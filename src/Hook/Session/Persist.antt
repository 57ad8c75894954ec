-- ===== src/Hook/Session/Persist.antt =====
-- payload/session.cc: theorems about persist.
use catter.Prelude.{
  ℕ, ◌+◌, ◌≤◌, ◌≡◌, refl, some, Option, Bytes, length, arith, length-append, ◌++◌, ◌∷◌, [],
}
use catter.Hook.Buffer.{Memory, Buffer, store}
use catter.Hook.Buffer.Image.{CString, Image-Same}
use catter.Hook.Buffer.Store.{Stored, store_fits}
use catter.Hook.Session.{Session, Persisted, persist, store_all}

-- The pointer `p` is to the string `s`.
abbrev pub PointsTo : Memory → Option ℕ → Bytes → Type 0
PointsTo m p s = (a : ℕ) × (p ≡ some a) × CString m a s

CString-Stored :
    {b b' : Buffer} {p : Option ℕ} (a : ℕ) (s t : Bytes)
    → Stored b b' p t
    → a + length s + 1 ≤ b.top
    → CString b.memory a s
    → CString b'.memory a s
CString-Stored a s t r below c =
    Image-Same a (s ++ 0 ∷ []) r.kept (omega (arith, length-append s (0 ∷ []))) c

pub record Keeps (p : Persisted) (path id path_entry id_entry : Bytes) : Type 0 where
  pub proxy_path : PointsTo p.memory p.proxy_path path
  pub self_id : PointsTo p.memory p.self_id id
  pub proxy_path_entry : PointsTo p.memory p.proxy_path_entry path_entry
  pub command_id_entry : PointsTo p.memory p.command_id_entry id_entry

-- A session whose four strings are set.
abbrev pub full : Bytes → Bytes → Bytes → Bytes → Session
full path id path_entry id_entry = record {
  proxy_path = some path;
  self_id = some id;
  proxy_path_entry = some path_entry;
  command_id_entry = some id_entry;
}

-- A session whose four strings fit in [begin, end) with their terminators is persisted whole: each
-- pointer is to its string after all four have been stored.
pub persist-Keeps :
    (memory : Memory) (begin end : ℕ) (path id path_entry id_entry : Bytes)
    → begin + length path + length id + length path_entry + length id_entry + 4 ≤ end
    → (p : Persisted) × (persist (full path id path_entry id_entry) memory begin end ≡ some p)
      × Keeps p path id path_entry id_entry
unfolding persist
persist-Keeps memory begin end path id path_entry id_entry fits =
    let b : Buffer = record { memory = memory; top = begin; last = end } in
    let r1 = store_fits b path (omega arith) in
    let b1 = (store b (some path)).0 in
    let r2 = store_fits b1 id (omega (arith, r1.top, r1.last)) in
    let b2 = (store b1 (some id)).0 in
    let r3 = store_fits b2 path_entry (omega (arith, r1.top, r1.last, r2.top, r2.last)) in
    let b3 = (store b2 (some path_entry)).0 in
    let r4 =
      store_fits b3 id_entry (omega (arith, r1.top, r1.last, r2.top, r2.last, r3.top, r3.last)) in
    (
      store_all (full path id path_entry id_entry) b,
      refl,
      record {
        proxy_path = (
          b.top,
          r1.address,
          CString-Stored b.top path id_entry r4 (omega (arith, r1.top, r2.top, r3.top)) (
              CString-Stored b.top path path_entry r3 (omega (arith, r1.top, r2.top))
                (CString-Stored b.top path id r2 (omega (arith, r1.top)) r1.string)),
        );
        self_id = (
          b1.top,
          r2.address,
          CString-Stored b1.top id id_entry r4 (omega (arith, r2.top, r3.top))
              (CString-Stored b1.top id path_entry r3 (omega (arith, r2.top)) r2.string),
        );
        proxy_path_entry = (
          b2.top,
          r3.address,
          CString-Stored b2.top path_entry id_entry r4 (omega (arith, r3.top)) r3.string,
        );
        command_id_entry = (b3.top, r4.address, r4.string);
      },
    )
