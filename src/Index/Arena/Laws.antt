-- ===== src/Index/Arena/Laws.antt =====
-- What `intern` appends to the arenas.
use yspot.Prelude.{
  ◌≤◌, ◌<◌, ◌≡◌, inl, inr, false, [], ◌∷◌, ◌++◌, some, Bytes, length, arith, Option-cases,
}
use yspot.Text.{Unicode, has_control_byte}
use yspot.Index.Columns.{folded_delim}
use yspot.Index.Arena.{Arenas, Interned, usable_name, append_name, intern, fenced}

pub record Appended (a : Arenas) (nfc folded : Bytes) (i : Interned) (a' : Arenas) : Type 0 where
  pub names_eq : a'.names ≡ a.names ++ nfc
  pub folded_eq : a'.folded ≡ fenced a.folded ++ (folded ++ folded_delim ∷ [])
  pub name_off_eq : i.name_off ≡ length a.names
  pub name_len_eq : i.name_len ≡ length nfc
  pub folded_off_eq : i.folded_off ≡ length (fenced a.folded)
  pub folded_len_eq : i.folded_len ≡ length folded

-- A name that can be stored has no empty form, and its folded form no byte that the arena reserves.
pub usable_name-plain :
    (u : Unicode) (name nfc folded : Bytes)
    → usable_name u name ≡ some (nfc, folded)
    → (0 < length folded) × (has_control_byte folded ≡ false)
unfolding usable_name
usable_name-plain u name nfc folded h = ground arith

append_name-Appended :
    (a : Arenas) (nfc folded : Bytes) (i : Interned) (a' : Arenas)
    → append_name a nfc folded ≡ some (i, a')
    → Appended a nfc folded i a'
unfolding append_name
append_name-Appended a nfc folded i a' h = ground arith

-- The name that `intern` stored, and where.
pub record Stored (u : Unicode) (a : Arenas) (name : Bytes) (i : Interned) (a' : Arenas)
    : Type 0 where
  pub nfc : Bytes
  pub folded : Bytes
  pub usable : usable_name u name ≡ some (nfc, folded)
  pub appended : Appended a nfc folded i a'

pub intern-Stored :
    (u : Unicode) (a : Arenas) (name : Bytes) (i : Interned) (a' : Arenas)
    → intern u a name ≡ some (i, a')
    → Stored u a name i a'
unfolding intern
intern-Stored u a name i a' h = elim (Option-cases (usable_name u name)) [
  | inl e ↦ ground arith
  | inr ((nfc, folded), e) ↦ record {
    nfc = nfc;
    folded = folded;
    usable = e;
    appended = append_name-Appended a nfc folded i a' (rw (e, intern) at h);
  }
]

pub length-fenced : (bs : Bytes) → (length bs ≤ length (fenced bs)) × (0 < length (fenced bs))
length-fenced [] = omega arith
length-fenced (b ∷ bs) = omega arith
