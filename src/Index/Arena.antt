-- ===== src/Index/Arena.antt =====
-- The two name arenas of the index and `intern`: crates/yspot-index/src/index.rs. The folded arena is
-- `0x00 rec 0x00 rec 0x00`. Reserved capacity is not modelled.
pub mod Laws
use yspot.Prelude.{
  ℕ, ◌+◌, ◌-◌, ◌^◌, Bool, true, false, ◌||◌, List, [], ◌∷◌, ◌++◌, Option, none, some, Bytes, ltb,
  length, if◌then◌else◌,
}
use yspot.Text.{Unicode, fold, truncate_to_boundary, has_control_byte}
use yspot.Index.Columns.{folded_delim}

abbrev pub u32_max : ℕ
u32_max = 2 ^ 32 - 1

abbrev pub u16_max : ℕ
u16_max = 2 ^ 16 - 1

pub record Arenas : Type 0 where
  pub names : Bytes
  pub folded : Bytes

-- What `intern` returns.
pub record Interned : Type 0 where
  pub name_off : ℕ
  pub name_len : ℕ
  pub folded_off : ℕ
  pub folded_len : ℕ

abbrev pub is_empty {ℓ} : {A : Type ℓ} → List A → Bool
is_empty [] = true
is_empty (_ ∷ _) = false

-- The two forms of a name that are stored, or `none` for an unusable one.
unfoldable pub usable_name : Unicode → Bytes → Option (Bytes × Bytes)
usable_name u name =
    let nfc = truncate_to_boundary (u.nfc name) u16_max in
    let folded = truncate_to_boundary (fold u nfc) u16_max in
    if is_empty nfc
    then none
    else if is_empty folded || has_control_byte folded
    then none
    else some (nfc, folded)

-- The arena with its opening fence.
abbrev pub fenced : Bytes → Bytes
fenced [] = folded_delim ∷ []
fenced (b ∷ bs) = b ∷ bs

unfoldable pub append_name : Arenas → Bytes → Bytes → Option (Interned × Arenas)
append_name a nfc folded =
    let fences = if is_empty a.folded then 2 else 1 in
    if ltb u32_max (length a.names + length nfc)
      || ltb u32_max (length a.folded + length folded + fences)
    then none
    else some (
      record {
        name_off = length a.names;
        name_len = length nfc;
        folded_off = length (fenced a.folded);
        folded_len = length folded;
      },
      record { names = a.names ++ nfc; folded = fenced a.folded ++ (folded ++ folded_delim ∷ []) },
    )

unfoldable pub intern : Unicode → Arenas → Bytes → Option (Interned × Arenas)
intern u a name = elim (usable_name u name) [
  | none ↦ none
  | some (nfc, folded) ↦ append_name a nfc folded
]
