-- ===== src/Text.antt =====
-- The texts of the index: UTF-8 byte strings. `char_indices`, `chars().next()` and `encode_utf8` of
-- the language's library, and what the program takes from Unicode's tables, which are a parameter.
-- `fold`, `truncate_to_boundary` and `has_control_byte` of crates/yspot-index/src/index.rs.
pub mod Laws
use Prim.Native.Nat.{◌-◌}
use yspot.Prelude.{
  ℕ, zero, suc, ◌+◌, ◌*◌, ◌/◌, ◌%◌, ◌≤◌, ◌≡◌, refl, Bool, true, false, ◌&&◌, ◌||◌, not, List, [],
  ◌∷◌, ◌++◌, Bytes, ltb, leb, ◌==◌, if◌then◌else◌, any, length, take, arith, get_elem?, Option,
  none, some,
}

-- Characters are code points. The tables of Unicode, and the NFC normalisation of a text
-- (`unicode_normalization`), are not of this repository.
pub record Unicode : Type 0 where
  pub nfc : Bytes → Bytes
  pub to_lowercase : ℕ → List ℕ
  pub is_lowercase : ℕ → Bool
  pub is_uppercase : ℕ → Bool

-- `char::len_utf8`
abbrev pub len_utf8 : ℕ → ℕ
len_utf8 c = if ltb c 0x80 then 1 else if ltb c 0x800 then 2 else if ltb c 0x10000 then 3 else 4

-- `char::len_utf16`
abbrev pub len_utf16 : ℕ → ℕ
len_utf16 c = if ltb c 0x10000 then 1 else 2

-- `char::encode_utf8`
unfoldable pub encode_utf8 : ℕ → Bytes
encode_utf8 c =
    if ltb c 0x80
    then c ∷ []
    else if ltb c 0x800
    then (0xc0 + c / 64) ∷ (0x80 + c % 64) ∷ []
    else if ltb c 0x10000
    then (0xe0 + c / 4096) ∷ (0x80 + c / 64 % 64) ∷ (0x80 + c % 64) ∷ []
    else (0xf0 + c / 262144) ∷ (0x80 + c / 4096 % 64) ∷ (0x80 + c / 64 % 64) ∷ (0x80 + c % 64) ∷ []

unfoldable pub encode : List ℕ → Bytes
unfolding encode_utf8
encode [] = []
encode (c ∷ cs) = encode_utf8 c ++ encode cs

-- `char_indices`: each character with the offset of its first byte. The first byte says how many
-- bytes follow it.
unfoldable pub char_indices : ℕ → Bytes → List (ℕ × ℕ)
char_indices i [] = []
char_indices i (a ∷ []) = (i, a) ∷ []
char_indices i (a ∷ b ∷ []) =
    let two : List (ℕ × ℕ) = (i, (a - 0xc0) * 64 + (b - 0x80)) ∷ [] in
    let one = (i, a) ∷ char_indices (i + 1) (b ∷ []) in if ltb a 0x80 then one else two
char_indices i (a ∷ b ∷ c ∷ []) =
    let one = (i, a) ∷ char_indices (i + 1) (b ∷ c ∷ []) in
    let two = (i, (a - 0xc0) * 64 + (b - 0x80)) ∷ char_indices (i + 2) (c ∷ []) in
    let three : List (ℕ × ℕ) = (i, (a - 0xe0) * 4096 + (b - 0x80) * 64 + (c - 0x80)) ∷ [] in
    if ltb a 0x80 then one else if ltb a 0xe0 then two else three
char_indices i (a ∷ b ∷ c ∷ d ∷ s) =
    let one = (i, a) ∷ char_indices (i + 1) (b ∷ c ∷ d ∷ s) in
    let two = (i, (a - 0xc0) * 64 + (b - 0x80)) ∷ char_indices (i + 2) (c ∷ d ∷ s) in
    let three =
      (i, (a - 0xe0) * 4096 + (b - 0x80) * 64 + (c - 0x80)) ∷ char_indices (i + 3) (d ∷ s) in
    let four =
      (i, (a - 0xf0) * 262144 + (b - 0x80) * 4096 + (c - 0x80) * 64 + (d - 0x80))
      ∷ char_indices (i + 4) s in
    if ltb a 0x80 then one else if ltb a 0xe0 then two else if ltb a 0xf0 then three else four

abbrev second : List (ℕ × ℕ) → List ℕ
second [] = []
second ((i, c) ∷ s) = c ∷ second s

-- `str::chars`
unfoldable pub chars : Bytes → List ℕ
unfolding char_indices
chars s = second (char_indices 0 s)

abbrev lower_all : (ℕ → List ℕ) → List ℕ → List ℕ
lower_all f [] = []
lower_all f (c ∷ cs) = f c ++ lower_all f cs

module _ (u : Unicode) where
  -- `s.nfc().flat_map(|c| c.to_lowercase()).collect()`
  unfoldable pub fold : Bytes → Bytes
  unfolding encode chars
  fold s = encode (lower_all u.to_lowercase (chars (u.nfc s)))

-- `str::is_char_boundary`, at an offset within the text: its end, or a byte that does not continue a
-- character.
unfoldable pub is_char_boundary : Bytes → ℕ → Bool
is_char_boundary s i =
    i == 0 || (elim (get_elem? s i) [ none ↦ i == length s | some b ↦ ltb b 0x80 || leb 0xc0 b ])

-- `while end > 0 && !s.is_char_boundary(end) { end -= 1 }`
unfoldable pub boundary_at_or_before : Bytes → ℕ → ℕ
unfolding is_char_boundary
boundary_at_or_before s zero = zero
boundary_at_or_before s (suc end) =
    let rest = boundary_at_or_before s end in if is_char_boundary s (suc end) then suc end else rest

unfoldable pub truncate_to_boundary : Bytes → ℕ → Bytes
unfolding boundary_at_or_before
truncate_to_boundary s max = if leb (length s) max then s else take (boundary_at_or_before s max) s

unfoldable pub has_control_byte : Bytes → Bool
has_control_byte s = any (λ b. ltb b 0x20) s
