-- ===== src/Text/Laws.antt =====
-- Truncation keeps a text within its bound, and cuts it between two characters.
use yspot.Prelude.{
  ℕ, zero, suc, ◌≤◌, Bytes, length, arith, leb, take, List, [], ◌∷◌, Bool-cases, inl, inr,
}
use yspot.Text.{is_char_boundary, boundary_at_or_before, truncate_to_boundary}

pub length-take_le {ℓ} : {A : Type ℓ} (n : ℕ) (xs : List A) → length (take n xs) ≤ n
length-take_le zero xs = omega arith
length-take_le (suc n) [] = omega arith
length-take_le (suc n) (x ∷ xs) = omega (arith, length-take_le n xs)

pub boundary_at_or_before-le : (s : Bytes) (n : ℕ) → boundary_at_or_before s n ≤ n
unfolding boundary_at_or_before
boundary_at_or_before-le s zero = omega arith
boundary_at_or_before-le s (suc n) = elim (Bool-cases (is_char_boundary s (suc n))) [
  | inl y ↦ rw y (omega arith)
  | inr n' ↦ rw n' (omega (arith, boundary_at_or_before-le s n))
]

pub length-truncate_to_boundary : (s : Bytes) (n : ℕ) → length (truncate_to_boundary s n) ≤ n
unfolding truncate_to_boundary
length-truncate_to_boundary s n = elim (Bool-cases (leb (length s) n)) [
  | inl y ↦ rw y (ground arith)
  | inr n' ↦
      rw n'
        (omega (arith, length-take_le (boundary_at_or_before s n) s, boundary_at_or_before-le s n))
]
