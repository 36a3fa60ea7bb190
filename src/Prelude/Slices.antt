-- ===== src/Prelude/Slices.antt =====
-- Sub-ranges of a list, and the overwriting of one.
use Prim.Native.Nat.{ℕ, zero, suc, ◌+◌, ◌≤◌, ◌<◌}
use mathlib.Core.Path.{◌≡◌, refl, ap, ◌∙◌}
use mathlib.Core.List.{List, [], ◌∷◌, ◌++◌}
use mathlib.Core.Option.{some}
use native.Mathlib.Omega.{arith}
use yspot.Prelude.Lists.{length, get_elem?, take, drop}

module _ {ℓ} {A : Type ℓ} where
  -- `&xs[off..off + len]`
  abbrev pub slice : List A → ℕ → ℕ → List A
  slice xs off len = take len (drop off xs)

  -- `xs[off..off + len].fill(v)`
  unfoldable pub fill : List A → ℕ → ℕ → A → List A
  fill [] off len v = []
  fill (x ∷ xs) (suc off) len v = x ∷ fill xs off len v
  fill (x ∷ xs) zero (suc len) v = v ∷ fill xs zero len v
  fill (x ∷ xs) zero zero v = x ∷ xs

  pub length-fill : (xs : List A) (off len : ℕ) (v : A) → length (fill xs off len v) ≡ length xs
  unfolding fill
  length-fill [] off len v = refl
  length-fill (x ∷ xs) (suc off) len v = ap suc (length-fill xs off len v)
  length-fill (x ∷ xs) zero (suc len) v = ap suc (length-fill xs zero len v)
  length-fill (x ∷ xs) zero zero v = refl

  -- A range before or behind the overwritten one keeps its contents.
  pub slice-fill_before :
      (xs : List A) (off len o l : ℕ) (v : A)
      → o + l ≤ off
      → slice (fill xs off len v) o l ≡ slice xs o l
  unfolding fill
  slice-fill_before [] off len o l v h = refl
  slice-fill_before (x ∷ xs) off len zero zero v h = refl
  slice-fill_before (x ∷ xs) zero len zero (suc l) v h = absurd (omega arith)
  slice-fill_before (x ∷ xs) (suc off) len zero (suc l) v h =
      ap (◌∷◌ x) (slice-fill_before xs off len zero l v (omega arith))
  slice-fill_before (x ∷ xs) zero len (suc o) l v h = absurd (omega arith)
  slice-fill_before (x ∷ xs) (suc off) len (suc o) l v h =
      slice-fill_before xs off len o l v (omega arith)

  pub slice-fill_after :
      (xs : List A) (off len o l : ℕ) (v : A)
      → off + len ≤ o
      → slice (fill xs off len v) o l ≡ slice xs o l
  unfolding fill
  slice-fill_after [] off len o l v h = refl
  slice-fill_after (x ∷ xs) zero zero o l v h = refl
  slice-fill_after (x ∷ xs) (suc off) len zero l v h = absurd (omega arith)
  slice-fill_after (x ∷ xs) zero (suc len) zero l v h = absurd (omega arith)
  slice-fill_after (x ∷ xs) (suc off) len (suc o) l v h =
      slice-fill_after xs off len o l v (omega arith)
  slice-fill_after (x ∷ xs) zero (suc len) (suc o) l v h =
      slice-fill_after xs zero len o l v (omega arith)

  pub get_elem?-fill_in :
      (xs : List A) (off len i : ℕ) (v : A)
      → off ≤ i
      → i < off + len
      → i < length xs
      → get_elem? (fill xs off len v) i ≡ some v
  unfolding fill
  get_elem?-fill_in [] off len i v a b c = elim c [ ]
  get_elem?-fill_in (x ∷ xs) zero zero i v a b c = absurd (omega arith)
  get_elem?-fill_in (x ∷ xs) zero (suc len) zero v a b c = refl
  get_elem?-fill_in (x ∷ xs) zero (suc len) (suc i) v a b c =
      get_elem?-fill_in xs zero len i v (omega arith) (omega arith) (omega arith)
  get_elem?-fill_in (x ∷ xs) (suc off) len zero v a b c = absurd (omega arith)
  get_elem?-fill_in (x ∷ xs) (suc off) len (suc i) v a b c =
      get_elem?-fill_in xs off len i v (omega arith) (omega arith) (omega arith)

  pub get_elem?-fill_before :
      (xs : List A) (off len i : ℕ) (v : A)
      → i < off
      → get_elem? (fill xs off len v) i ≡ get_elem? xs i
  unfolding fill
  get_elem?-fill_before [] off len i v a = refl
  get_elem?-fill_before (x ∷ xs) zero len i v a = absurd (omega arith)
  get_elem?-fill_before (x ∷ xs) (suc off) len zero v a = refl
  get_elem?-fill_before (x ∷ xs) (suc off) len (suc i) v a =
      get_elem?-fill_before xs off len i v (omega arith)

  pub get_elem?-fill_after :
      (xs : List A) (off len i : ℕ) (v : A)
      → off + len ≤ i
      → get_elem? (fill xs off len v) i ≡ get_elem? xs i
  unfolding fill
  get_elem?-fill_after [] off len i v a = refl
  get_elem?-fill_after (x ∷ xs) zero zero i v a = refl
  get_elem?-fill_after (x ∷ xs) zero (suc len) zero v a = absurd (omega arith)
  get_elem?-fill_after (x ∷ xs) zero (suc len) (suc i) v a =
      get_elem?-fill_after xs zero len i v (omega arith)
  get_elem?-fill_after (x ∷ xs) (suc off) len zero v a = absurd (omega arith)
  get_elem?-fill_after (x ∷ xs) (suc off) len (suc i) v a =
      get_elem?-fill_after xs off len i v (omega arith)

  -- Appending leaves every range that was in bounds.
  pub slice-append_left :
      (xs ys : List A) (o l : ℕ) → o + l ≤ length xs → slice (xs ++ ys) o l ≡ slice xs o l
  slice-append_left [] ys zero zero h = refl
  slice-append_left [] ys zero (suc l) h = absurd (omega arith)
  slice-append_left [] ys (suc o) l h = absurd (omega arith)
  slice-append_left (x ∷ xs) ys zero zero h = refl
  slice-append_left (x ∷ xs) ys zero (suc l) h =
      ap (◌∷◌ x) (slice-append_left xs ys zero l (omega arith))
  slice-append_left (x ∷ xs) ys (suc o) l h = slice-append_left xs ys o l (omega arith)

  take-length-append : (ys zs : List A) → take (length ys) (ys ++ zs) ≡ ys
  take-length-append [] zs = refl
  take-length-append (y ∷ ys) zs = ap (◌∷◌ y) (take-length-append ys zs)

  -- The range that was appended.
  pub slice-append_at : (xs ys zs : List A) → slice (xs ++ (ys ++ zs)) (length xs) (length ys) ≡ ys
  slice-append_at [] ys zs = take-length-append ys zs
  slice-append_at (x ∷ xs) ys zs = slice-append_at xs ys zs

  take-length : (ys : List A) → take (length ys) ys ≡ ys
  take-length [] = refl
  take-length (y ∷ ys) = ap (◌∷◌ y) (take-length ys)

  pub slice-append_end : (xs ys : List A) → slice (xs ++ ys) (length xs) (length ys) ≡ ys
  slice-append_end [] ys = take-length ys
  slice-append_end (x ∷ xs) ys = slice-append_end xs ys

  pub length-slice : (xs : List A) (o l : ℕ) → o + l ≤ length xs → length (slice xs o l) ≡ l
  length-slice [] zero zero h = refl
  length-slice [] zero (suc l) h = absurd (omega arith)
  length-slice [] (suc o) l h = absurd (omega arith)
  length-slice (x ∷ xs) zero zero h = refl
  length-slice (x ∷ xs) zero (suc l) h = ap suc (length-slice xs zero l (omega arith))
  length-slice (x ∷ xs) (suc o) l h = length-slice xs o l (omega arith)

  -- A range read byte by byte.
  pub get_elem?-slice :
      (xs : List A) (o l i : ℕ) → i < l → get_elem? (slice xs o l) i ≡ get_elem? xs (o + i)
  get_elem?-slice xs o zero i h = elim h [ ]
  get_elem?-slice [] zero (suc l) i h = refl
  get_elem?-slice (x ∷ xs) zero (suc l) zero h =
      let e : zero ≡ 0 + zero = omega arith in ap (get_elem? (x ∷ xs)) e
  get_elem?-slice (x ∷ xs) zero (suc l) (suc i) h =
      let e : suc (0 + i) ≡ 0 + suc i = omega arith in
      get_elem?-slice xs zero l i (omega arith) ∙ ap (get_elem? (x ∷ xs)) e
  get_elem?-slice [] (suc o) (suc l) i h = refl
  get_elem?-slice (x ∷ xs) (suc o) (suc l) i h =
      let e : suc (o + i) ≡ suc o + i = omega arith in
      get_elem?-slice xs o (suc l) i h ∙ ap (get_elem? (x ∷ xs)) e
