-- ===== src/Matching/Ranges/Merge.antt =====
-- Merged ranges stand apart in rising order, and cover what the ranges covered.
use Prim.Native.Nat.{max}
use yspot.Prelude.{
  ℕ, ◌≤◌, ◌<◌, refl, ◌⊎◌, inl, inr, ◌↔◌, Bool-cases, List, [], ◌∷◌, ltb, leb, arith,
}
use mathlib.Core.Path.{subst}
use yspot.Index.Table.Valid.{All}
use yspot.Matching.Selector.{sort_by}
use yspot.Matching.Selector.Sorted.{
  In, IsOrder, IsSorted, NotBefore, sort_by-IsSorted, In-sort_by, sort_by-In,
}
use yspot.Matching.Ranges.{Range, range_before, merge_from, merge_sorted, merge_ranges}

-- The unit `x` is in one of the ranges.
abbrev pub Covers : List Range → ℕ → Type 0
Covers v x = (r : Range) × In r v × (r.0 ≤ x) × (x < r.1)

-- Each range begins behind the end of the one before.
abbrev pub StandApart : List Range → Type 0
StandApart [] = Unit
StandApart ((s, e) ∷ v) = All (λ (r : Range). e < r.0) v × StandApart v

abbrev IsRange : Range → Type 0
IsRange r = r.0 ≤ r.1

range_before-IsOrder : IsOrder range_before
range_before-IsOrder = record { asym = λ a b h. ground arith; chain = λ a b c h k. ground arith }

starts_from :
    (s e : ℕ) (v : List Range) → IsSorted range_before ((s, e) ∷ v) → All (λ (r : Range). s ≤ r.0) v
starts_from s e v h = at v h.0
  where
    at : (v : List Range) → All (NotBefore range_before (s, e)) v → All (λ (r : Range). s ≤ r.0) v
    at [] a = tt
    at (r ∷ v) a = (let b = a.0 in ground arith, at v a.1)

merge_from-above :
    (lo s e : ℕ) (v : List Range)
    → lo < s
    → All (λ (r : Range). s ≤ r.0) v
    → IsSorted range_before v
    → All (λ (r : Range). lo < r.0) (merge_from (s, e) v)
unfolding merge_from
merge_from-above lo s e [] l a o = (l, tt)
merge_from-above lo s e ((s', e') ∷ v) l a o = elim (Bool-cases (leb s' e)) [
  | inl b ↦ rw b (merge_from-above lo s (max e e') v l a.1 o.1)
  | inr b ↦
      let m = a.0 in rw b (l, merge_from-above lo s' e' v (omega arith) (starts_from s' e' v o) o.1)
]

merge_from-StandApart :
    (s e : ℕ) (v : List Range)
    → All (λ (r : Range). s ≤ r.0) v
    → IsSorted range_before v
    → StandApart (merge_from (s, e) v)
unfolding merge_from
merge_from-StandApart s e [] a o = (tt, tt)
merge_from-StandApart s e ((s', e') ∷ v) a o = elim (Bool-cases (leb s' e)) [
  | inl b ↦ rw b (merge_from-StandApart s (max e e') v a.1 o.1)
  | inr b ↦
      let from = starts_from s' e' v o in
      rw b
        (merge_from-above e s' e' v (ground arith) from o.1, merge_from-StandApart s' e' v from o.1)
]

Covers-cons : (r : Range) (v : List Range) (x : ℕ) → Covers v x → Covers (r ∷ v) x
Covers-cons r v x (q, h, a, b) = (q, inr h, a, b)

-- To cover by a list is to cover by its first range or by the rest.
Covers-split :
    (s e : ℕ) (v : List Range) (x : ℕ) → Covers ((s, e) ∷ v) x → ((s ≤ x) × (x < e)) ⊎ Covers v x
Covers-split s e v x (q, inl p, a, b) = inl (subst (λ (r : Range). (r.0 ≤ x) × (x < r.1)) p (a, b))
Covers-split s e v x (q, inr h, a, b) = inr (q, h, a, b)

merge_from-Covers :
    (s e : ℕ) (v : List Range) (x : ℕ)
    → All (λ (r : Range). s ≤ r.0) v
    → IsSorted range_before v
    → Covers (merge_from (s, e) v) x ↔ Covers ((s, e) ∷ v) x
unfolding merge_from
merge_from-Covers s e [] x a o = (λ h. h, λ h. h)
merge_from-Covers s e ((s', e') ∷ v) x a o = elim (Bool-cases (leb s' e)) [
  | inl b ↦
      let ih = merge_from-Covers s (max e e') v x a.1 o.1 in
      let m = a.0 in
      rw b (
        λ h. elim (Covers-split s (max e e') v x (ih.0 h)) [
          | inr k ↦ Covers-cons (s, e) ((s', e') ∷ v) x (Covers-cons (s', e') v x k)
          | inl (l, k) ↦ elim (Bool-cases (ltb x e)) [
            | inl c ↦ ((s, e), inl refl, l, ground arith)
            | inr c ↦ ((s', e'), inr (inl refl), ground arith, ground arith)
          ]
        ],
        λ h. ih.1 (elim (Covers-split s e ((s', e') ∷ v) x h) [
          | inl (l, k) ↦ ((s, max e e'), inl refl, l, omega arith)
          | inr k ↦ elim (Covers-split s' e' v x k) [
            | inl (p, q) ↦ ((s, max e e'), inl refl, omega arith, omega arith)
            | inr q ↦ Covers-cons (s, max e e') v x q
          ]
        ]),
      )
  | inr b ↦
      let ih = merge_from-Covers s' e' v x (starts_from s' e' v o) o.1 in
      rw b (
        λ h. elim (Covers-split s e (merge_from (s', e') v) x h) [
          | inl (l, k) ↦ ((s, e), inl refl, l, k)
          | inr k ↦ Covers-cons (s, e) ((s', e') ∷ v) x (ih.0 k)
        ],
        λ h. elim (Covers-split s e ((s', e') ∷ v) x h) [
          | inl (l, k) ↦ ((s, e), inl refl, l, k)
          | inr k ↦ Covers-cons (s, e) (merge_from (s', e') v) x (ih.1 k)
        ],
      )
]

Covers-In : (v w : List Range) (x : ℕ) → ((r : Range) → In r v → In r w) → Covers v x → Covers w x
Covers-In v w x f (r, h, a, b) = (r, f r h, a, b)

merge_sorted_lem :
    (v : List Range)
    → IsSorted range_before v
    → StandApart (merge_sorted v) × ((x : ℕ) → Covers (merge_sorted v) x ↔ Covers v x)
merge_sorted_lem [] o = (tt, λ x. (λ h. h, λ h. h))
merge_sorted_lem ((s, e) ∷ v) o =
    let a = starts_from s e v o in
    (merge_from-StandApart s e v a o.1, λ x. merge_from-Covers s e v x a o.1)

-- Merged ranges stand apart in rising order, and cover exactly the units that the ranges cover.
pub merge_ranges-Covers :
    (v : List Range)
    → StandApart (merge_ranges v) × ((x : ℕ) → Covers (merge_ranges v) x ↔ Covers v x)
unfolding merge_ranges
merge_ranges-Covers v =
    let sorted = sort_by range_before v in
    let (apart, same) =
      merge_sorted_lem sorted (sort_by-IsSorted range_before range_before-IsOrder v) in
    (
      apart,
      λ x. (
        λ h. Covers-In sorted v x (λ r k. In-sort_by range_before r v k) ((same x).0 h),
        λ h. (same x).1 (Covers-In v sorted x (λ r k. sort_by-In range_before r v k) h),
      ),
    )
