-- ===== src/Matching/Fuzzy/Superset.antt =====
-- The candidates are exactly the slots whose classes include those of the query.
use Prim.Native.Nat.{◌-◌}
use yspot.Prelude.{
  ℕ, zero, suc, ◌+◌, ◌*◌, ◌/◌, ◌%◌, ◌≤◌, ◌<◌, ◌≡◌, refl, sym, ap, ◌∙◌, ◌⊎◌, inl, inr, ◌↔◌, Bool,
  true, false, Bool-cases, not, ◌&&◌, ◌||◌, List, [], ◌∷◌, ◌++◌, ltb, if◌then◌else◌, arith,
}
use mathlib.Core.Path.{subst}
use yspot.Index.Columns.{BitSet, bsi_classes}
use yspot.Index.Columns.Bits.{bit_at}
use yspot.Matching.Selector.Sorted.{In, In-append}
use yspot.Matching.Fuzzy.{in_all, word_slots, superset_from, class_superset}

append-In : (x : ℕ) (xs ys : List ℕ) → In x xs ⊎ In x ys → In x (xs ++ ys)
append-In x [] ys (inr h) = h
append-In x [] ys (inl h) = elim h [ ]
append-In x (y ∷ xs) ys (inl (inl e)) = inl e
append-In x (y ∷ xs) ys (inl (inr h)) = inr (append-In x xs ys (inl h))
append-In x (y ∷ xs) ys (inr h) = inr (append-In x xs ys (inr h))

module _ (bsi : ℕ → ℕ → Bool) (wps : ℕ) (qmask : BitSet) where
  -- Every class of the mask has the slot's bit.
  abbrev pub HasClasses : ℕ → Type 0
  HasClasses slot = (c : ℕ) → c < bsi_classes → qmask c ≡ true → bit_at wps bsi c slot ≡ true

  in_all_iff :
      (w b n : ℕ)
      → (in_all bsi wps qmask w b n ≡ true)
        ↔ ((c : ℕ) → c < n → qmask c ≡ true → bsi (c * wps + w) b ≡ true)
  unfolding in_all
  in_all_iff w b zero = (λ h c l. absurd (omega arith), λ h. refl)
  in_all_iff w b (suc n) =
      let ih = in_all_iff w b n in
      (
        (λ h c l q. elim (Bool-cases (yspot.Prelude.◌==◌ c n)) [
          | inl e ↦
              let same : c ≡ n = ground arith in
              let q' : qmask n ≡ true = rw (← same) q in
              let h' : in_all bsi wps qmask w b n && (not (qmask n) || bsi (n * wps + w) b) ≡ true =
                h in
              rw same (ground arith)
          | inr e ↦ ih.0 (ground arith) c (ground arith) q
        ]),
        (λ f.
            let a = ih.1 (λ c l q. f c (omega arith) q) in
            elim (Bool-cases (qmask n)) [
              | inl q ↦ let g = f n (omega arith) q in rw (a, q, g) refl
              | inr q ↦ rw (a, q) refl
            ]),
      )

  has_classes :
      (w b : ℕ)
      → b < 64
      → ((c : ℕ) → c < bsi_classes → qmask c ≡ true → bsi (c * wps + w) b ≡ true)
      → HasClasses (w * 64 + b)
  has_classes w b h f c l q =
      let ew : (w * 64 + b) / 64 ≡ w = omega arith in
      let eb : (w * 64 + b) % 64 ≡ b = omega arith in rw (ew, eb) (f c l q)

  classes_has :
      (w b : ℕ)
      → b < 64
      → HasClasses (w * 64 + b)
      → (c : ℕ) → c < bsi_classes
      → qmask c ≡ true
      → bsi (c * wps + w) b ≡ true
  classes_has w b h f c l q =
      let ew : (w * 64 + b) / 64 ≡ w = omega arith in
      let eb : (w * 64 + b) % 64 ≡ b = omega arith in
      let g = f c l q in
      subst (λ (x : ℕ). bsi (c * wps + x) b ≡ true) ew
        (subst (λ (x : ℕ). bsi (c * wps + (w * 64 + b) / 64) x ≡ true) eb g)

  word_slots_iff :
      (w n slot : ℕ)
      → n ≤ 64
      → In slot (word_slots bsi wps qmask w n)
        ↔ ((w * 64 + (64 - n) ≤ slot) × (slot < w * 64 + 64) × HasClasses slot)
  unfolding word_slots
  word_slots_iff w zero slot h = (λ k. elim k [ ], λ k. absurd (omega (arith, k.0, k.1)))
  word_slots_iff w (suc n) slot h =
      let ih = word_slots_iff w n slot (omega arith) in
      let b = 64 - suc n in
      let here = in_all_iff w b bsi_classes in
      elim (Bool-cases (in_all bsi wps qmask w b bsi_classes)) [
        | inl e ↦ rw e (
          λ k. elim k [
            | inl p ↦ (
              omega arith,
              omega arith,
              subst HasClasses (sym p) (has_classes w b (omega arith) (here.0 e)),
            )
            | inr m ↦ let r = ih.0 m in (omega (arith, r.0), r.1, r.2)
          ],
          λ (a, l, c). elim (Bool-cases (yspot.Prelude.◌==◌ slot (w * 64 + b))) [
            | inl p ↦ inl (ground arith)
            | inr p ↦ inr (ih.1 (ground arith, l, c))
          ],
        )
        | inr e ↦ rw e (
          λ m. let r = ih.0 m in (omega (arith, r.0), r.1, r.2),
          λ (a, l, c). elim (Bool-cases (yspot.Prelude.◌==◌ slot (w * 64 + b))) [
            | inl p ↦
                let same : slot ≡ w * 64 + b = ground arith in
                let all = here.1 (classes_has w b (omega arith) (subst HasClasses same c)) in
                (let no : true ≡ false = sym all ∙ e in ground arith)
            | inr p ↦ ih.1 (ground arith, l, c)
          ],
        )
      ]

  superset_from_iff :
      (w n slot : ℕ)
      → In slot (superset_from bsi wps qmask w n)
        ↔ ((w * 64 ≤ slot) × (slot < (w + n) * 64) × HasClasses slot)
  unfolding superset_from
  superset_from_iff w zero slot = (λ k. elim k [ ], λ k. absurd (omega (arith, k.0, k.1)))
  superset_from_iff w (suc n) slot =
      let ih = superset_from_iff (w + 1) n slot in
      let front = word_slots bsi wps qmask w 64 in
      let word = word_slots_iff w 64 slot (omega arith) in
      (
        (λ h. elim (In-append slot front (superset_from bsi wps qmask (w + 1) n) h) [
          | inl k ↦ let r = word.0 k in (omega (arith, r.0), omega (arith, r.1), r.2)
          | inr k ↦ let r = ih.0 k in (omega (arith, r.0), omega (arith, r.1), r.2)
        ]),
        (λ (a, l, c).
            append-In slot front (superset_from bsi wps qmask (w + 1) n)
              (elim (Bool-cases (ltb slot (w * 64 + 64))) [
                | inl p ↦ inl (word.1 (omega arith, ground arith, c))
                | inr p ↦ inr (ih.1 (ground arith, omega arith, c))
              ])),
      )

-- The fuzzy tier visits exactly the slots of the first `words` words that have the bit of every class
-- of the query.
pub class_superset_iff :
    (bsi : ℕ → ℕ → Bool) (wps words : ℕ) (qmask : BitSet) (slot : ℕ)
    → In slot (class_superset bsi wps words qmask)
      ↔ ((slot < words * 64) × HasClasses bsi wps qmask slot)
unfolding class_superset
class_superset_iff bsi wps words qmask slot =
    let all = superset_from_iff bsi wps qmask 0 words slot in
    (
      λ h. (let r = all.0 h in (omega (arith, r.1), r.2)),
      λ (l, c). all.1 (omega arith, omega arith, c),
    )
