-- ===== src/Matching/Selector/Page/Drain.antt =====
-- Draining the heap gives the page.
use yspot.Prelude.{
  ℕ, zero, suc, ◌*◌, ◌≤◌, ◌<◌, ◌≡◌, ◌≢◌, refl, sym, ap, ◌∙◌, ◌⊎◌, inl, inr, Bool, true, false,
  Bool-cases, List, [], ◌∷◌, length, take, drop, ◌==◌, ==_iff, arith,
}
use mathlib.Core.Path.{subst}
use yspot.Index.Table.Valid.{All}
use yspot.Matching.Score.{Scored, better}
use yspot.Matching.Selector.{worse, insert_by, dedup_by_slot, sort_by, by_slot}
use yspot.Matching.Selector.Sorted.{
  In, In-drop, In-take, In-split, IsSorted, NotBefore, In_of_All, All-In, sort_by-IsSorted,
  In-sort_by, sort_by-In, In-insert_by,
}
use yspot.Matching.Selector.Heap.{better-IsOrder}
use yspot.Matching.Selector.Dedup.{Rises, Above, Rises-unique, Kept, sorted_dedup-Kept}
use yspot.Matching.Selector.Page.{
  count_slot, Falls, IsPage, covered_length, count_slot-drop, sorted_split, Falls-take, Falls-drop,
  length-take-min, In-drop-length,
}

-- Slots that differ pairwise.
abbrev pub OtherSlot : Scored → Scored → Type 0
OtherSlot x y = x.eidx ≢ y.eidx

abbrev pub Differ : List Scored → Type 0
Differ [] = Unit
Differ (x ∷ xs) = All (OtherSlot x) xs × Differ xs

pub Rises-Differ : (xs : List Scored) → Rises xs → Differ xs
Rises-Differ [] r = tt
Rises-Differ (x ∷ xs) r = (
  All-In (OtherSlot x) xs (λ y h. let l = In_of_All (Above x) xs y r.0 h in λ e. omega arith),
  Rises-Differ xs r.1,
)

insert_by-Differ :
    (before : Scored → Scored → Bool) (x : Scored) (xs : List Scored)
    → All (OtherSlot x) xs
    → Differ xs
    → Differ (insert_by before x xs)
unfolding insert_by
insert_by-Differ before x [] a d = (tt, tt)
insert_by-Differ before x (y ∷ ys) a d = elim (Bool-cases (before y x)) [
  | inl b ↦ rw b (
    All-In (OtherSlot y) (insert_by before x ys) (λ z h. elim (In-insert_by before x z ys h) [
      | inl e ↦ λ p. a.0 (sym (p ∙ ap (λ (w : Scored). w.eidx) e))
      | inr k ↦ In_of_All (OtherSlot y) ys z d.0 k
    ]),
    insert_by-Differ before x ys a.1 d.1,
  )
  | inr b ↦ rw b (a, d)
]

pub sort_by-Differ :
    (before : Scored → Scored → Bool) (xs : List Scored) → Differ xs → Differ (sort_by before xs)
unfolding sort_by
sort_by-Differ before [] d = tt
sort_by-Differ before (x ∷ xs) d =
    insert_by-Differ before x (sort_by before xs)
      (All-In (OtherSlot x) (sort_by before xs)
        (λ y h. In_of_All (OtherSlot x) xs y d.0 (In-sort_by before y xs h)))
      (sort_by-Differ before xs d.1)

pub Differ-take : (n : ℕ) (xs : List Scored) → Differ xs → Differ (take n xs)
Differ-take zero xs d = tt
Differ-take (suc n) [] d = tt
Differ-take (suc n) (x ∷ xs) d = (
  All-In (OtherSlot x) (take n xs) (λ y h. In_of_All (OtherSlot x) xs y d.0 (In-take n xs y h)),
  Differ-take n xs d.1,
)

pub sorted-Falls : (xs : List Scored) → IsSorted better xs → Differ xs → Falls xs
sorted-Falls [] s d = tt
sorted-Falls (x ∷ xs) s d = (
  All-In (λ y. better x y ≡ true) xs
      (λ y h.
        let n = In_of_All (NotBefore better x) xs y s.0 h in
        let o = In_of_All (OtherSlot x) xs y d.0 h in ground arith),
  sorted-Falls xs s.1 d.1,
)

-- ---- the page of a heap that is the end of a sorted list

module _ (all heap : List Scored) (n m cut : ℕ) (sorted : IsSorted worse all)
    (end : heap ≡ drop cut all) (few : (i : ℕ) → count_slot i all ≤ m) (positive : 0 < m)
    (big : (0 < cut) → n * m ≤ length heap) where
  abbrev kept : List Scored
  kept = dedup_by_slot (sort_by by_slot heap)

  abbrev line : List Scored
  line = sort_by better kept

  k : Kept heap kept
  k = sorted_dedup-Kept heap

  line-Falls : Falls line
  line-Falls =
      sorted-Falls line (sort_by-IsSorted better better-IsOrder kept)
        (sort_by-Differ better kept (Rises-Differ kept k.rises))

  kept_of_line : (p : Scored) → In p line → In p heap
  kept_of_line p h = k.from p (In-sort_by better p kept h)

  offered_of_heap : (p : Scored) → In p heap → In p all
  offered_of_heap p h = In-drop cut all p (subst (In p) end h)

  -- The best offer of the slot of one that was dropped or kept.
  beaten : (p x : Scored) → In p line → In x all → x.eidx ≡ p.eidx → better x p ≡ false
  beaten p x h i e = elim (In-split cut all x i) [
    | inl t ↦ sorted_split cut all x p sorted t (subst (In p) end (kept_of_line p h))
    | inr t ↦
        let b = k.covers x (subst (In x) (sym end) t) in
        let one =
          Rises-unique kept b.one p k.rises b.held (In-sort_by better p kept h) (b.same ∙ e) in
        subst (λ w. better x w ≡ false) one b.not_worse
  ]

  -- Where the sorted list has more than the heap, there are enough slots for a page.
  enough : 0 < cut → n ≤ length line
  enough c =
      let l =
        covered_length m line heap
          (λ x h. let b = k.covers x h in (b.one, sort_by-In better b.one kept b.held, b.same))
          (λ i. rw end (let a = count_slot-drop i cut all in let f = few i in omega arith)) in
      let a = big c in let z = positive in grind arith

  slot_listed :
      (i : ℕ) (ps : List Scored)
      → ((p : Scored) × In p ps × (p.eidx ≡ i)) ⊎ ((p : Scored) → In p ps → p.eidx ≢ i)
  slot_listed i [] = inr (λ p h. absurd h)
  slot_listed i (q ∷ qs) = elim (Bool-cases (q.eidx == i)) [
    | inl b ↦ inl (q, inl refl, (==_iff q.eidx i).0 b)
    | inr b ↦ elim (slot_listed i qs) [
      | inl r ↦ inl (r.0, inr r.1, r.2)
      | inr f ↦ inr (λ p h. elim h [
        | inl e ↦ λ s. let t = ap (λ (w : Scored). w.eidx) e in ground arith
        | inr g ↦ f p g
      ])
    ]
  ]

  complete :
      (x : Scored)
      → In x all
      → ((p : Scored) × In p (take n line) × (p.eidx ≡ x.eidx))
        ⊎ ((length (take n line) ≡ n) × ((p : Scored) → In p (take n line) → better p x ≡ true))
  complete x i = elim (slot_listed x.eidx (take n line)) [
    | inl r ↦ inl r
    | inr f ↦ elim (In-split cut all x i) [
      | inl t ↦
          let c : 0 < cut = positive_of cut all x t in
          let l = length-take-min n line in
          let s = enough c in
          inr (
            omega arith,
            λ p h.
                let g =
                  sorted_split cut all x p sorted t
                    (subst (In p) end (kept_of_line p (In-take n line p h))) in
                let o = f p h in ground arith,
          )
      | inr t ↦
          let b = k.covers x (subst (In x) (sym end) t) in
          elim (In-split n line b.one (sort_by-In better b.one kept b.held)) [
            | inl q ↦ absurd (f b.one q b.same)
            | inr q ↦
                let l = length-take-min n line in
                let s = In-drop-length n line b.one q in
                inr (
                  omega arith,
                  λ p h.
                      let g = Falls-drop n line p b.one line-Falls h q in
                      let w = b.not_worse in let o = f p h in ground arith,
                )
          ]
    ]
  ]
    where
      positive_of : (c : ℕ) (xs : List Scored) (x : Scored) → In x (take c xs) → 0 < c
      positive_of zero xs x h = absurd h
      positive_of (suc c) xs x h = omega arith

  pub take-IsPage : IsPage n all (take n line)
  take-IsPage = record {
    falls = Falls-take n line line-Falls;
    fits = let l = length-take-min n line in omega arith;
    offered = λ p h. offered_of_heap p (kept_of_line p (In-take n line p h));
    best = λ p x h i e. beaten p x (In-take n line p h) i e;
    complete = complete;
  }
