-- ===== src/Matching/Selector/Dedup.antt =====
-- `sort` by slot and `dedup_by_key`: one offer for each slot, the best.
use yspot.Prelude.{
  ◌<◌, ◌≡◌, ◌≢◌, refl, sym, ap, ◌∙◌, inl, inr, false, Bool-cases, List, [], ◌∷◌, ◌==◌, ==_iff,
  arith,
}
use yspot.Index.Table.Valid.{All}
use yspot.Matching.Score.{Scored, better}
use yspot.Matching.Selector.{by_slot, keep_unless_same, dedup_by_slot, sort_by}
use yspot.Matching.Selector.Sorted.{
  In, IsOrder, IsSorted, NotBefore, In_of_All, All-In, sort_by-IsSorted, In-sort_by, sort_by-In,
}

pub by_slot-IsOrder : IsOrder by_slot
by_slot-IsOrder = record { asym = λ a b h. ground arith; chain = λ a b c h k. ground arith }

-- An element of the list for the slot of `x`, which `x` does not beat.
pub record Beats (ds : List Scored) (x : Scored) : Type 0 where
  pub one : Scored
  pub held : In one ds
  pub same : one.eidx ≡ x.eidx
  pub not_worse : better x one ≡ false

abbrev pub Above : Scored → Scored → Type 0
Above x y = x.eidx < y.eidx

-- Slots that rise.
abbrev pub Rises : List Scored → Type 0
Rises [] = Unit
Rises (x ∷ xs) = All (Above x) xs × Rises xs

-- The first of a sorted list and what is kept of the rest.
pub record Kept (xs ds : List Scored) : Type 0 where
  pub from : (d : Scored) → In d ds → In d xs
  pub covers : (x : Scored) → In x xs → Beats ds x
  pub rises : Rises ds

weaken : (ds : List Scored) (d x : Scored) → Beats ds x → Beats (d ∷ ds) x
weaken ds d x b = record { one = b.one; held = inr b.held; same = b.same; not_worse = b.not_worse }

-- `y` stands behind `x` in the sorted list.
keeps_same :
    (x y : Scored) (xs ys : List Scored)
    → All (NotBefore by_slot x) xs
    → Kept xs (y ∷ ys)
    → x.eidx ≡ y.eidx
    → Kept (x ∷ xs) (x ∷ ys)
keeps_same x y xs ys s k e = record {
  from = λ d h. elim h [ inl p ↦ inl p | inr p ↦ inr (k.from d (inr p)) ];
  covers = λ z h. elim h [
    | inl p ↦ record {
      one = x;
      held = inl refl;
      same = ap (λ (w : Scored). w.eidx) (sym p);
      not_worse = rw p (ground arith);
    }
    | inr p ↦
        let b = k.covers z p in
        elim b.held [
          | inl q ↦
              let slot : y.eidx ≡ z.eidx = ap (λ (w : Scored). w.eidx) (sym q) ∙ b.same in
              let n = In_of_All (NotBefore by_slot x) xs z s p in
              record {
                one = x;
                held = inl refl;
                same = e ∙ slot;
                not_worse = let g = e ∙ slot in ground arith;
              }
          | inr q ↦ record { one = b.one; held = inr q; same = b.same; not_worse = b.not_worse }
        ]
  ];
  rises = (
    All-In (Above x) ys (λ z h. let a = In_of_All (Above y) ys z k.rises.0 h in omega arith),
    k.rises.1,
  );
}

keeps_other :
    (x y : Scored) (xs ys : List Scored)
    → All (NotBefore by_slot x) xs
    → Kept xs (y ∷ ys)
    → x.eidx ≢ y.eidx
    → Kept (x ∷ xs) (x ∷ y ∷ ys)
keeps_other x y xs ys s k e =
    let n = In_of_All (NotBefore by_slot x) xs y s (k.from y (inl refl)) in
    let up : x.eidx < y.eidx = ground arith in
    record {
      from = λ d h. elim h [ inl p ↦ inl p | inr p ↦ inr (k.from d p) ];
      covers = λ z h. elim h [
        | inl p ↦ record {
          one = x;
          held = inl refl;
          same = ap (λ (w : Scored). w.eidx) (sym p);
          not_worse = rw p (ground arith);
        }
        | inr p ↦ weaken (y ∷ ys) x z (k.covers z p)
      ];
      rises = (
        (
          up,
          All-In (Above x) ys (λ z h. let a = In_of_All (Above y) ys z k.rises.0 h in omega arith),
        ),
        k.rises,
      );
    }

keep-Kept :
    (x : Scored) (xs ds : List Scored)
    → All (NotBefore by_slot x) xs
    → Kept xs ds
    → Kept (x ∷ xs) (keep_unless_same x ds)
keep-Kept x xs [] s k = record {
  from = λ d h. elim h [ inl p ↦ inl p | inr p ↦ absurd p ];
  covers = λ z h. elim h [
    | inl p ↦ record {
      one = x;
      held = inl refl;
      same = ap (λ (w : Scored). w.eidx) (sym p);
      not_worse = rw p (ground arith);
    }
    | inr p ↦ absurd ((k.covers z p).held)
  ];
  rises = (tt, tt);
}
keep-Kept x xs (y ∷ ys) s k = elim (Bool-cases (x.eidx == y.eidx)) [
  | inl b ↦ rw b (keeps_same x y xs ys s k ((==_iff x.eidx y.eidx).0 b))
  | inr b ↦ rw b (keeps_other x y xs ys s k (ground arith))
]

dedup-Kept : (xs : List Scored) → IsSorted by_slot xs → Kept xs (dedup_by_slot xs)
unfolding dedup_by_slot
dedup-Kept [] s = record { from = λ d h. h; covers = λ x h. absurd h; rises = tt }
dedup-Kept (x ∷ xs) s = keep-Kept x xs (dedup_by_slot xs) s.0 (dedup-Kept xs s.1)

pub sorted_dedup-Kept : (xs : List Scored) → Kept xs (dedup_by_slot (sort_by by_slot xs))
sorted_dedup-Kept xs =
    let k = dedup-Kept (sort_by by_slot xs) (sort_by-IsSorted by_slot by_slot-IsOrder xs) in
    record {
      from = λ d h. In-sort_by by_slot d xs (k.from d h);
      covers = λ x h. k.covers x (sort_by-In by_slot x xs h);
      rises = k.rises;
    }

-- Two elements of a list that rises are one if their slots are.
pub Rises-unique :
    (xs : List Scored) (a b : Scored) → Rises xs → In a xs → In b xs → a.eidx ≡ b.eidx → a ≡ b
Rises-unique [] a b r h _ e = elim h [ ]
Rises-unique (x ∷ xs) a b r (inl p) (inl q) e = p ∙ sym q
Rises-unique (x ∷ xs) a b r (inl p) (inr q) e =
    let l = In_of_All (Above x) xs b r.0 q in
    let m = ap (λ (w : Scored). w.eidx) p in absurd (omega arith)
Rises-unique (x ∷ xs) a b r (inr p) (inl q) e =
    let l = In_of_All (Above x) xs a r.0 p in
    let m = ap (λ (w : Scored). w.eidx) q in absurd (omega arith)
Rises-unique (x ∷ xs) a b r (inr p) (inr q) e = Rises-unique xs a b r.1 p q e
