-- ===== src/Matching/Selector/Page.antt =====
-- The page is the best of everything that was offered: the promise of `Selector`.
pub mod Drain
pub mod Offers
use Prim.Native.Nat.{◌-◌, min, max}
use yspot.Prelude.{
  ℕ, zero, suc, ◌+◌, ◌*◌, ◌^◌, ◌≤◌, ◌<◌, ◌≡◌, ◌≢◌, refl, sym, ap, ◌∙◌, ◌⊎◌, inl, inr, Bool, true,
  false, Bool-cases, List, [], ◌∷◌, Option, none, some, length, take, drop, ltb, leb, ◌==◌, ==_iff,
  ◌&&◌, ◌||◌, if◌then◌else◌, arith,
}
use mathlib.Core.Path.{subst}
use yspot.Index.Table.Valid.{All}
use yspot.Matching.Score.{Scored, better}
use yspot.Matching.Selector.{
  Selector, worse, pushed, insert_by, new_selector, drain, dedup_by_slot, sort_by, by_slot,
}
use yspot.Matching.Selector.Sorted.{
  In, In-drop, In-take, In-split, IsSorted, NotBefore, In_of_All, All-In, sort_by-IsSorted,
  In-sort_by, sort_by-In, length-sort_by, insert_by-In, length-insert_by,
}
use yspot.Matching.Selector.Heap.{
  Offer, offer_all, ranked, Keeps, offer_all-Keeps, new_selector-Keeps, better-IsOrder,
  length-drop_le,
}
use yspot.Matching.Selector.Dedup.{Beats, Rises, Rises-unique, Kept, sorted_dedup-Kept}

-- How many of the list have the slot.
abbrev pub count_slot : ℕ → List Scored → ℕ
count_slot i [] = 0
count_slot i (x ∷ xs) = (if x.eidx == i then 1 else 0) + count_slot i xs

abbrev pub Falls : List Scored → Type 0
Falls [] = Unit
Falls (x ∷ xs) = All (λ y. better x y ≡ true) xs × Falls xs

-- The page `ps` of at most `n` of what was offered, `all`: in strictly falling order, each the best offer
-- of its slot; every slot that was offered has its place, or the page is full of better ones.
pub record IsPage (n : ℕ) (all ps : List Scored) : Type 0 where
  pub falls : Falls ps
  pub fits : length ps ≤ n
  pub offered : (p : Scored) → In p ps → In p all
  pub best : (p x : Scored) → In p ps → In x all → x.eidx ≡ p.eidx → better x p ≡ false
  pub complete :
      (x : Scored)
      → In x all
      → ((p : Scored) × In p ps × (p.eidx ≡ x.eidx))
        ⊎ ((length ps ≡ n) × ((p : Scored) → In p ps → better p x ≡ true))

-- ---- counting

abbrev without : ℕ → List Scored → List Scored
without i [] = []
without i (x ∷ xs) = if x.eidx == i then without i xs else x ∷ without i xs

length-without : (i : ℕ) (xs : List Scored) → length xs ≡ count_slot i xs + length (without i xs)
length-without i [] = omega arith
length-without i (x ∷ xs) =
    let ih = length-without i xs in
    elim (Bool-cases (x.eidx == i)) [ inl b ↦ rw b (omega arith) | inr b ↦ rw b (omega arith) ]

count_slot-without : (j i : ℕ) (xs : List Scored) → count_slot j (without i xs) ≤ count_slot j xs
count_slot-without j i [] = omega arith
count_slot-without j i (x ∷ xs) =
    let ih = count_slot-without j i xs in
    elim (Bool-cases (x.eidx == i)) [ inl b ↦ rw b (omega arith) | inr b ↦ rw b (omega arith) ]

In-without : (i : ℕ) (xs : List Scored) (x : Scored) → In x (without i xs) → In x xs × (x.eidx ≢ i)
In-without i [] x h = absurd h
In-without i (y ∷ ys) x h = elim (Bool-cases (y.eidx == i)) [
  | inl b ↦
      let h' : In x (without i ys) = rw b at h in let r = In-without i ys x h' in (inr r.0, r.1)
  | inr b ↦
      let h' : In x (y ∷ without i ys) = rw b at h in
      elim h' [
        | inl e ↦ (inl e, λ p. let q = ap (λ (w : Scored). w.eidx) e in ground arith)
        | inr k ↦ let r = In-without i ys x k in (inr r.0, r.1)
      ]
]

-- A list whose slots are those of `ds`, each at most `m` times, has at most `m` elements for each of `ds`.
pub covered_length :
    (m : ℕ) (ds xs : List Scored)
    → ((x : Scored) → In x xs → (d : Scored) × In d ds × (d.eidx ≡ x.eidx))
    → ((i : ℕ) → count_slot i xs ≤ m)
    → length xs ≤ m * length ds
covered_length m [] [] f c = omega arith
covered_length m [] (x ∷ xs) f c = let (d, h, e) = f x (inl refl) in absurd h
covered_length m (d ∷ ds) xs f c =
    let l = length-without d.eidx xs in
    let one = c d.eidx in
    let ih =
      covered_length m ds (without d.eidx xs)
        (λ x h.
          let (k, ne) = In-without d.eidx xs x h in
          let (e, held, same) = f x k in
          elim held [
            | inl p ↦ absurd (ne (sym same ∙ ap (λ (w : Scored). w.eidx) p))
            | inr q ↦ (e, q, same)
          ])
        (λ i. let a = c i in let b = count_slot-without i d.eidx xs in omega arith) in
    let n : m * suc (length ds) ≡ m + m * length ds = grind arith in rw n (omega arith)

pub count_slot-drop : (i n : ℕ) (xs : List Scored) → count_slot i (drop n xs) ≤ count_slot i xs
count_slot-drop i zero xs = omega arith
count_slot-drop i (suc n) [] = omega arith
count_slot-drop i (suc n) (x ∷ xs) = let ih = count_slot-drop i n xs in omega arith

-- ---- lists in order

-- What stands in front of the end of a sorted list is not better than any of the end.
pub sorted_split :
    (n : ℕ) (xs : List Scored) (x y : Scored)
    → IsSorted worse xs
    → In x (take n xs)
    → In y (drop n xs)
    → better x y ≡ false
sorted_split zero xs x y s h k = absurd h
sorted_split (suc n) [] x y s h k = absurd h
sorted_split (suc n) (z ∷ zs) x y s (inl e) k =
    let b = In_of_All (NotBefore worse z) zs y s.0 (In-drop n zs y k) in rw e b
sorted_split (suc n) (z ∷ zs) x y s (inr h) k = sorted_split n zs x y s.1 h k

pub Falls-take : (n : ℕ) (xs : List Scored) → Falls xs → Falls (take n xs)
Falls-take zero xs f = tt
Falls-take (suc n) [] f = tt
Falls-take (suc n) (x ∷ xs) f = (
  All-In (λ y. better x y ≡ true) (take n xs)
      (λ y h. In_of_All (λ y. better x y ≡ true) xs y f.0 (In-take n xs y h)),
  Falls-take n xs f.1,
)

pub Falls-drop :
    (n : ℕ) (xs : List Scored) (x y : Scored)
    → Falls xs
    → In x (take n xs)
    → In y (drop n xs)
    → better x y ≡ true
Falls-drop zero xs x y s h k = absurd h
Falls-drop (suc n) [] x y s h k = absurd h
Falls-drop (suc n) (z ∷ zs) x y s (inl e) k =
    let b = In_of_All (λ y. better z y ≡ true) zs y s.0 (In-drop n zs y k) in rw e b
Falls-drop (suc n) (z ∷ zs) x y s (inr h) k = Falls-drop n zs x y s.1 h k

pub length-take-min : (n : ℕ) (xs : List Scored) → length (take n xs) ≡ min n (length xs)
length-take-min zero xs = omega arith
length-take-min (suc n) [] = omega arith
length-take-min (suc n) (x ∷ xs) = omega (arith, length-take-min n xs)

pub In-drop-length : (n : ℕ) (xs : List Scored) (x : Scored) → In x (drop n xs) → n < length xs
In-drop-length zero [] x h = absurd h
In-drop-length zero (y ∷ ys) x h = omega arith
In-drop-length (suc n) [] x h = absurd h
In-drop-length (suc n) (y ∷ ys) x h = omega (arith, In-drop-length n ys x h)
