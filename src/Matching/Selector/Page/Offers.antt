-- ===== src/Matching/Selector/Page/Offers.antt =====
-- The page after any offers.
use Prim.Native.Nat.{◌-◌}
use yspot.Prelude.{
  ℕ, zero, suc, ◌+◌, ◌*◌, ◌^◌, ◌≤◌, ◌<◌, ◌≡◌, refl, ap, ◌∙◌, ◌⊎◌, inl, inr, true, false, Bool-cases,
  List, [], ◌∷◌, length, ◌==◌, if◌then◌else◌, arith,
}
use yspot.Matching.Score.{Scored, better}
use yspot.Matching.Selector.{worse, pushed, insert_by, new_selector, drain}
use yspot.Matching.Selector.Sorted.{In, insert_by-In, In-insert_by}
use yspot.Matching.Selector.Heap.{
  Offer, offer_all, ranked, offer_all-Keeps, new_selector-Keeps, length-drop_le, offer_all-cap,
}
use yspot.Matching.Selector.Page.{count_slot, IsPage}
use yspot.Matching.Selector.Page.Drain.{take-IsPage}

-- What was offered and accepted.
abbrev pub accepted : List Offer → List Scored
accepted [] = []
accepted ((s, true) ∷ os) = s ∷ accepted os
accepted ((s, false) ∷ os) = accepted os

In-ranked :
    (os : List Offer) (all : List Scored) (x : Scored)
    → In x (ranked os all)
    → In x (accepted os) ⊎ In x all
In-ranked [] all x h = inr h
In-ranked ((s, true) ∷ os) all x h = elim (In-ranked os (pushed s all) x h) [
  | inl a ↦ inl (inr a)
  | inr b ↦ elim (In-insert_by worse s x all b) [ inl e ↦ inl (inl e) | inr c ↦ inr c ]
]
In-ranked ((s, false) ∷ os) all x h = In-ranked os all x h

ranked-In :
    (os : List Offer) (all : List Scored) (x : Scored)
    → In x (accepted os) ⊎ In x all
    → In x (ranked os all)
ranked-In [] all x (inl h) = absurd h
ranked-In [] all x (inr h) = h
ranked-In ((s, true) ∷ os) all x h = ranked-In os (pushed s all) x (elim h [
  | inl a ↦ elim a [ inl e ↦ inr (insert_by-In worse s x all (inl e)) | inr b ↦ inl b ]
  | inr b ↦ inr (insert_by-In worse s x all (inr b))
])
ranked-In ((s, false) ∷ os) all x h = ranked-In os all x h

count_slot-pushed :
    (i : ℕ) (s : Scored) (xs : List Scored)
    → count_slot i (pushed s xs) ≡ (if s.eidx == i then 1 else 0) + count_slot i xs
unfolding insert_by
count_slot-pushed i s [] = omega arith
count_slot-pushed i s (x ∷ xs) = elim (Bool-cases (better s x)) [
  | inl b ↦ rw b (let ih = count_slot-pushed i s xs in omega arith)
  | inr b ↦ rw b refl
]

count_slot-ranked :
    (i : ℕ) (os : List Offer) (all : List Scored)
    → count_slot i (ranked os all) ≡ count_slot i (accepted os) + count_slot i all
count_slot-ranked i [] all = omega arith
count_slot-ranked i ((s, true) ∷ os) all =
    let ih = count_slot-ranked i os (pushed s all) in
    let p = count_slot-pushed i s all in omega arith
count_slot-ranked i ((s, false) ∷ os) all = count_slot-ranked i os all

mul_pos : (n m : ℕ) → 0 < n → 0 < m → 0 < n * m
mul_pos zero m h k = absurd (omega arith)
mul_pos (suc a) m h k = let e : suc a * m ≡ m + a * m = grind arith in omega arith

-- For a page of at least one row and at least one offer for each slot, within a machine word, where the
-- filter accepts no slot more often than `per_slot`, the drained heap is the page of all accepted offers.
pub drain-IsPage :
    (max_results per_slot : ℕ) (os : List Offer)
    → 0 < max_results
    → 0 < per_slot
    → max_results * per_slot < 2 ^ 64
    → ((i : ℕ) → count_slot i (accepted os) ≤ per_slot)
    → IsPage max_results
        (accepted os)
        (drain max_results (offer_all os (new_selector max_results per_slot)))
unfolding drain
drain-IsPage n m os pn pm word few =
    let k = offer_all-Keeps os (new_selector n m) [] (new_selector-Keeps n m) in
    let all = ranked os [] in
    let sel = offer_all os (new_selector n m) in
    let pos = mul_pos n m pn pm in
    let cap : sel.cap ≡ n * m =
      offer_all-cap os (new_selector n m) ∙ unfold new_selector in (omega arith) in
    let p =
      take-IsPage all sel.heap n m (length all - sel.cap) k.sorted k.best
        (λ i. let c = count_slot-ranked i os [] in let f = few i in omega arith) pm
        (λ c.
          let d = length-drop_le (length all - sel.cap) all in
          let e = ap length k.best in omega arith) in
    record {
      falls = p.falls;
      fits = p.fits;
      offered = λ x h. elim (In-ranked os [] x (p.offered x h)) [ inl a ↦ a | inr b ↦ absurd b ];
      best = λ x y h i e. p.best x y h (ranked-In os [] y (inl i)) e;
      complete = λ x i. p.complete x (ranked-In os [] x (inl i));
    }
