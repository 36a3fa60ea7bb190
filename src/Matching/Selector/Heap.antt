-- ===== src/Matching/Selector/Heap.antt =====
-- The heap holds the best of the offers that the filter accepts: the end of their sorted list.
use Prim.Native.Nat.{◌-◌, min, max}
use yspot.Prelude.{
  ℕ, zero, suc, ◌*◌, ◌^◌, ◌≤◌, ◌<◌, ◌≡◌, refl, sym, ap, ◌∙◌, inl, inr, Bool, true, false,
  Bool-cases, List, [], ◌∷◌, none, length, drop, ltb, ◌==◌, if◌then◌else◌, arith,
}
use yspot.Index.Columns.{bit_set}
use yspot.Matching.Score.{Scored, better}
use yspot.Matching.Selector.{
  Selector, worse, pushed, peek_score, insert_by, admit, displace_from, offer_scored, new_selector,
  rejects, below,
}
use yspot.Matching.Selector.Sorted.{
  In, In-drop, IsOrder, IsSorted, NotBefore, In_of_All, insert_by-IsSorted, length-insert_by,
}

pub worse-IsOrder : IsOrder worse
worse-IsOrder = record { asym = λ a b h. ground arith; chain = λ a b c h k. ground arith }

pub better-IsOrder : IsOrder better
better-IsOrder = record { asym = λ a b h. ground arith; chain = λ a b c h k. ground arith }

-- An offer, with what the filter says of its slot.
abbrev pub Offer : Type 0
Offer = Scored × Bool

abbrev pub offer_all : List Offer → Selector → Selector
offer_all [] sel = sel
offer_all ((s, accepted) ∷ os) sel = offer_all os (offer_scored s accepted sel)

-- All accepted offers, the worst in front.
abbrev pub ranked : List Offer → List Scored → List Scored
ranked [] all = all
ranked ((s, true) ∷ os) all = ranked os (pushed s all)
ranked ((s, false) ∷ os) all = ranked os all

abbrev pub Floor : Selector → Type 0
Floor sel =
    (length sel.heap ≡ sel.cap → sel.floor ≡ peek_score sel.heap)
    × (length sel.heap < sel.cap → sel.floor ≡ none)

-- The heap is the end of the sorted list `all`.
pub record Keeps (sel : Selector) (all : List Scored) : Type 0 where
  pub positive : 0 < sel.cap
  pub sorted : IsSorted worse all
  pub best : sel.heap ≡ drop (length all - sel.cap) all
  pub floor : Floor sel

pub length-drop_le : {A : Type 0} (n : ℕ) (xs : List A) → length (drop n xs) ≡ length xs - n
length-drop_le zero xs = omega arith
length-drop_le (suc n) [] = omega arith
length-drop_le (suc n) (x ∷ xs) = omega (arith, length-drop_le n xs)

abbrev displaced : Scored → List Scored → List Scored
displaced s [] = []
displaced s (h ∷ t) = if better s h then pushed s t else h ∷ t

displaced_none :
    (s : Scored) (xs : List Scored)
    → ((x : Scored) → In x xs → better s x ≡ false)
    → displaced s xs ≡ xs
displaced_none s [] f = refl
displaced_none s (x ∷ xs) f = rw (f x (inl refl)) refl

drop-pushed :
    (n : ℕ) (all : List Scored) (s : Scored)
    → IsSorted worse all
    → n < length all
    → drop (suc n) (pushed s all) ≡ displaced s (drop n all)
unfolding insert_by
drop-pushed n [] s o l = elim l [ ]
drop-pushed zero (y ∷ ys) s o l = elim (Bool-cases (better s y)) [
  | inl b ↦ rw b refl
  | inr b ↦ rw b refl
]
drop-pushed (suc n) (y ∷ ys) s o l = elim (Bool-cases (better s y)) [
  | inl b ↦ rw b (drop-pushed n ys s o.1 (omega arith))
  | inr b ↦ rw b (
      sym (
        displaced_none s (drop n ys) (λ x h.
          let k = In_of_All (NotBefore worse y) ys x o.0 (In-drop n ys x h) in
          better-IsOrder.chain x y s k b)))
]

length-displaced : (s : Scored) (xs : List Scored) → length (displaced s xs) ≡ length xs
length-displaced s [] = refl
length-displaced s (x ∷ xs) = elim (Bool-cases (better s x)) [
  | inl b ↦ rw b (length-insert_by worse s xs)
  | inr b ↦ rw b refl
]

Keeps-seen :
    (slot : ℕ) (sel : Selector) (all : List Scored)
    → Keeps sel all
    → Keeps (record sel { seen = bit_set slot sel.seen }) all
Keeps-seen slot sel all k = record {
  positive = k.positive;
  sorted = k.sorted;
  best = k.best;
  floor = k.floor;
}

-- While there is room, the heap holds all that was accepted.
room-Keeps :
    (s : Scored) (sel : Selector) (all : List Scored)
    → Keeps sel all
    → length sel.heap < sel.cap
    → Keeps (admit s true sel) (pushed s all)
unfolding admit
room-Keeps s sel all k l =
    let d = length-drop_le (length all - sel.cap) all in
    let p = k.positive in
    let n : length all < sel.cap = let e = ap length k.best in omega arith in
    let z : length all - sel.cap ≡ 0 = omega arith in
    let same : sel.heap ≡ all = k.best ∙ ap (λ i. drop i all) z in
    let len = length-insert_by worse s all in
    let z' : length (pushed s all) - sel.cap ≡ 0 = omega arith in
    rw same (record {
      positive = k.positive;
      sorted = insert_by-IsSorted worse worse-IsOrder s all k.sorted;
      best = rw z' refl;
      floor = (
        (λ e. let b : (length (pushed s all) == sel.cap) ≡ true = ground arith in rw b refl),
        (λ m.
            let b : (length (pushed s all) == sel.cap) ≡ false = ground arith in
            rw b (k.floor.1 l)),
      );
    })

-- The heap and floor that an offer to a full heap `xs` leaves.
displace_from-heap :
    (s : Scored) (xs : List Scored) (sel : Selector)
    → sel.heap ≡ xs
    → (displace_from s true xs sel).heap ≡ displaced s xs
unfolding displace_from
displace_from-heap s [] sel e = e
displace_from-heap s (x ∷ xs) sel e = elim (Bool-cases (better s x)) [
  | inl b ↦ rw b refl
  | inr b ↦ rw b e
]

displace_from-cap :
    (s : Scored) (xs : List Scored) (sel : Selector) → (displace_from s true xs sel).cap ≡ sel.cap
unfolding displace_from
displace_from-cap s [] sel = refl
displace_from-cap s (x ∷ xs) sel = ground arith

displace_from-floor :
    (s : Scored) (xs : List Scored) (sel : Selector)
    → sel.heap ≡ xs
    → sel.floor ≡ peek_score xs
    → (displace_from s true xs sel).floor ≡ peek_score (displaced s xs)
unfolding displace_from
displace_from-floor s [] sel e k = k
displace_from-floor s (x ∷ xs) sel e k = elim (Bool-cases (better s x)) [
  | inl b ↦ rw b refl
  | inr b ↦ rw b k
]

full_size :
    (sel : Selector) (all : List Scored)
    → Keeps sel all
    → sel.cap ≤ length sel.heap
    → (length sel.heap ≡ sel.cap) × (sel.cap ≤ length all)
full_size sel all k l =
    let d = length-drop_le (length all - sel.cap) all in
    let e = ap length k.best in (omega arith, omega arith)

full-Keeps :
    (s : Scored) (sel : Selector) (all : List Scored)
    → Keeps sel all
    → sel.cap ≤ length sel.heap
    → Keeps (displace_from s true sel.heap sel) (pushed s all)
full-Keeps s sel all k l =
    let (size, big) = full_size sel all k l in
    let p = k.positive in
    let len = length-insert_by worse s all in
    let cap_same = displace_from-cap s sel.heap sel in
    let heap_same = displace_from-heap s sel.heap sel refl in
    let n : length (pushed s all) - sel.cap ≡ suc (length all - sel.cap) = omega arith in
    let best = drop-pushed (length all - sel.cap) all s k.sorted (omega arith) in
    record {
      positive = rw cap_same p;
      sorted = insert_by-IsSorted worse worse-IsOrder s all k.sorted;
      best = rw (cap_same, n, heap_same) (ap (displaced s) k.best ∙ sym best);
      floor = (
        (λ e.
            displace_from-floor s sel.heap sel refl (k.floor.0 size)
            ∙ ap peek_score (sym heap_same)),
        (λ m.
            absurd
              (let h = ap length heap_same in let d = length-displaced s sel.heap in omega arith)),
      );
    }

refused : (s : Scored) (xs : List Scored) (sel : Selector) → displace_from s false xs sel ≡ sel
unfolding displace_from
refused s [] sel = refl
refused s (x ∷ xs) sel = elim (Bool-cases (better s x)) [ inl b ↦ rw b refl | inr b ↦ rw b refl ]

offer_scored-Keeps :
    (s : Scored) (sel : Selector) (all : List Scored)
    → Keeps sel all
    → Keeps (offer_scored s true sel) (pushed s all)
unfolding offer_scored
offer_scored-Keeps s sel all k = elim (Bool-cases (ltb (length sel.heap) sel.cap)) [
  | inl b ↦ rw b (room-Keeps s _ all (Keeps-seen s.eidx sel all k) (ground arith))
  | inr b ↦ rw b (full-Keeps s _ all (Keeps-seen s.eidx sel all k) (ground arith))
]

offer_scored-refused :
    (s : Scored) (sel : Selector) (all : List Scored)
    → Keeps sel all
    → Keeps (offer_scored s false sel) all
unfolding offer_scored admit
offer_scored-refused s sel all k = elim (Bool-cases (ltb (length sel.heap) sel.cap)) [
  | inl b ↦ rw b (Keeps-seen s.eidx sel all k)
  | inr b ↦ rw (b, refused) (Keeps-seen s.eidx sel all k)
]

pub offer_all-Keeps :
    (os : List Offer) (sel : Selector) (all : List Scored)
    → Keeps sel all
    → Keeps (offer_all os sel) (ranked os all)
offer_all-Keeps [] sel all k = k
offer_all-Keeps ((s, true) ∷ os) sel all k =
    offer_all-Keeps os (offer_scored s true sel) (pushed s all) (offer_scored-Keeps s sel all k)
offer_all-Keeps ((s, false) ∷ os) sel all k =
    offer_all-Keeps os (offer_scored s false sel) all (offer_scored-refused s sel all k)

pub new_selector-Keeps : (max_results offers : ℕ) → Keeps (new_selector max_results offers) []
unfolding new_selector
new_selector-Keeps m n = record {
  positive = omega arith;
  sorted = tt;
  best = let z : 0 - max (min (m * n) (2 ^ 64 - 1)) 1 ≡ 0 = omega arith in rw z refl;
  floor = ((λ e. refl), (λ l. refl));
}

no_room :
    (s : Scored) (accepted : Bool) (xs : List Scored) (sel : Selector) (ub : ℕ)
    → below ub (peek_score xs) ≡ true
    → s.score ≤ ub
    → displace_from s accepted xs sel ≡ sel
unfolding displace_from
no_room s accepted [] sel ub h l = refl
no_room s accepted (x ∷ xs) sel ub h l = let b : better s x ≡ false = ground arith in rw b refl

no_room-offer :
    (s : Scored) (accepted : Bool) (sel : Selector) (all : List Scored) (ub : ℕ)
    → Keeps sel all
    → rejects sel ub ≡ true
    → s.score ≤ ub
    → offer_scored s accepted sel ≡ record sel { seen = bit_set s.eidx sel.seen }
unfolding offer_scored rejects
no_room-offer s accepted sel all ub k h l =
    let f : sel.cap ≤ length sel.heap = ground arith in
    let (size, big) = full_size sel all k f in
    let b : ltb (length sel.heap) sel.cap ≡ false = ground arith in
    let u : below ub sel.floor ≡ true = ground arith in
    rw b (
      no_room s accepted sel.heap (record sel { seen = bit_set s.eidx sel.seen }) ub
        (rw (k.floor.0 size) at u) l)

-- In a selector that has taken any offers, an offer whose score is within a bound that is rejected would
-- change nothing but the mark of its slot.
pub rejects-offer :
    (max_results per_slot : ℕ) (os : List Offer) (s : Scored) (accepted : Bool) (ub : ℕ)
    → rejects (offer_all os (new_selector max_results per_slot)) ub ≡ true
    → s.score ≤ ub
    → offer_scored s accepted (offer_all os (new_selector max_results per_slot))
      ≡ record (offer_all os (new_selector max_results per_slot)) {
        seen = bit_set s.eidx (offer_all os (new_selector max_results per_slot)).seen;
      }
rejects-offer max_results per_slot os s accepted ub =
    no_room-offer s accepted (offer_all os (new_selector max_results per_slot)) (ranked os []) ub (
      offer_all-Keeps os (new_selector max_results per_slot) []
        (new_selector-Keeps max_results per_slot))

offer_scored-cap : (s : Scored) (a : Bool) (sel : Selector) → (offer_scored s a sel).cap ≡ sel.cap
unfolding offer_scored admit
offer_scored-cap s a sel = elim (Bool-cases (ltb (length sel.heap) sel.cap)) [
  | inl b ↦ rw b (admitted a)
  | inr b ↦ rw b (at a sel.heap)
]
  where
    admitted :
        (a : Bool) → (admit s a (record sel { seen = bit_set s.eidx sel.seen })).cap ≡ sel.cap
    admitted true = refl
    admitted false = refl

    at :
        (a : Bool) (xs : List Scored)
        → (displace_from s a xs (record sel { seen = bit_set s.eidx sel.seen })).cap ≡ sel.cap
    at true xs = displace_from-cap s xs (record sel { seen = bit_set s.eidx sel.seen })
    at false xs =
        ap (λ (w : Selector). w.cap) (refused s xs (record sel { seen = bit_set s.eidx sel.seen }))

pub offer_all-cap : (os : List Offer) (sel : Selector) → (offer_all os sel).cap ≡ sel.cap
offer_all-cap [] sel = refl
offer_all-cap ((s, a) ∷ os) sel = offer_all-cap os (offer_scored s a sel) ∙ offer_scored-cap s a sel
