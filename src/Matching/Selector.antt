-- ===== src/Matching/Selector.antt =====
-- The running page of a search: `Selector` of crates/yspot-index/src/matching.rs. The binary heap of the
-- language's library is the list of its elements, the worst in front; its sort is an insertion sort.
pub mod Sorted
pub mod Heap
pub mod Dedup
pub mod Page
use Prim.Native.Nat.{min, max}
use yspot.Prelude.{
  ℕ, ◌*◌, ◌^◌, ◌-◌, Bool, true, false, ◌&&◌, ◌||◌, List, [], ◌∷◌, Option, none, some, ltb, leb,
  ◌==◌, if◌then◌else◌, length, take, get_or,
}
use yspot.Index.Columns.{BitSet, empty_set, bit_set}
use yspot.Matching.Tier.{Tier}
use yspot.Matching.Score.{F32, Scored, better, depth_pen}

-- Into a list whose neighbours are in the order `before`.
unfoldable pub insert_by {ℓ} : {A : Type ℓ} → (A → A → Bool) → A → List A → List A
insert_by before x [] = x ∷ []
insert_by before x (y ∷ ys) = if before y x then y ∷ insert_by before x ys else x ∷ y ∷ ys

unfoldable pub sort_by {ℓ} : {A : Type ℓ} → (A → A → Bool) → List A → List A
unfolding insert_by
sort_by before [] = []
sort_by before (x ∷ xs) = insert_by before x (sort_by before xs)

abbrev pub worse : Scored → Scored → Bool
worse a b = better b a

pub record Selector : Type 0 where
  pub heap : List Scored
  pub cap : ℕ
  -- `none` is negative infinity
  pub floor : Option ℕ
  pub seen : BitSet

unfoldable pub new_selector : ℕ → ℕ → Selector
new_selector max_results offers_per_slot = record {
  heap = [];
  cap = max (min (max_results * offers_per_slot) (2 ^ 64 - 1)) 1;
  floor = none;
  seen = empty_set;
}

abbrev pub full : Selector → Bool
full sel = leb sel.cap (length sel.heap)

abbrev pub below : ℕ → Option ℕ → Bool
below ub none = false
below ub (some floor) = ltb ub floor

-- Whether a candidate that is bounded by `ub` cannot reach the page.
unfoldable pub rejects : Selector → ℕ → Bool
rejects sel ub = full sel && below ub sel.floor

abbrev pub peek_score : List Scored → Option ℕ
peek_score [] = none
peek_score (x ∷ _) = some x.score

-- The heap with `s` pushed, of which the worst is the first.
abbrev pub pushed : Scored → List Scored → List Scored
pushed s heap = insert_by worse s heap

-- An offer while there is room, and one to a full heap.
unfoldable pub admit : Scored → Bool → Selector → Selector
unfolding insert_by
admit s accepted sel =
    let heap = pushed s sel.heap in
    let floor = if length heap == sel.cap then peek_score heap else sel.floor in
    if accepted then record sel { heap = heap; floor = floor } else sel

unfoldable pub displace_from : Scored → Bool → List Scored → Selector → Selector
unfolding insert_by
displace_from s accepted [] sel = sel
displace_from s accepted (x ∷ xs) sel =
    let heap = pushed s xs in
    let next = record sel { heap = heap; floor = peek_score heap } in
    if better s x then (if accepted then next else sel) else sel

-- `accepted` is what the caller's filter says of the slot, which is asked only for an offer that would be
-- admitted.
unfoldable pub offer_scored : Scored → Bool → Selector → Selector
unfolding admit displace_from
offer_scored s accepted sel =
    let seen = record sel { seen = bit_set s.eidx sel.seen } in
    if ltb (length sel.heap) sel.cap
    then admit s accepted seen
    else displace_from s accepted sel.heap seen

module _ (f : F32) (accept : ℕ → Bool) (rank_key : List ℕ) where
  unfoldable pub offer : ℕ → Tier → ℕ → Selector → Selector
  unfolding offer_scored depth_pen
  offer slot tier base sel =
      offer_scored
        (record {
          score = f.times base (depth_pen f (get_or rank_key slot 0));
          eidx = slot;
          tier = tier;
        })
        (accept slot) sel

-- First by slot, the best offer of a slot in front.
abbrev pub by_slot : Scored → Scored → Bool
by_slot a b = ltb a.eidx b.eidx || (a.eidx == b.eidx && better a b)

abbrev pub keep_unless_same : Scored → List Scored → List Scored
keep_unless_same x [] = x ∷ []
keep_unless_same x (y ∷ ys) = if x.eidx == y.eidx then x ∷ ys else x ∷ y ∷ ys

-- `dedup_by_key(|s| s.eidx)`: of neighbours with one slot, the first.
unfoldable pub dedup_by_slot : List Scored → List Scored
dedup_by_slot [] = []
dedup_by_slot (x ∷ xs) = keep_unless_same x (dedup_by_slot xs)

unfoldable pub drain : ℕ → Selector → List Scored
unfolding sort_by dedup_by_slot
drain max_results sel = take max_results (sort_by better (dedup_by_slot (sort_by by_slot sel.heap)))
