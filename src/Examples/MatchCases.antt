-- ===== src/Examples/MatchCases.antt =====
-- A search of a small index, and the theorems about the matcher.
use yspot.Prelude.{
  ℕ, ◌+◌, ◌*◌, ◌≤◌, ◌<◌, ◌≡◌, refl, ◌↔◌, Bool, true, false, List, [], ◌∷◌, some, Bytes, leb, ◌==◌,
  ◌&&◌, ◌||◌, if◌then◌else◌, length, arith,
}
use yspot.Text.{Unicode}
use yspot.Index.Types.{UsnEvent, create}
use yspot.Index.Columns.{bit_set}
use yspot.Index.Volume.{VolumeIndex, new_index, apply_all}
use yspot.Matching.Tier.{Tier, exact, prefix, substring}
use yspot.Matching.Score.{Scored}
use yspot.Matching.Selector.{
  new_selector, drain, rejects, offer_scored, admit, displace_from, insert_by,
}
use yspot.Matching.Selector.Heap.{Offer, offer_all, rejects-offer}
use yspot.Matching.Selector.Page.{IsPage, count_slot}
use yspot.Matching.Selector.Page.Offers.{accepted, drain-IsPage}
use yspot.Matching.Selector.Sorted.{In}
use yspot.Matching.Ranges.{Range, merge_ranges}
use yspot.Matching.Ranges.Merge.{Covers, StandApart, merge_ranges-Covers}
use yspot.Matching.Fuzzy.{class_superset, fuzzy_span, fuzzy_cap, fuzzy_cap_cut, sum}
use yspot.Matching.Fuzzy.Superset.{HasClasses, class_superset_iff}
use yspot.Matching.Fuzzy.Density.{IsSubseq, fuzzy_span-IsSubseq, retained, fuzzy_cap_cut-retained}
use yspot.Matching.Scan.{scan_arena}
use yspot.Matching.Scan.Hits.{Leftmost, after_hits, scan_arena-Leftmost}
use yspot.Matching.Passes.{World, accept_slot}
use yspot.Matching.Search.{page_of}
use yspot.Matching.Search.Page.{IsCleanPage, page_of-IsCleanPage}
use yspot.Prelude.{min, replicate}
use yspot.Examples.Finder.{find, find-IsFinder}

-- ---- the page of some offers

abbrev cand : ℕ → ℕ → Tier → Scored
cand score slot tier = record { score = score; eidx = slot; tier = tier }

-- Slot 4 is offered twice, slot 7 is refused.
abbrev offers : List Offer
offers =
    (cand 20 4 substring, true)
    ∷ (cand 30 7 prefix, false)
    ∷ (cand 25 4 prefix, true)
    ∷ (cand 25 3 exact, true)
    ∷ []

few_offers : (i : ℕ) → count_slot i (accepted offers) ≤ 2
few_offers i = ground arith

drain-IsPage_example : IsPage 1 (accepted offers) (drain 1 (offer_all offers (new_selector 1 2)))
drain-IsPage_example = drain-IsPage 1 2 offers (omega arith) (omega arith) (omega arith) few_offers

-- Two offers fill the heap of a page of one, whose floor is 25.
abbrev filled : List Offer
filled = (cand 25 4 prefix, true) ∷ (cand 30 3 exact, true) ∷ []

filled-rejects : rejects (offer_all filled (new_selector 1 2)) 24 ≡ true
unfolding rejects offer_scored admit insert_by new_selector displace_from
filled-rejects = refl

rejects-offer_example :
    offer_scored (cand 23 9 substring) true (offer_all filled (new_selector 1 2))
    ≡ record (offer_all filled (new_selector 1 2)) {
      seen = bit_set 9 (offer_all filled (new_selector 1 2)).seen;
    }
rejects-offer_example =
    rejects-offer 1 2 filled (cand 23 9 substring) true 24 filled-rejects (omega arith)

-- ---- ranges

abbrev ranges : List Range
ranges = (4, 6) ∷ (0, 2) ∷ (1, 4) ∷ (9, 9) ∷ []

merge_ranges-Covers_example :
    StandApart (merge_ranges ranges) × ((x : ℕ) → Covers (merge_ranges ranges) x ↔ Covers ranges x)
merge_ranges-Covers_example = merge_ranges-Covers ranges

-- ---- the fuzzy tier

-- Slot 65 has the classes 1 and 2, slot 3 the class 1 only, in slices of two words.
abbrev slices : ℕ → ℕ → Bool
slices w b = (w == 3 && b == 1) || (w == 5 && b == 1) || (w == 2 && b == 3)

class_superset_iff_example :
    In 65 (class_superset slices 2 2 (bit_set 1 (bit_set 2 (λ _. false))))
    ↔ ((65 < 2 * 64) × HasClasses slices 2 (bit_set 1 (bit_set 2 (λ _. false))) 65)
class_superset_iff_example = class_superset_iff slices 2 2 (bit_set 1 (bit_set 2 (λ _. false))) 65

abbrev wanted : List ℕ
wanted = b'a' ∷ b'b' ∷ []

abbrev letters : List ℕ
letters = b'x' ∷ b'a' ∷ b'a' ∷ b'-' ∷ b'b' ∷ b'y' ∷ []

fuzzy_span-IsSubseq_example :
    (((span : ℕ) × (fuzzy_span letters wanted ≡ some span)) ↔ IsSubseq wanted letters)
    × ((span : ℕ)
        → fuzzy_span letters wanted ≡ some span
        → (length wanted ≤ span) × (span ≤ length letters))
fuzzy_span-IsSubseq_example = fuzzy_span-IsSubseq b'a' (b'b' ∷ []) letters

abbrev counts : List ℕ
counts = 15000 ∷ 4000 ∷ 3000 ∷ replicate 125 1

fuzzy_cap_cut-retained_example :
    retained counts (fuzzy_cap_cut counts (sum counts)) ≡ min (sum counts) fuzzy_cap
fuzzy_cap_cut-retained_example = fuzzy_cap_cut-retained counts refl

-- ---- the scan of the arena

abbrev arena : Bytes
arena = 0 ∷ b'a' ∷ b'b' ∷ b'a' ∷ b'b' ∷ 0 ∷ b'a' ∷ b'a' ∷ 0 ∷ []

scan_arena-Leftmost_example :
    (hs : List ℕ) × (scan_arena find
        (b'a' ∷ b'b' ∷ [])
        arena
        (λ h (x : ℕ). (x + h, false))
        (λ x. (x, false))
        0
      ≡ after_hits (λ h x. x + h) hs 0)
    × Leftmost (b'a' ∷ b'b' ∷ []) arena 0 hs
scan_arena-Leftmost_example =
    scan_arena-Leftmost find (b'a' ∷ b'b' ∷ []) arena (λ h x. x + h) 0 find-IsFinder (omega arith)

-- ---- a search

-- Unicode cut down to ASCII.
abbrev ascii : Unicode
ascii = record {
  nfc = λ s. s;
  to_lowercase = λ c. (if leb 65 c && leb c 90 then c + 32 else c) ∷ [];
  is_lowercase = λ c. leb 97 c && leb c 122;
  is_uppercase = λ c. leb 65 c && leb c 90;
}

-- Bits of numbers, and the third poll cancels.
abbrev world : World
world = record {
  unicode = ascii;
  f32 = record { times = λ a b. a; plus = λ a b. a; over = λ a b. a; from_usize = λ n. n };
  find = find;
  is_cancelled = λ n. n == 2;
  overdue = λ n. false;
}

abbrev history : List (ℕ × UsnEvent)
history = (1, create 20 5 (b'A' ∷ b'b' ∷ []) 0) ∷ (2, create 21 20 (b'x' ∷ b'a' ∷ b'b' ∷ []) 0) ∷ []

abbrev index : VolumeIndex
index = apply_all ascii (new_index (b'C' ∷ b':' ∷ b'\\' ∷ [])) history

page_of-IsCleanPage_example :
    IsCleanPage
      (accept_slot world index (λ name. length name == 2) (b'a' ∷ b'b' ∷ []))
      3
      (page_of world index (λ name. length name == 2) (b'a' ∷ b'b' ∷ []) 3)
page_of-IsCleanPage_example =
    page_of-IsCleanPage world index (λ name. length name == 2) (b'a' ∷ b'b' ∷ []) 3
