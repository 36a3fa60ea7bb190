-- ===== src/Matching/Fuzzy.antt =====
-- The fuzzy tier: crates/yspot-index/src/matching.rs (`fuzzy_cap_cut`, `for_each_class_superset`,
-- `fuzzy_density`, `fuzzy_survivor_probe`). A name is the list of its characters.
pub mod Superset
pub mod Density
use Prim.Native.Nat.{◌-◌, min}
use yspot.Prelude.{
  ℕ, zero, suc, ◌+◌, ◌*◌, ◌%◌, Bool, true, false, not, ◌&&◌, ◌||◌, List, [], ◌∷◌, ◌++◌, Option,
  none, some, Bytes, ltb, leb, ◌==◌, if◌then◌else◌, length, take, get_or, set, replicate,
}
use yspot.Text.{Unicode, fold, has_control_byte}
use yspot.Index.Columns.{BitSet, bsi_classes, class_mask, rank_depth_max, div_ceil}
use yspot.Index.Volume.{VolumeIndex}
use yspot.Matching.Score.{F32}

abbrev pub fuzzy_cap : ℕ
fuzzy_cap = 20000

-- The loop over the counts, from depth `d` on, with `acc` candidates above.
unfoldable pub cut_from : ℕ → ℕ → List ℕ → ℕ × ℕ
cut_from d acc [] = (rank_depth_max, fuzzy_cap)
cut_from d acc (n ∷ ns) =
    let here : ℕ × ℕ = (d, fuzzy_cap - acc) in
    let rest = cut_from (d + 1) (acc + n) ns in if leb fuzzy_cap (acc + n) then here else rest

unfoldable pub fuzzy_cap_cut : List ℕ → ℕ → ℕ × ℕ
unfolding cut_from
fuzzy_cap_cut by_depth survivors =
    let all : ℕ × ℕ = (rank_depth_max, fuzzy_cap) in
    let cut = cut_from 0 0 by_depth in if leb survivors fuzzy_cap then all else cut

-- ---- candidates

-- The bit `b` of the word `w` of every slice that `qmask` names, of the classes below `n`.
unfoldable pub in_all : (ℕ → ℕ → Bool) → ℕ → BitSet → ℕ → ℕ → ℕ → Bool
in_all bsi wps qmask w b zero = true
in_all bsi wps qmask w b (suc n) =
    in_all bsi wps qmask w b n && (not (qmask n) || bsi (n * wps + w) b)

-- The slots of the bits of one word, from bit `64 - n` on.
unfoldable pub word_slots : (ℕ → ℕ → Bool) → ℕ → BitSet → ℕ → ℕ → List ℕ
unfolding in_all
word_slots bsi wps qmask w zero = []
word_slots bsi wps qmask w (suc n) =
    let b = 64 - suc n in
    let rest = word_slots bsi wps qmask w n in
    if in_all bsi wps qmask w b bsi_classes then (w * 64 + b) ∷ rest else rest

-- The slots that are visited, in order, from the word `w` on.
unfoldable pub superset_from : (ℕ → ℕ → Bool) → ℕ → BitSet → ℕ → ℕ → List ℕ
unfolding word_slots
superset_from bsi wps qmask w zero = []
superset_from bsi wps qmask w (suc n) =
    word_slots bsi wps qmask w 64 ++ superset_from bsi wps qmask (w + 1) n

unfoldable pub class_superset : (ℕ → ℕ → Bool) → ℕ → ℕ → BitSet → List ℕ
unfolding superset_from
class_superset bsi wps words qmask = superset_from bsi wps qmask 0 words

-- `for_each_class_superset`: the visits of `f`, which stops them by answering false.
unfoldable pub visit {ℓ} : {S : Type ℓ} → (ℕ → S → S × Bool) → List ℕ → S → S
visit f [] s = s
visit f (slot ∷ slots) s =
    let (next, more) = f slot s in let rest = visit f slots next in if more then rest else next

-- ---- density

-- The index of the character that ends the earliest match, from the index `ci` on.
unfoldable pub forward_end : List ℕ → List ℕ → ℕ → Option ℕ
forward_end [] cs ci = none
forward_end (q ∷ qs) [] ci = none
forward_end (q ∷ []) (c ∷ cs) ci =
    let rest = forward_end (q ∷ []) cs (ci + 1) in if c == q then some ci else rest
forward_end (q ∷ q' ∷ qs) (c ∷ cs) ci =
    let hit = forward_end (q' ∷ qs) cs (ci + 1) in
    let rest = forward_end (q ∷ q' ∷ qs) cs (ci + 1) in if c == q then hit else rest

-- The walk back over the characters up to the end, the query reversed: where its last match is. Below
-- index 0 the walk has ended.
unfoldable pub backward_start : List ℕ → List ℕ → ℕ → ℕ → ℕ
backward_start [] cs idx start = start
backward_start (q ∷ qs) [] idx start = start
backward_start (q ∷ qs) (c ∷ cs) idx start =
    let hit = backward_start qs cs (idx - 1) idx in
    let miss = backward_start (q ∷ qs) cs (idx - 1) start in if c == q then hit else miss

abbrev pub rev {ℓ} : {A : Type ℓ} → List A → List A → List A
rev [] acc = acc
rev (x ∷ xs) acc = rev xs (x ∷ acc)

abbrev pub span_to : List ℕ → List ℕ → Option ℕ → Option ℕ
span_to cs q none = none
span_to cs q (some end) =
    some (end - backward_start (rev q []) (rev (take (end + 1) cs) []) end end + 1)

-- How many characters the tightest window of the earliest match spans.
unfoldable pub fuzzy_span : List ℕ → List ℕ → Option ℕ
unfolding forward_end backward_start
fuzzy_span cs q = span_to cs q (forward_end q cs 0)

abbrev density_of : F32 → ℕ → Option ℕ → Option ℕ
density_of f n none = none
density_of f n (some span) = some (f.over (f.from_usize n) (f.from_usize span))

unfoldable pub fuzzy_density : F32 → List ℕ → List ℕ → Option ℕ
unfolding fuzzy_span
fuzzy_density f cs q = density_of f (length q) (fuzzy_span cs q)

-- ---- the probe

abbrev depth_at : List ℕ → ℕ → ℕ
depth_at rank_key slot = get_or rank_key slot 0 % 128

unfoldable pub count_depths : List ℕ → List ℕ → List ℕ → List ℕ
count_depths rank_key [] by_depth = by_depth
count_depths rank_key (slot ∷ slots) by_depth =
    let d = depth_at rank_key slot in
    count_depths rank_key slots (set by_depth d (get_or by_depth d 0 + 1))

abbrev pub sum : List ℕ → ℕ
sum [] = 0
sum (n ∷ ns) = n + sum ns

-- The candidates of a query, and how many of them the cap retains.
unfoldable pub fuzzy_survivor_probe : Unicode → VolumeIndex → Bytes → ℕ × ℕ
unfolding class_superset count_depths fuzzy_cap_cut fold has_control_byte class_mask
fuzzy_survivor_probe u ix query =
    let fq = fold u query in
    let c = ix.columns in
    let words = min (div_ceil (length ix.table.entries) 64) c.bsi_words in
    let slots = class_superset c.charclass_bsi c.bsi_words words (class_mask fq) in
    let by_depth = count_depths c.rank_key slots (replicate 128 0) in
    let (cut, quota) = fuzzy_cap_cut by_depth (length slots) in
    let verified = sum (take cut by_depth) + min (get_or by_depth cut 0) quota in
    let none_found : ℕ × ℕ = (0, 0) in
    let found : ℕ × ℕ = (length slots, verified) in
    if ltb (length fq) 3 || has_control_byte fq then none_found else found
