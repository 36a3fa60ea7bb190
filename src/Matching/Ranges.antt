-- ===== src/Matching/Ranges.antt =====
-- The ranges of a hit, in UTF-16 units of the original name: crates/yspot-index/src/matching.rs
-- (`fold_with_map`, `utf16_end`, `merge_ranges`, `compute_ranges` and the ranges of each tier). The search for
-- a byte string (`memmem::find`, `find_iter`) is a parameter. A read out of range, where the source would
-- panic, gives 0.
pub mod Merge
use Prim.Native.Nat.{◌-◌, max, min}
use yspot.Prelude.{
  ℕ, zero, suc, ◌+◌, Bool, true, false, ◌&&◌, ◌||◌, List, [], ◌∷◌, ◌++◌, Option, none, some, Bytes,
  ltb, leb, ◌==◌, if◌then◌else◌, length, drop, get_or, replicate,
}
use yspot.Text.{Unicode, len_utf8, len_utf16, encode, encode_utf8, chars, char_indices}
use yspot.Index.Columns.{segment_spans}
use yspot.Matching.Tier.{
  Tier, exact, prefix, word_boundary, initials, substring, fuzzy, is_sep_byte,
}
use yspot.Matching.Selector.{sort_by}

abbrev pub Range : Type 0
Range = ℕ × ℕ

-- `encode_utf16().count()`
unfoldable pub units : List ℕ → ℕ
units [] = 0
units (c ∷ cs) = len_utf16 c + units cs

unfoldable pub utf16_len : Bytes → ℕ
unfolding units chars
utf16_len name = units (chars name)

unfoldable pub offset_before : ℕ → List (ℕ × ℕ) → ℕ
offset_before byte [] = 0
offset_before byte ((i, c) ∷ cs) =
    let rest = len_utf16 c + offset_before byte cs in if leb byte i then 0 else rest

unfoldable pub utf16_offset_at_byte : Bytes → ℕ → ℕ
unfolding offset_before char_indices
utf16_offset_at_byte name byte = offset_before byte (char_indices 0 name)

module _ (u : Unicode) where
  -- The folded characters from the UTF-16 offset `off` on, and the offset of each of their bytes.
  unfoldable pub fold_chars : ℕ → List ℕ → Bytes × List ℕ
  unfolding encode
  fold_chars off [] = ([], [])
  fold_chars off (c ∷ cs) =
      let lower = encode (u.to_lowercase c) in
      let rest = fold_chars (off + len_utf16 c) cs in
      (lower ++ rest.0, replicate (length lower) off ++ rest.1)

  unfoldable pub fold_with_map : Bytes → Bytes × List ℕ
  unfolding fold_chars chars
  fold_with_map name = fold_chars 0 (chars name)

abbrev first_above : ℕ → ℕ → List ℕ → ℕ
first_above s total [] = total
first_above s total (v ∷ vs) = if ltb s v then v else first_above s total vs

unfoldable pub utf16_end : List ℕ → ℕ → ℕ → ℕ
utf16_end map total last_byte =
    first_above (get_or map last_byte 0) total (drop (last_byte + 1) map)

-- The order of pairs.
abbrev pub range_before : Range → Range → Bool
range_before (a, b) (c, d) = ltb a c || (a == c && ltb b d)

-- The ranges from `last` on, of a sorted list, merged.
unfoldable pub merge_from : Range → List Range → List Range
merge_from (s, e) [] = (s, e) ∷ []
merge_from (s, e) ((s', e') ∷ v) =
    let joined = merge_from (s, max e e') v in
    let apart = (s, e) ∷ merge_from (s', e') v in if leb s' e then joined else apart

abbrev pub merge_sorted : List Range → List Range
merge_sorted [] = []
merge_sorted (r ∷ v) = merge_from r v

unfoldable pub merge_ranges : List Range → List Range
unfolding merge_from sort_by
merge_ranges v = merge_sorted (sort_by range_before v)

module _ (u : Unicode) (find : Bytes → Bytes → Option ℕ) where
  -- `find needle haystack` is the offset of the first occurrence.
  abbrev range_at : List ℕ → ℕ → ℕ → Option ℕ → List Range
  range_at map total len none = []
  range_at map total len (some p) = (get_or map p 0, utf16_end map total (p + len - 1)) ∷ []

  unfoldable pub substring_ranges : Bytes → Bytes → List Range
  unfolding fold_with_map utf16_end utf16_len
  substring_ranges name fq =
      let (folded, map) = fold_with_map u name in
      range_at map (utf16_len name) (length fq) (find fq folded)

  -- The occurrences that `find_iter` yields, from `from` on: they do not overlap.
  unfoldable pub find_all : ℕ → Bytes → Bytes → ℕ → List ℕ
  find_all zero fq folded from = []
  find_all (suc fuel) fq folded from = elim (find fq (drop from folded)) [
    | none ↦ []
    | some p ↦ (from + p) ∷ find_all fuel fq folded (from + p + length fq)
  ]

  abbrev behind_sep : Bytes → List ℕ → Option ℕ
  behind_sep folded [] = none
  behind_sep folded (p ∷ ps) =
      if ltb 0 p && is_sep_byte (get_or folded (p - 1) 0) then some p else behind_sep folded ps

  abbrev first_of : List ℕ → Option ℕ
  first_of [] = none
  first_of (p ∷ _) = some p

  abbrev or_first : Option ℕ → Option ℕ → Option ℕ
  or_first none q = q
  or_first (some p) q = some p

  -- The offset of the first separator, or the length.
  abbrev sep_position : Bytes → ℕ
  sep_position [] = 0
  sep_position (b ∷ bs) = if is_sep_byte b then 0 else suc (sep_position bs)

  abbrev segment_range : Bytes → List ℕ → ℕ → ℕ → Option ℕ → List Range
  segment_range folded map total len none = []
  segment_range folded map total len (some p) =
      let end_byte = max (p + sep_position (drop p folded)) (p + len) in
      (get_or map p 0, utf16_end map total (end_byte - 1)) ∷ []

  unfoldable pub boundary_ranges : Bytes → Bytes → List Range
  unfolding fold_with_map utf16_end utf16_len find_all
  boundary_ranges name fq =
      let (folded, map) = fold_with_map u name in
      let hits = find_all (length folded) fq folded 0 in
      segment_range folded map (utf16_len name) (length fq)
        (or_first (behind_sep folded hits) (first_of hits))

  -- The initial of a segment: where its bytes stand, how many, and its place in UTF-16.
  pub record Mark : Type 0 where
    pub off : ℕ
    pub len : ℕ
    pub u16_start : ℕ
    pub u16_len : ℕ

  abbrev char_at : List ℕ → Option ℕ
  char_at [] = none
  char_at (c ∷ _) = some c

  unfoldable pub marks_from : Bytes → ℕ → List Range → Bytes × List Mark
  unfolding encode chars utf16_offset_at_byte
  marks_from name off [] = ([], [])
  marks_from name off ((seg_start, _) ∷ spans) = elim (char_at (chars (drop seg_start name))) [
    | none ↦ marks_from name off spans
    | some c ↦
        let lower = encode (u.to_lowercase c) in
        let rest = marks_from name (off + length lower) spans in
        let mark : Mark = record {
          off = off;
          len = length lower;
          u16_start = utf16_offset_at_byte name seg_start;
          u16_len = len_utf16 c;
        } in
        (lower ++ rest.0, mark ∷ rest.1)
  ]

  unfoldable pub marked : ℕ → ℕ → List Mark → List Range
  marked hit_start hit_end [] = []
  marked hit_start hit_end (m ∷ ms) =
      let rest = marked hit_start hit_end ms in
      if ltb m.off hit_end && ltb hit_start (m.off + m.len)
      then (m.u16_start, m.u16_start + m.u16_len) ∷ rest
      else rest

  abbrev initials_hit : List Mark → ℕ → Option ℕ → List Range
  initials_hit marks len none = []
  initials_hit marks len (some pos) = marked pos (pos + len) marks

  unfoldable pub initials_ranges : Bytes → Bytes → List Range
  unfolding marks_from marked merge_ranges segment_spans
  initials_ranges name fq =
      let (text, marks) = marks_from name 0 (segment_spans u name) in
      merge_ranges (initials_hit marks (length fq) (find fq text))

  -- One range for each character of the query, in order.
  unfoldable pub fuzzy_from : List ℕ → ℕ → List ℕ → List (ℕ × ℕ) → List Range
  unfolding utf16_end
  fuzzy_from map total [] cs = []
  fuzzy_from map total (q ∷ qs) [] = []
  fuzzy_from map total (q ∷ qs) ((bi, c) ∷ cs) =
      let here : Range = (get_or map bi 0, utf16_end map total (bi + len_utf8 c - 1)) in
      let taken = here ∷ fuzzy_from map total qs cs in
      let passed = fuzzy_from map total (q ∷ qs) cs in if c == q then taken else passed

  unfoldable pub fuzzy_ranges : Bytes → Bytes → List Range
  unfolding fold_with_map fuzzy_from utf16_len merge_ranges chars char_indices
  fuzzy_ranges name fq =
      let (folded, map) = fold_with_map u name in
      merge_ranges (fuzzy_from map (utf16_len name) (chars fq) (char_indices 0 folded))

  unfoldable pub compute_ranges : Bytes → Bytes → Tier → List Range
  unfolding utf16_len substring_ranges boundary_ranges initials_ranges fuzzy_ranges
  compute_ranges name fq exact = (0, utf16_len name) ∷ []
  compute_ranges name fq prefix = substring_ranges name fq
  compute_ranges name fq substring = substring_ranges name fq
  compute_ranges name fq word_boundary = boundary_ranges name fq
  compute_ranges name fq initials = initials_ranges name fq
  compute_ranges name fq fuzzy = fuzzy_ranges name fq
