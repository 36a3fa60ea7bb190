-- ===== src/Matching/Tier/Laws.antt =====
-- The tier read off the two bytes that fence a hit says how the hit lies in its record.
use yspot.Prelude.{
  ℕ, suc, ◌+◌, ◌<◌, ◌≡◌, ◌≢◌, ◌⊎◌, inl, inr, Bytes, arith, some, get_elem?, Bool-cases, false, true,
  ◌==◌,
}
use yspot.Index.Types.{Entry}
use yspot.Index.Columns.{folded_delim}
use yspot.Index.Table.Fenced.{HasFences}
use yspot.Index.Table.Fenced.Hits.{Within, byte_in_record}
use yspot.Matching.Tier.{
  Tier, exact, prefix, word_boundary, initials, substring, fuzzy, is_sep_byte, classify,
}

-- The hit of `n` bytes at `h` in the record of `e`, with the byte before it.
abbrev pub Describes : Tier → Entry → ℕ → ℕ → ℕ → Type 0
Describes exact e h n before = (h ≡ e.folded_off) × (h + n ≡ e.folded_off + e.folded_len)
Describes prefix e h n before = (h ≡ e.folded_off) × (h + n < e.folded_off + e.folded_len)
Describes word_boundary e h n before = (e.folded_off < h) × (is_sep_byte before ≡ true)
Describes substring e h n before = (e.folded_off < h) × (is_sep_byte before ≡ false)
Describes initials e h n before = ⊥
Describes fuzzy e h n before = ⊥

module _ (bs : Bytes) (e : Entry) (f : HasFences bs e) (n k before after : ℕ)
    (w : Within e (suc k) n) (pos : 0 < n) (b : get_elem? bs k ≡ some before)
    (a : get_elem? bs (suc k + n) ≡ some after) where
  starts : suc k ≡ e.folded_off → before ≡ folded_delim
  starts p = let g = f.before k p in ground arith

  inside : e.folded_off < suc k → before ≢ folded_delim
  inside l =
      let c = byte_in_record bs e k before f (omega arith) (omega arith) b in λ p. omega arith

  ends : suc k + n ≡ e.folded_off + e.folded_len → after ≡ folded_delim
  ends p = let g = f.after in let g' = rw p at a in ground arith

  before_end : suc k + n < e.folded_off + e.folded_len → after ≢ folded_delim
  before_end l =
      let c = byte_in_record bs e (suc k + n) after f (omega arith) (omega arith) a in
      λ p. omega arith

  starts_or_inside : (suc k ≡ e.folded_off) ⊎ (e.folded_off < suc k)
  starts_or_inside = ground arith

  ends_or_before :
      (suc k + n ≡ e.folded_off + e.folded_len) ⊎ (suc k + n < e.folded_off + e.folded_len)
  ends_or_before = ground arith

  -- For a nonempty hit inside the record of an entry that has its fences, the tier that is read off
  -- the bytes before and behind the hit says where in the record the hit starts and ends.
  pub classify-Describes : Describes (classify before after) e (suc k) n before
  unfolding classify
  classify-Describes = elim starts_or_inside [
    | inl p ↦ elim ends_or_before [
      | inl q ↦ rw (starts p, ends q) (p, q)
      | inr q ↦
          let m = before_end q in
          let no : (after == folded_delim) ≡ false = ground arith in rw (starts p, no) (p, q)
    ]
    | inr p ↦
        let m = inside p in
        let no : (before == folded_delim) ≡ false = ground arith in
        elim (Bool-cases (is_sep_byte before)) [
          | inl y ↦ rw (no, y) (p, y)
          | inr y ↦ rw (no, y) (p, y)
        ]
  ]
