-- ===== src/Index/Table/Fenced/Hits.antt =====
-- What the layout of the folded arena gives the matcher: an occurrence of a text without delimiters lies
-- inside the record of one live entry.
use yspot.Prelude.{
  ℕ, zero, suc, ◌+◌, ◌≤◌, ◌<◌, ◌≡◌, ◌≢◌, ◌∙◌, inl, inr, [], ◌∷◌, Bytes, length, arith, some,
  get_elem?, Bool-cases, false, ltb, get_elem?_of_lt, ==_iff, ◌==◌,
}
use Prim.Native.Nat.{◌-◌}
use yspot.Prelude.{any, Bool}
use yspot.Prelude.Slices.{slice, get_elem?-slice}
use yspot.Text.{has_control_byte}
use yspot.Index.Types.{Entry}
use yspot.Index.Columns.{folded_delim}
use yspot.Index.Table.{Table}
use yspot.Index.Table.Valid.{All, LiveAt, IsValid}
use yspot.Index.Table.Fenced.{HasFences, IsFenced}

-- The text `q` stands in `bs` at `h`.
abbrev pub OccursAt : Bytes → ℕ → Bytes → Type 0
OccursAt bs h q = (i b : ℕ) → get_elem? q i ≡ some b → get_elem? bs (h + i) ≡ some b

-- No byte of the text is the delimiter.
abbrev pub IsPlain : Bytes → Type 0
IsPlain q = All (λ b. b ≢ folded_delim) q

plain_at : (q : Bytes) (i b : ℕ) → IsPlain q → get_elem? q i ≡ some b → b ≢ folded_delim
plain_at [] i b p g = ground arith
plain_at (x ∷ q) zero b p g = let e : x ≡ b = ground arith in rw (← e) p.0
plain_at (x ∷ q) (suc i) b p g = plain_at q i b p.1 g

-- The whole occurrence is in the record of the entry.
abbrev pub Within : Entry → ℕ → ℕ → Type 0
Within e h n = (e.folded_off ≤ h) × (h + n ≤ e.folded_off + e.folded_len)

module _ (t : Table) (v : IsValid t) (f : IsFenced t 0 0) (q : Bytes) (h : ℕ) (plain : IsPlain q)
    (hit : OccursAt t.arenas.folded h q) where
  -- The fence behind a record stops the occurrence.
  stops :
      (e : Entry) (s : ℕ)
      → LiveAt t s e
      → e.folded_off ≤ h
      → h < e.folded_off + e.folded_len
      → h + length q ≤ e.folded_off + e.folded_len
  stops e s l from below = elim (Bool-cases (ltb (e.folded_off + e.folded_len) (h + length q))) [
    | inr n ↦ ground arith
    | inl y ↦
        let over : e.folded_off + e.folded_len < h + length q = ground arith in
        let k = (e.folded_off + e.folded_len) - h in
        let at : h + k ≡ e.folded_off + e.folded_len = omega arith in
        let (b, g) = get_elem?_of_lt q k (omega arith) in
        let there = hit k b g in
        let fence = (f.fences s e l).after in
        let ne = plain_at q k b plain g in absurd (ne (crash b k e at there fence))
  ]
    where
      crash :
          (b k : ℕ) (e : Entry)
          → h + k ≡ e.folded_off + e.folded_len
          → get_elem? t.arenas.folded (h + k) ≡ some b
          → get_elem? t.arenas.folded (e.folded_off + e.folded_len) ≡ some folded_delim
          → b ≡ folded_delim
      crash b k e p g fence = let g' = rw p at g in ground arith

  -- In a valid table with a well-formed folded arena, an occurrence of a nonempty text without
  -- delimiters lies inside the record of a live entry.
  pub hit_in_record : 0 < length q → (s : ℕ) × (e : Entry) × LiveAt t s e × Within e h (length q)
  hit_in_record ne =
      let (b, g) = get_elem?_of_lt q 0 ne in
      let there = hit 0 b g in
      let e0 : h + 0 ≡ h = omega arith in
      elim (f.cover h b (rw e0 at there) (plain_at q 0 b plain g)) [
        | inr r ↦ absurd (omega arith)
        | inl o ↦ (o.slot, o.entry, o.live, (o.from, stops o.entry o.slot o.live o.from o.below))
      ]

any-false_at :
    (p : ℕ → Bool) (xs : Bytes) (i b : ℕ) → any p xs ≡ false → get_elem? xs i ≡ some b → p b ≡ false
any-false_at p [] i b h g = ground arith
any-false_at p (x ∷ xs) zero b h g = ground arith
any-false_at p (x ∷ xs) (suc i) b h g = any-false_at p xs i b (ground arith) g

-- Inside a record no byte is reserved.
pub byte_in_record :
    (bs : Bytes) (e : Entry) (k b : ℕ)
    → HasFences bs e
    → e.folded_off ≤ k
    → k < e.folded_off + e.folded_len
    → get_elem? bs k ≡ some b
    → 0x20 ≤ b
byte_in_record bs e k b f from below g =
    let j = k - e.folded_off in
    let p : e.folded_off + j ≡ k = omega arith in
    let g' : get_elem? bs (e.folded_off + j) ≡ some b = rw p g in
    let s = get_elem?-slice bs e.folded_off e.folded_len j (omega arith) in
    let no =
      any-false_at (λ c. ltb c 0x20) (slice bs e.folded_off e.folded_len) j b
        (unfold has_control_byte in f.plain) (s ∙ g') in
    ground arith

-- Two records that hold one byte are those of one slot.
pub one_record :
    (t : Table)
    → IsValid t
    → (h n r s : ℕ) (a b : Entry) → 0 < n
    → LiveAt t r a
    → LiveAt t s b
    → Within a h n
    → Within b h n
    → r ≡ s
one_record t v h n r s a b pos la lb wa wb = elim (Bool-cases (r == s)) [
  | inl y ↦ (==_iff r s).0 y
  | inr m ↦
      let ne : r ≢ s = ground arith in
      absurd (elim (v.apart r s a b la lb ne) [ inl p ↦ omega arith | inr p ↦ omega arith ])
]
