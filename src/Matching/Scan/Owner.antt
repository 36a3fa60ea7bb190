-- ===== src/Matching/Scan/Owner.antt =====
-- The owner index over the folded arena: a hit in a record finds that record. crates/yspot-index/src/index.rs
-- (`push_arena_rec`), crates/yspot-index/src/matching.rs (`slot_at`).
pub mod Push
use Prim.Native.Nat.{◌-◌}
use yspot.Prelude.{
  ℕ, zero, suc, ◌+◌, ◌*◌, ◌/◌, ◌≤◌, ◌<◌, ◌≡◌, refl, sym, ap, ◌∙◌, ◌⊎◌, inl, inr, Bool, true, false,
  not, ◌&&◌, Bool-cases, List, [], ◌∷◌, ◌++◌, Option, none, some, Option-cases, ltb, leb, ◌==◌,
  if◌then◌else◌, length, drop, replicate, get_elem?, length-append, get_elem?-append_left,
  get_elem?-append_right, lt_of_get_elem?, arith,
}
use mathlib.Core.Path.{subst}
use mathlib.Core.Option.{some-injective}
use yspot.Index.Types.{Entry, is_dead, ArenaRec}
use yspot.Index.Table.Valid.{All}
use yspot.Index.Columns.{extend_owner, owner_block}
use yspot.Matching.Selector.Sorted.{In, All-In, In_of_All, In-append, In-front, In-back}
use yspot.Matching.Scan.{walk, slot_from, slot_at, live_slot}

abbrev pub Ascends : List ArenaRec → Type 0
Ascends [] = Unit
Ascends (r ∷ rs) = All (λ (x : ArenaRec). r.off < x.off) rs × Ascends rs

-- The record is in reach from the record `ri`, or one behind it starts at or before the byte `at`.
abbrev pub Reaches : List ArenaRec → ℕ → ℕ → ArenaRec → Type 0
Reaches recs ri at t =
    In t (drop ri recs) ⊎ ((r : ArenaRec) × In r recs × (t.off < r.off) × (r.off ≤ at))

-- The records rise below the end of the arena, and each block of it has an owner from which every record in it, or
-- across its start, is in reach.
pub record IsOwned (arena_len : ℕ) (recs : List ArenaRec) (owner : List ℕ) : Type 0 where
  pub ascends : Ascends recs
  pub below : All (λ (r : ArenaRec). r.off < arena_len) recs
  pub covered : arena_len ≤ length owner * owner_block
  pub reaches :
      (b ri : ℕ)
      → get_elem? owner b ≡ some ri
      → (ri ≤ length recs) × ((t : ArenaRec) → In t recs → Reaches recs ri (b * owner_block) t)

-- A live record, `t`: every other starts no later, or behind its name of `len` bytes.
abbrev pub IsHeld : List ArenaRec → ArenaRec → ℕ → Type 0
IsHeld recs t len =
    In t recs × ((r : ArenaRec) → In r recs → (r.off ≤ t.off) ⊎ (t.off + len < r.off))

-- ---- from a hit to its record

walk-In :
    (rec : ArenaRec) (recs : List ArenaRec) (hit : ℕ) (t : ArenaRec)
    → Ascends (rec ∷ recs)
    → In t (rec ∷ recs)
    → t.off ≤ hit
    → ((r : ArenaRec) → In r (rec ∷ recs) → (r.off ≤ t.off) ⊎ (hit < r.off))
    → walk rec recs hit ≡ t
unfolding walk
walk-In rec [] hit t a (inl e) h f = sym e
walk-In rec [] hit t a (inr i) h f = absurd i
walk-In rec (next ∷ recs) hit t a i h f = elim (Bool-cases (leb next.off hit)) [
  | inl b ↦
      let at_most : next.off ≤ hit = bounded b in
      let le : next.off ≤ t.off = elim (f next (inr (inl refl))) [
        | inl l ↦ l
        | inr l ↦ absurd (omega arith)
      ] in
      let rest : In t (next ∷ recs) = elim i [
        | inr j ↦ j
        | inl e ↦
            let lt = a.0.0 in
            let same : t.off ≡ rec.off = ap (λ (r : ArenaRec). r.off) e in absurd (omega arith)
      ] in
      rw b (walk-In next recs hit t a.1 rest h (λ r j. f r (inr j)))
  | inr b ↦ rw b (elim i [ inl e ↦ sym e | inr j ↦ absurd (later (beyond b) j) ])
]
  where
    bounded : leb next.off hit ≡ true → next.off ≤ hit
    bounded b = ground arith

    beyond : leb next.off hit ≡ false → hit < next.off
    beyond b = ground arith

    later : hit < next.off → In t (next ∷ recs) → ⊥
    later l (inl e) =
        let same : t.off ≡ next.off = ap (λ (r : ArenaRec). r.off) e in absurd (omega arith)
    later l (inr k) =
        let lt = In_of_All (λ (x : ArenaRec). next.off < x.off) recs t a.1.0 k in
        absurd (omega arith)

drop-Ascends : (n : ℕ) (rs : List ArenaRec) → Ascends rs → Ascends (drop n rs)
drop-Ascends zero rs a = a
drop-Ascends (suc n) [] a = a
drop-Ascends (suc n) (r ∷ rs) a = drop-Ascends n rs a.1

In-drop : (n : ℕ) (rs : List ArenaRec) (t : ArenaRec) → In t (drop n rs) → In t rs
In-drop zero rs t i = i
In-drop (suc n) [] t i = i
In-drop (suc n) (r ∷ rs) t i = inr (In-drop n rs t i)

not_beyond : (xs : List ℕ) (i : ℕ) → get_elem? xs i ≡ none → length xs ≤ i
not_beyond [] i h = omega arith
not_beyond (x ∷ xs) zero h = ground arith
not_beyond (x ∷ xs) (suc i) h = omega (arith, not_beyond xs i h)

slot_from-In :
    (recs : List ArenaRec) (entries : List Entry) (hit : ℕ) (t : ArenaRec)
    → Ascends recs
    → In t recs
    → t.off ≤ hit
    → ((r : ArenaRec) → In r recs → (r.off ≤ t.off) ⊎ (hit < r.off))
    → slot_from recs entries hit ≡ live_slot entries t
slot_from-In [] entries hit t a i h f = absurd i
slot_from-In (rec ∷ recs) entries hit t a i h f =
    ap (live_slot entries) (walk-In rec recs hit t a i h f)

-- A hit in a live record gives the record's slot.
pub slot_at-held :
    (arena_len : ℕ) (recs : List ArenaRec) (owner : List ℕ) (entries : List Entry) (e : Entry)
    (s hit : ℕ)
    → IsOwned arena_len recs owner
    → get_elem? entries s ≡ some e
    → is_dead e ≡ false
    → IsHeld recs (record { off = e.folded_off; slot = s }) e.folded_len
    → e.folded_off ≤ hit
    → hit < e.folded_off + e.folded_len
    → hit < arena_len
    → slot_at owner recs entries hit ≡ some s
unfolding slot_at
slot_at-held arena_len recs owner entries e s hit o g live held lo hi inside =
    elim (Option-cases (get_elem? owner block)) [
      | inl out ↦ let c = o.covered in let n = not_beyond owner block out in absurd (omega arith)
      | inr (ri, found) ↦
          let (le, reach) = o.reaches block ri found in
          let i : In t (drop ri recs) = elim (reach t held.0) [
            | inl i ↦ i
            | inr (r, j, lt, l) ↦ elim (held.1 r j) [
              | inl p ↦ absurd (omega arith)
              | inr p ↦ absurd (omega arith)
            ]
          ] in
          let far : (r : ArenaRec) → In r (drop ri recs) → (r.off ≤ t.off) ⊎ (hit < r.off) = λ r k.
            elim (held.1 r (In-drop ri recs r k)) [ inl p ↦ inl p | inr p ↦ inr (omega arith) ] in
          let q =
            slot_from-In (drop ri recs) entries hit t (drop-Ascends ri recs o.ascends) i lo far in
          let same : (e.folded_off == e.folded_off) ≡ true = ground arith in
          rw (slot_at, found) (q ∙ rw (live_slot, g, same, live) refl)
    ]
  where
    t : ArenaRec
    t = record { off = e.folded_off; slot = s }

    block : ℕ
    block = hit / owner_block
