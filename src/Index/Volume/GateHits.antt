-- ===== src/Index/Volume/GateHits.antt =====
-- The gate and the scan: where the scan of the folded arena would find a text, the gate is open.
use Prim.Native.Nat.{◌-◌}
use yspot.Prelude.{
  ℕ, zero, suc, ◌+◌, ◌≤◌, ◌<◌, ◌≡◌, refl, ap, ◌∙◌, List, [], ◌∷◌, Bytes, length, arith, some, true,
  take, lt_of_get_elem?,
}
use mathlib.Core.Path.{subst}
use yspot.Prelude.Slices.{slice, get_elem?-slice}
use yspot.Text.{Unicode}
use yspot.Index.Types.{UsnEvent}
use yspot.Index.Columns.Gates.{arena_may_contain}
use yspot.Index.Columns.Gates.Laws.{arena_may_contain-slice}
use yspot.Index.Table.Files.{lookup_file-LiveAt, file_of}
use yspot.Index.Table.Fenced.Hits.{OccursAt, IsPlain, hit_in_record}
use yspot.Index.Volume.{VolumeIndex, new_index, apply_all}
use yspot.Index.Volume.Sound.{IsSound, new_index-IsSound, events-IsSound}
use yspot.Index.Volume.Gated.{IsGated, new_index-IsGated, apply_all-IsGated}

taken_at_front : (bs q : Bytes) → OccursAt bs 0 q → take (length q) bs ≡ q
taken_at_front bs [] o = refl
taken_at_front [] (y ∷ q) o = let h = o 0 y refl in absurd (ground arith)
taken_at_front (x ∷ bs) (y ∷ q) o =
    let h : some x ≡ some y = o 0 y refl in
    let e : x ≡ y = ground arith in
    rw e (
      ap (◌∷◌ y) (
        taken_at_front bs q (λ i b g.
          let k = o (suc i) b g in let n : 0 + suc i ≡ suc (0 + i) = omega arith in rw n at k)))

-- Where a text occurs, it is the slice there.
slice-OccursAt : (bs q : Bytes) (h : ℕ) → OccursAt bs h q → slice bs h (length q) ≡ q
slice-OccursAt bs q zero o = taken_at_front bs q o
slice-OccursAt [] [] (suc h) o = refl
slice-OccursAt [] (y ∷ q) (suc h) o = let k = o 0 y refl in absurd (ground arith)
slice-OccursAt (x ∷ bs) q (suc h) o =
    slice-OccursAt bs q h
      (λ i b g. let k = o i b g in let n : suc h + i ≡ suc (h + i) = omega arith in rw n at k)

OccursAt-slice :
    (bs q : Bytes) (o l h : ℕ)
    → o ≤ h
    → h + length q ≤ o + l
    → OccursAt bs h q
    → OccursAt (slice bs o l) (h - o) q
OccursAt-slice bs q o l h from to occ i b g =
    let k = lt_of_get_elem? q i g in
    let n : o + ((h - o) + i) ≡ h + i = omega arith in
    get_elem?-slice bs o l ((h - o) + i) (omega arith) ∙ rw n (occ i b g)

arena_may_contain-OccursAt :
    (ix : VolumeIndex)
    → IsSound ix
    → IsGated ix
    → (q : Bytes) (h : ℕ) → IsPlain q
    → 0 < length q
    → OccursAt ix.table.arenas.folded h q
    → arena_may_contain ix.columns.presence q ≡ true
arena_may_contain-OccursAt ix s g q h plain ne occ =
    let (slot, e, l, w) = hit_in_record ix.table s.valid s.fenced q h plain occ ne in
    let name = slice ix.table.arenas.folded e.folded_off e.folded_len in
    let open_for =
      g e.frn (file_of ix.table.arenas e) (lookup_file-LiveAt ix.table s.valid slot e l) in
    let part =
      slice-OccursAt name q (h - e.folded_off)
        (OccursAt-slice ix.table.arenas.folded q e.folded_off e.folded_len h w.0 w.1 occ) in
    subst (λ (x : Bytes). arena_may_contain ix.columns.presence x ≡ true) part
      (arena_may_contain-slice ix.columns.presence (h - e.folded_off) (length q) name open_for)

-- After any sequence of timed events from an empty index, if a nonempty text without delimiters occurs in
-- the folded arena, the gate on the arena's bytes, bigrams and trigrams lets the text through.
pub arena_may_contain-apply_all :
    (u : Unicode) (root : Bytes) (events : List (ℕ × UsnEvent)) (q : Bytes) (h : ℕ)
    → IsPlain q
    → 0 < length q
    → OccursAt (apply_all u (new_index root) events).table.arenas.folded h q
    → arena_may_contain (apply_all u (new_index root) events).columns.presence q ≡ true
arena_may_contain-apply_all u root events q h plain ne occ =
    arena_may_contain-OccursAt (apply_all u (new_index root) events) (events-IsSound u root events)
      (apply_all-IsGated u (new_index root) events (new_index-IsSound root)
        (new_index-IsGated root))
      q h plain ne occ
