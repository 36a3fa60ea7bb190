-- ===== src/Examples/CompactCases.antt =====
-- Compaction of small columns.
use yspot.Prelude.{
  ℕ, zero, suc, ◌+◌, ◌≤◌, ◌<◌, ◌≡◌, refl, ◌⊎◌, inl, inr, List, [], ◌∷◌, ◌++◌, some, Bytes,
  replicate, arith,
}
use yspot.Index.Types.{Entry, ArenaRec}
use yspot.Index.Compact.{remap_from, compact_slots, rebuild_owner}
use yspot.Index.Compact.Moves.{live_of}
use yspot.Index.Compact.Moves.Lanes.{flat, compact_slots-live}
use yspot.Index.Compact.Owners.{slot_at-rebuild_owner}
use yspot.Matching.Scan.{slot_at}
use yspot.Matching.Scan.Owner.{IsHeld}
use yspot.Matching.Selector.Sorted.{In}

-- A dead slot between two live ones; the second name lies across the start of a block.
abbrev a : Entry
a = record {
  frn = 20;
  parent_frn = 5;
  name_off = 0;
  folded_off = 1;
  name_len = 60;
  folded_len = 60;
  flags = 0;
}

abbrev gone : Entry
gone = record {
  frn = 21;
  parent_frn = 5;
  name_off = 60;
  folded_off = 62;
  name_len = 9;
  folded_len = 9;
  flags = 8;
}

abbrev b : Entry
b = record {
  frn = 22;
  parent_frn = 5;
  name_off = 60;
  folded_off = 62;
  name_len = 9;
  folded_len = 9;
  flags = 0;
}

abbrev entries : List Entry
entries = a ∷ gone ∷ b ∷ []

abbrev lanes : List Bytes
lanes = replicate 8 1 ∷ replicate 8 2 ∷ replicate 8 3 ∷ []

abbrev heads : List Bytes
heads = replicate 2 1 ∷ replicate 2 2 ∷ replicate 2 3 ∷ []

compact_slots-live_example :
    compact_slots (remap_from 0 entries) (record {
      entries = entries;
      rank_key = 4 ∷ 5 ∷ 6 ∷ [];
      initials = flat lanes;
      head = flat heads;
    })
    ≡ record {
      entries = live_of entries entries;
      rank_key = live_of entries (4 ∷ 5 ∷ 6 ∷ []);
      initials = flat (live_of entries lanes);
      head = flat (live_of entries heads);
    }
compact_slots-live_example =
    compact_slots-live entries (4 ∷ 5 ∷ 6 ∷ []) lanes heads refl (refl, (refl, (refl, tt))) refl
      (refl, (refl, (refl, tt))) refl

abbrev kept : List Entry
kept = a ∷ b ∷ []

abbrev recs : List ArenaRec
recs = record { off = 1; slot = 0 } ∷ record { off = 62; slot = 1 } ∷ []

held : IsHeld recs (record { off = 62; slot = 1 }) 9
held = (inr (inl refl), λ r i. apart r i)
  where
    apart : (r : ArenaRec) → In r recs → (r.off ≤ 62) ⊎ (62 + 9 < r.off)
    apart r (inl e) = let same = yspot.Prelude.ap (λ (x : ArenaRec). x.off) e in inl (omega arith)
    apart r (inr (inl e)) =
        let same = yspot.Prelude.ap (λ (x : ArenaRec). x.off) e in inl (omega arith)
    apart r (inr (inr out)) = absurd out

slot_at-rebuild_owner_example : slot_at (rebuild_owner recs 72) recs kept 66 ≡ some 1
slot_at-rebuild_owner_example =
    slot_at-rebuild_owner recs 72 kept b 1 66 ((omega arith, tt), (tt, tt))
      (omega arith, (omega arith, tt)) refl refl held (omega arith) (omega arith) (omega arith)
