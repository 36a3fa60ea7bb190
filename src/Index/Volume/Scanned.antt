-- ===== src/Index/Volume/Scanned.antt =====
-- What a search scans beside the entries, the gates, the records and their owners, changes only where a slot is
-- registered: crates/yspot-index/src/index.rs.
use yspot.Prelude.{
  ℕ, ◌+◌, ◌*◌, ◌≡◌, refl, ap, ◌∙◌, inl, inr, List, [], ◌∷◌, Bytes, length, arith, Option, none,
  some, get_elem?, if◌then◌else◌, Bool-cases, Bool, false, true,
}
use yspot.Index.Types.{Entry, ArenaRec}
use yspot.Index.Columns.{Columns, Presence, grow_bsi, bsi_apply}
use yspot.Index.Volume.{
  VolumeIndex, write_slot, unregister_columns, unregister_entry, unregister_at, unregister_slot,
  note_reparent, arm_for_removal, pop_from, slot_for, remove_at,
}

abbrev pub Scanned : Type 0
Scanned = Presence × (List ArenaRec × List ℕ)

abbrev pub scanned : Columns → Scanned
scanned c = (c.presence, (c.arena_recs, c.owner))

-- The presence sets of what is scanned.
pub same_presence : {a b : Scanned} → a ≡ b → a.0 ≡ b.0
same_presence e = ap (λ (s : Scanned). s.0) e

-- The records and their owners.
pub same_records : {a b : Scanned} → a ≡ b → a.1 ≡ b.1
same_records e = ap (λ (s : Scanned). s.1) e

pub write_slot-scanned :
    (slot : ℕ) (b : Bool) (key : ℕ) (lane pair : Bytes) (c : Columns)
    → scanned (write_slot slot b key lane pair c) ≡ scanned c
unfolding write_slot
write_slot-scanned slot true key lane pair c = refl
write_slot-scanned slot false key lane pair c = refl

pub grow_bsi-scanned : (slots : ℕ) (c : Columns) → scanned (grow_bsi slots c) ≡ scanned c
unfolding grow_bsi
grow_bsi-scanned slots c = elim (Bool-cases (yspot.Prelude.leb slots (c.bsi_words * 64))) [
  | inl y ↦ rw y refl
  | inr n ↦ rw n refl
]

pub unregister_slot-scanned :
    (ix : VolumeIndex) (slot : ℕ) → scanned (unregister_slot ix slot).columns ≡ scanned ix.columns
unfolding unregister_slot unregister_entry unregister_columns bsi_apply
unregister_slot-scanned ix slot = at (get_elem? ix.table.entries slot)
  where
    at : (o : Option Entry) → scanned (unregister_at ix slot o).columns ≡ scanned ix.columns
    at none = refl
    at (some e) = refl

pub note_reparent-scanned :
    (now : ℕ) (ix : VolumeIndex) (o : Option Entry) (p : ℕ)
    → scanned (note_reparent now ix o p).columns ≡ scanned ix.columns
note_reparent-scanned now ix none p = refl
note_reparent-scanned now ix (some e) p = ground arith

pub slot_for-scanned :
    (now : ℕ) (ix : VolumeIndex) (p : ℕ) (o : Option ℕ)
    → scanned (slot_for now ix p o).1.columns ≡ scanned ix.columns
unfolding slot_for
slot_for-scanned now ix p none = popped ix.table.free_slots
  where
    popped : (l : List ℕ) → scanned (pop_from ix l).1.columns ≡ scanned ix.columns
    popped [] = refl
    popped (s ∷ rest) = refl
slot_for-scanned now ix p (some s) =
    let held = get_elem? ix.table.entries s in
    unregister_slot-scanned (note_reparent now ix held p) s ∙ note_reparent-scanned now ix held p

arm_for_removal-scanned :
    (now : ℕ) (ix : VolumeIndex) (o : Option Entry)
    → scanned (arm_for_removal now ix o).columns ≡ scanned ix.columns
arm_for_removal-scanned now ix none = refl
arm_for_removal-scanned now ix (some e) = ground arith

pub remove_at-scanned :
    (now : ℕ) (ix : VolumeIndex) (o : Option ℕ)
    → scanned (remove_at now ix o).columns ≡ scanned ix.columns
unfolding remove_at
remove_at-scanned now ix none = refl
remove_at-scanned now ix (some s) =
    let held = get_elem? ix.table.entries s in
    unregister_slot-scanned (arm_for_removal now ix held) s ∙ arm_for_removal-scanned now ix held
