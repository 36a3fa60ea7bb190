-- ===== src/Index/Volume/Owned.antt =====
-- The owner index stays right under every event, so that a hit finds the file whose name it stands in.
pub mod Events
pub mod Hits
use Prim.Native.Nat.{◌-◌}
use yspot.Prelude.{
  ℕ, suc, ◌+◌, ◌≤◌, ◌<◌, ◌≡◌, ◌≢◌, refl, sym, ap, ◌∙◌, ◌⊎◌, inl, inr, List, [], ◌∷◌, ◌++◌, Bytes,
  length, length-append, arith, Option, none, some, get_elem?, ◌==◌, if◌then◌else◌, Bool-cases,
  Option-cases, Bool, false, true,
}
use mathlib.Core.Path.{subst}
use yspot.Prelude.Slices.{slice}
use yspot.Text.{Unicode}
use yspot.Index.Flags.{dead, without_flag}
use yspot.Index.Types.{Entry, ArenaRec, UsnEvent, create, delete, rename, security_change}
use yspot.Index.Arena.{Arenas, Interned, intern, fenced}
use yspot.Index.Arena.Laws.{intern-Stored, usable_name-plain, length-fenced}
use yspot.Index.Columns.{
  Columns, note_folded, note_initials_lane, initials_lane, grow_bsi, bsi_apply, push_arena_rec,
  extend_owner, class_mask,
}
use yspot.Index.Table.{Table, bind}
use yspot.Index.Table.Valid.{IsValid, LiveAt}
use yspot.Index.Table.Bind.{LiveAt-bind}
use yspot.Index.Table.Extend.{with_arenas}
use yspot.Index.Table.Fenced.{IsFenced}
use yspot.Index.Volume.{
  VolumeIndex, write_slot, register_columns, register_slot, unregister_slot, note_reparent,
  arm_for_removal, slot_for, flags_of, rank_key_of, head_pair, with_interned, table_full,
  add_interned, rename_interned, rename_at, remove_at, add_entry, remove_entry, rename_entry, apply,
  apply_all, new_index,
}
use yspot.Index.Volume.Scanned.{
  Scanned, scanned, same_records, write_slot-scanned, grow_bsi-scanned, unregister_slot-scanned,
  note_reparent-scanned, slot_for-scanned, remove_at-scanned,
}
use yspot.Index.Volume.Steps.{IsReady, IsReady-vacate, new_entry, register_slot-table}
use yspot.Index.Volume.Events.{bound, extended, torn_down, slot_for-IsReady}
use yspot.Index.Volume.Sound.{IsSound, apply-IsSound}
use yspot.Matching.Selector.Sorted.{In, In_of_All}
use yspot.Matching.Scan.Owner.{IsOwned, IsHeld}
use yspot.Matching.Scan.Owner.Push.{IsOwned-push, IsHeld-push, IsHeld-last}

abbrev pub Records : Type 0
Records = List ArenaRec × List ℕ

-- The records of a table: their owners are right, and each live entry has its own.
abbrev pub OwnedBy : Table → Records → Type 0
OwnedBy t (recs, owner) =
    IsOwned (length t.arenas.folded) recs owner
    × ((s : ℕ) (e : Entry)
        → LiveAt t s e
        → IsHeld recs (record { off = e.folded_off; slot = s }) e.folded_len)

abbrev pub IsOwnedIndex : VolumeIndex → Type 0
IsOwnedIndex ix = OwnedBy ix.table (ix.columns.arena_recs, ix.columns.owner)

abbrev pushed : ℕ → ℕ → ℕ → Records → Records
pushed off slot arena_len (recs, owner) = (
  recs ++ (record { off = off; slot = slot }) ∷ [],
  extend_owner arena_len (length (recs ++ (record { off = off; slot = slot }) ∷ []) - 1) arena_len
      owner,
)

register_columns-records :
    (u : Unicode) (ix : VolumeIndex) (slot frn parent_frn : ℕ) (i : Interned) (flags : ℕ)
    → (scanned (register_columns u ix slot frn parent_frn i flags)).1
      ≡ pushed i.folded_off slot (length ix.table.arenas.folded) (scanned ix.columns).1
unfolding register_columns push_arena_rec bsi_apply
register_columns-records u ix slot frn parent_frn i flags =
    let lane = initials_lane u (slice ix.table.arenas.names i.name_off i.name_len) in
    let folded = slice ix.table.arenas.folded i.folded_off i.folded_len in
    let key = rank_key_of ix slot frn parent_frn flags in
    let c1 = record ix.columns { presence = note_initials_lane lane ix.columns.presence } in
    let c2 = write_slot slot (slot == length ix.table.entries) key lane (head_pair folded) c1 in
    ap (pushed i.folded_off slot (length ix.table.arenas.folded)) (
      same_records
        (grow_bsi-scanned (slot + 1) (record c2 { presence = note_folded folded c2.presence }))
      ∙ same_records (
          write_slot-scanned slot (slot == length ix.table.entries) key lane (head_pair folded) c1))

length-fenced_nonempty : (bs : Bytes) → 0 < length bs → length (fenced bs) ≡ length bs
length-fenced_nonempty [] h = absurd (omega arith)
length-fenced_nonempty (b ∷ bs) h = refl

module _ (u : Unicode) (now : ℕ) (ix : VolumeIndex) (v : IsValid ix.table) (o : IsOwnedIndex ix)
    (frn parent_frn flags : ℕ) (name : Bytes) (i : Interned) (a : Arenas)
    (stored : intern u ix.table.arenas name ≡ some (i, a)) where
  pub bound-IsOwnedIndex :
      (slot : ℕ) (ready : VolumeIndex)
      → IsReady (with_arenas ix.table a) frn slot ready.table
      → (scanned ready.columns).1 ≡ (scanned ix.columns).1
      → IsOwnedIndex (register_slot u ready slot frn parent_frn i flags)
  unfolding bind
  bound-IsOwnedIndex slot ready r same =
      let all =
        register_columns-records u ready slot frn parent_frn i (without_flag dead flags)
        ∙ ap (pushed i.folded_off slot new) same in
      unfold register_slot in
      (subst (λ (p : Records). OwnedBy (bind slot e' ready.table) p) (sym all)
        (rw last (
          IsOwned-push old new i.folded_off slot new recs owner o.0 starts first ends (omega arith),
          held,
        )))
    where
      recs : List ArenaRec
      recs = ix.columns.arena_recs

      owner : List ℕ
      owner = ix.columns.owner

      n : ArenaRec
      n = record { off = i.folded_off; slot = slot }

      e' : Entry
      e' = new_entry frn parent_frn i flags

      old : ℕ
      old = length ix.table.arenas.folded

      new : ℕ
      new = length ready.table.arenas.folded

      last : length (recs ++ n ∷ []) - 1 ≡ length recs
      last = let e = length-append recs (n ∷ []) in omega arith

      starts : old ≤ i.folded_off
      starts =
          let at = (intern-Stored u ix.table.arenas name i a stored).appended.folded_off_eq in
          let l = length-fenced ix.table.arenas.folded in omega (arith, l.0)

      first : 0 < old → i.folded_off ≡ old
      first h =
          let at = (intern-Stored u ix.table.arenas name i a stored).appended.folded_off_eq in
          at ∙ length-fenced_nonempty ix.table.arenas.folded h

      ends : i.folded_off < new
      ends =
          let st = (intern-Stored u ix.table.arenas name i a stored) in
          let text = st.folded ++ 0 ∷ [] in
          let whole = ap length st.appended.folded_eq in
          let parts = length-append (fenced ix.table.arenas.folded) text in
          let more = length-append st.folded (0 ∷ []) in
          let at = st.appended.folded_off_eq in let size = r.folded_same in omega arith

      low : (x : ArenaRec) → In x recs → x.off < i.folded_off
      low x k =
          let l = In_of_All (λ (y : ArenaRec). y.off < old) recs x o.0.below k in
          omega (arith, starts)

      held :
          (s : ℕ) (e : Entry)
          → LiveAt (bind slot e' ready.table) s e
          → IsHeld (recs ++ n ∷ []) (record { off = e.folded_off; slot = s }) e.folded_len
      held s e l = elim (LiveAt-bind ready.table slot e' r.vacant s e l) [
        | inl (p, q) ↦ rw (p, q) (IsHeld-last i.folded_len recs n low)
        | inr (ne, k) ↦
            let was = r.fewer s e k in
            let there = (v.in_arenas s e was).folded_in in
            IsHeld-push e.folded_len recs (record { off = e.folded_off; slot = s }) n (o.1 s e was)
              (omega (arith, starts))
      ]
