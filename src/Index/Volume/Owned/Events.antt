-- ===== src/Index/Volume/Owned/Events.antt =====
-- Every event leaves the owners right, and so a hit gives the slot of the file that it stands in.
use yspot.Prelude.{
  ℕ, ◌+◌, ◌≤◌, ◌<◌, ◌≡◌, refl, sym, ap, ◌∙◌, inl, inr, List, [], ◌∷◌, Bytes, length, arith, Option,
  none, some, get_elem?, Bool-cases, Option-cases,
}
use mathlib.Core.Path.{subst}
use yspot.Text.{Unicode}
use yspot.Index.Types.{Entry, UsnEvent, create, delete, rename, security_change}
use yspot.Index.Arena.{intern}
use yspot.Index.Table.{Table, vacate}
use yspot.Index.Table.Valid.{LiveAt}
use yspot.Index.Table.Extend.{with_arenas}
use yspot.Index.Volume.{
  VolumeIndex, unregister_slot, note_reparent, arm_for_removal, slot_for, flags_of, with_interned,
  table_full, add_interned, rename_interned, rename_at, remove_at, add_entry, remove_entry,
  rename_entry, apply, apply_all, new_index,
}
use yspot.Index.Volume.Scanned.{
  same_records, unregister_slot-scanned, note_reparent-scanned, slot_for-scanned, remove_at-scanned,
}
use yspot.Index.Volume.Steps.{IsReady-vacate, arm_for_removal-table, unregister_slot-table}
use yspot.Index.Volume.Events.{extended, torn_down, slot_for-IsReady}
use yspot.Index.Volume.Sound.{IsSound, apply-IsSound, events-IsSound, new_index-IsSound}
use yspot.Matching.Scan.{slot_at}
use yspot.Matching.Scan.Owner.{slot_at-held}
use yspot.Index.Volume.Owned.{Records, OwnedBy, IsOwnedIndex, bound-IsOwnedIndex}

-- Fewer live entries over the same arena.
OwnedBy-fewer :
    (t t' : Table) (p : Records)
    → length t'.arenas.folded ≡ length t.arenas.folded
    → ((s : ℕ) (e : Entry) → LiveAt t' s e → LiveAt t s e)
    → OwnedBy t p
    → OwnedBy t' p
OwnedBy-fewer t t' (recs, owner) size fewer o = (rw size o.0, λ s e l. o.1 s e (fewer s e l))

module _ (u : Unicode) (now : ℕ) (ix : VolumeIndex) (s : IsSound ix) (o : IsOwnedIndex ix) where
  add_entry-IsOwnedIndex :
      (frn parent_frn flags : ℕ) (name : Bytes)
      → IsOwnedIndex (add_entry u now ix frn parent_frn name flags)
  unfolding add_entry
  add_entry-IsOwnedIndex frn parent_frn flags name =
      elim (Bool-cases (table_full ix (ix.table.frn_map frn))) [
        | inl full ↦ rw full o
        | inr room ↦ elim (Option-cases (intern u ix.table.arenas name)) [
          | inl e ↦ rw (room, e) (unfold with_interned in o)
          | inr ((i, a), e) ↦
              let ix1 : VolumeIndex = record ix { table = with_arenas ix.table a } in
              let at = slot_for now ix1 parent_frn (ix.table.frn_map frn) in
              let ok = extended u now ix s.valid s.fenced frn parent_frn flags name i a e in
              rw (room, e)
                (unfold with_interned add_interned in
                  bound-IsOwnedIndex u now ix s.valid o frn parent_frn flags name i a e at.0 at.1
                    (slot_for-IsReady now ix1 parent_frn frn (ix.table.frn_map frn) ok refl)
                    (same_records (slot_for-scanned now ix1 parent_frn (ix.table.frn_map frn))))
        ]
      ]

  rename_at-IsOwnedIndex :
      (frn parent_frn : ℕ) (name : Bytes) (o' : Option ℕ)
      → ix.table.frn_map frn ≡ o'
      → IsOwnedIndex (rename_at u now ix frn parent_frn name o')
  unfolding rename_at
  rename_at-IsOwnedIndex frn parent_frn name none m = o
  rename_at-IsOwnedIndex frn parent_frn name (some slot) m =
      let (x, l, q) = s.valid.held frn slot m in
      elim (Option-cases (intern u ix.table.arenas name)) [
        | inl e ↦ rw e (unfold with_interned in o)
        | inr ((i, a), e) ↦
            let ix1 : VolumeIndex = record ix { table = with_arenas ix.table a } in
            let held = get_elem? ix.table.entries slot in
            let gone = unregister_slot (note_reparent now ix1 held parent_frn) slot in
            let ok = extended u now ix s.valid s.fenced frn parent_frn (flags_of held) name i a e in
            rw e (
              unfold with_interned rename_interned in
              bound-IsOwnedIndex u now ix s.valid o frn parent_frn (flags_of held) name i a e slot
                gone
                (rw (torn_down now ix1 slot parent_frn x l.0)
                  (IsReady-vacate ix1.table slot x frn ok l q))
                (same_records (
                  unregister_slot-scanned (note_reparent now ix1 held parent_frn) slot
                  ∙ note_reparent-scanned now ix1 held parent_frn)))
      ]

  remove_at-IsOwnedIndex :
      (frn : ℕ) (o' : Option ℕ) → ix.table.frn_map frn ≡ o' → IsOwnedIndex (remove_at now ix o')
  unfolding remove_at
  remove_at-IsOwnedIndex frn none m = o
  remove_at-IsOwnedIndex frn (some slot) m =
      let (x, l, q) = s.valid.held frn slot m in
      let gone = arm_for_removal now ix (get_elem? ix.table.entries slot) in
      let table = arm_for_removal-table now ix (get_elem? ix.table.entries slot) in
      let ready = IsReady-vacate ix.table slot x frn s.valid l q in
      let now_table : (unregister_slot gone slot).table ≡ vacate slot x ix.table =
        unregister_slot-table gone slot x (rw table l.0) ∙ ap (vacate slot x) table in
      subst (λ (p : Records). OwnedBy (unregister_slot gone slot).table p)
        (sym (same_records (remove_at-scanned now ix (some slot))))
        (rw now_table (
          OwnedBy-fewer ix.table (vacate slot x ix.table) (ix.columns.arena_recs, ix.columns.owner)
            ready.folded_same ready.fewer o))

  apply-IsOwnedIndex : (ev : UsnEvent) → IsOwnedIndex (apply u now ix ev)
  unfolding apply
  apply-IsOwnedIndex (create frn parent_frn name flags) =
      add_entry-IsOwnedIndex frn parent_frn flags name
  apply-IsOwnedIndex (delete frn) =
      unfold remove_entry in remove_at-IsOwnedIndex frn (ix.table.frn_map frn) refl
  apply-IsOwnedIndex (rename frn parent_frn name) =
      unfold rename_entry in rename_at-IsOwnedIndex frn parent_frn name (ix.table.frn_map frn) refl
  apply-IsOwnedIndex (security_change frn) = o

apply_all-IsOwnedIndex :
    (u : Unicode) (ix : VolumeIndex) (events : List (ℕ × UsnEvent))
    → IsSound ix
    → IsOwnedIndex ix
    → IsOwnedIndex (apply_all u ix events)
unfolding apply_all
apply_all-IsOwnedIndex u ix [] s o = o
apply_all-IsOwnedIndex u ix ((now, ev) ∷ events) s o =
    apply_all-IsOwnedIndex u (apply u now ix ev) events (apply-IsSound u now ix s ev)
      (apply-IsOwnedIndex u now ix s o ev)

new_index-IsOwnedIndex : (root : Bytes) → IsOwnedIndex (new_index root)
unfolding new_index
new_index-IsOwnedIndex root = (
  record { ascends = tt; below = tt; covered = omega arith; reaches = λ b ri h. ground arith },
  λ s e l. let no_entry : none ≡ some e = l.0 in absurd (ground arith),
)

-- After any sequence of timed events from an empty index: a byte of a live entry's folded name is mapped to the slot of
-- that entry, whatever was renamed or deleted before, and whichever slots were used again.
pub slot_at-apply_all :
    (u : Unicode) (root : Bytes) (events : List (ℕ × UsnEvent)) (s hit : ℕ) (e : Entry)
    → LiveAt (apply_all u (new_index root) events).table s e
    → e.folded_off ≤ hit
    → hit < e.folded_off + e.folded_len
    → slot_at
        (apply_all u (new_index root) events).columns.owner
        (apply_all u (new_index root) events).columns.arena_recs
        (apply_all u (new_index root) events).table.entries
        hit
      ≡ some s
slot_at-apply_all u root events s hit e l lo hi =
    let ix = apply_all u (new_index root) events in
    let sound = events-IsSound u root events in
    let o =
      apply_all-IsOwnedIndex u (new_index root) events (new_index-IsSound root)
        (new_index-IsOwnedIndex root) in
    let there = (sound.valid.in_arenas s e l).folded_in in
    slot_at-held (length ix.table.arenas.folded) ix.columns.arena_recs ix.columns.owner
      ix.table.entries e s hit o.0 l.0 l.1 (o.1 s e l) lo hi (omega arith)
