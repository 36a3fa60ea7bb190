-- ===== src/Index/Volume/Refines.antt =====
-- The index refines a map from file numbers to files.
use yspot.Prelude.{
  ℕ, ◌+◌, ◌≤◌, ◌<◌, ◌≡◌, refl, inl, inr, List, ◌∷◌, Bytes, length, arith, Option, none, some,
  get_elem?, ◌==◌, if◌then◌else◌, Bool-cases, Option-cases, false, ◌∙◌, ==_iff, ap,
}
use yspot.Prelude.{◌≢◌}
use yspot.Text.{Unicode, fold, truncate_to_boundary}
use yspot.Text.Laws.{length-truncate_to_boundary}
use yspot.Index.Types.{Entry, UsnEvent, create, delete, rename, security_change}
use yspot.Index.Arena.{Arenas, Interned, intern, usable_name, append_name, u16_max, u32_max}
use yspot.Index.Table.Valid.{LiveAt, IsValid}
use yspot.Index.Table.{Table, vacate}
use yspot.Index.Table.Vacate.{vacate-IsValid, vacate-IsVacant, DeadAt-vacate_self}
use yspot.Index.Table.Files.{
  file_of, lookup_file, lookup_file-vacate, lookup_file-none, lookup_file-LiveAt,
}
use yspot.Index.Table.Fenced.{IsFenced, IsFenced-with_free, vacate-IsFenced}
use yspot.Index.Table.Extend.{with_arenas}
use mathlib.Core.Path.{subst}
use yspot.Index.Volume.Steps.{arm_for_removal-table, unregister_slot-table, IsReady-vacate}
use yspot.Index.Volume.{
  VolumeIndex, register_slot, unregister_slot, note_reparent, flags_of, arm_for_removal,
  with_interned, table_full, add_interned, rename_interned, rename_at, remove_at, add_entry,
  remove_entry, rename_entry, apply,
}
use yspot.Index.Volume.Events.{
  spec_apply, put_file, move_file, HasFiles, added, bound, extended, torn_down,
}

-- The 32-bit offsets and slots are not exhausted.
pub record HasRoom (ix : VolumeIndex) : Type 0 where
  pub names : length ix.table.arenas.names + u16_max ≤ u32_max
  pub folded : length ix.table.arenas.folded + u16_max + 2 ≤ u32_max
  pub slots : length ix.table.entries < u32_max

usable_name-lengths :
    (u : Unicode) (name nfc folded : Bytes)
    → usable_name u name ≡ some (nfc, folded)
    → (length nfc ≤ u16_max) × (length folded ≤ u16_max)
unfolding usable_name
usable_name-lengths u name nfc folded h = ground (
  arith,
  length-truncate_to_boundary (u.nfc name) u16_max,
  length-truncate_to_boundary (fold u (truncate_to_boundary (u.nfc name) u16_max)) u16_max,
)

append_name_fits :
    (a : Arenas) (nfc folded : Bytes)
    → length a.names + length nfc ≤ u32_max
    → length a.folded + length folded + 2 ≤ u32_max
    → (append_name a nfc folded ≢ none)
unfolding append_name
append_name_fits a nfc folded h k = ground arith

intern-none :
    (u : Unicode) (ix : VolumeIndex) (name : Bytes)
    → HasRoom ix
    → intern u ix.table.arenas name ≡ none
    → usable_name u name ≡ none
intern-none u ix name room h = elim (Option-cases (usable_name u name)) [
  | inl e ↦ e
  | inr ((nfc, folded), e) ↦
      let l = usable_name-lengths u name nfc folded e in
      absurd (
        append_name_fits ix.table.arenas nfc folded (omega (arith, room.names))
          (omega (arith, room.folded)) (unfold intern in (rw (e, intern) at h)))
]

lookup_file-with_free :
    (t : Table) (l : List ℕ) (f : ℕ) → lookup_file (record t { free_slots = l }) f ≡ lookup_file t f
unfolding lookup_file
lookup_file-with_free t l f = refl

-- A vacated slot may be offered for reuse.
offered :
    (t : Table) (s : ℕ) (x : Entry)
    → IsValid t
    → LiveAt t s x
    → IsValid (record (vacate s x t) { free_slots = s ∷ (vacate s x t).free_slots })
offered t s x v l =
    let w = vacate-IsValid t s x v l in
    let o = vacate-IsVacant t s x v l in
    record {
      mapped = w.mapped;
      held = w.held;
      counted = w.counted;
      in_arenas = w.in_arenas;
      apart = w.apart;
      free_dead = (DeadAt-vacate_self t s x v l, w.free_dead);
      free_distinct = (o.not_free, w.free_distinct);
    }

module _ (u : Unicode) (now : ℕ) (ix : VolumeIndex) (v : IsValid ix.table)
    (w : IsFenced ix.table 0 0) where
  same_files : HasFiles ix.table (lookup_file ix.table)
  same_files = record { valid = v; fenced = w; agrees = λ f. refl }

  no_file :
      (frn parent_frn flags : ℕ) (name : Bytes)
      → usable_name u name ≡ none
      → HasFiles ix.table
          (put_file frn parent_frn flags (usable_name u name) (lookup_file ix.table))
  no_file frn parent_frn flags name e = rw e same_files

  not_full : (o : Option ℕ) → HasRoom ix → table_full ix o ≡ false
  unfolding table_full
  not_full none room = ground (arith, room.slots)
  not_full (some s) room = refl

  -- A create, in an index with room.
  add_entry-HasFiles :
      (frn parent_frn flags : ℕ) (name : Bytes)
      → HasRoom ix
      → HasFiles
          (add_entry u now ix frn parent_frn name flags).table
          (put_file frn parent_frn flags (usable_name u name) (lookup_file ix.table))
  unfolding add_entry
  add_entry-HasFiles frn parent_frn flags name room =
      elim (Option-cases (intern u ix.table.arenas name)) [
        | inl e ↦
            rw (not_full (ix.table.frn_map frn) room, e)
              (unfold with_interned in
                no_file frn parent_frn flags name (intern-none u ix name room e))
        | inr ((i, a), e) ↦
            rw (not_full (ix.table.frn_map frn) room, e)
              (unfold with_interned add_interned in
                added u now ix v w frn parent_frn flags name i a e)
      ]

  -- The slot is torn down and registered again, with the flags that it had.
  pub renamed :
      (frn parent_frn : ℕ) (name : Bytes) (i : Interned) (a : Arenas)
      → intern u ix.table.arenas name ≡ some (i, a)
      → (s : ℕ) (x : Entry) → LiveAt ix.table s x
      → x.frn ≡ frn
      → HasFiles
          (rename_interned u now frn parent_frn s
            (record ix { table = with_arenas ix.table a })
            i).table
          (put_file frn parent_frn x.flags (usable_name u name) (lookup_file ix.table))
  unfolding rename_interned
  renamed frn parent_frn name i a e s x l q =
      let ix1 : VolumeIndex = record ix { table = with_arenas ix.table a } in
      let held = get_elem? ix.table.entries s in
      let gone = unregister_slot (note_reparent now ix1 held parent_frn) s in
      let ready =
        IsReady-vacate ix1.table s x frn
          (extended u now ix v w frn parent_frn (flags_of held) name i a e) l q in
      subst
        (λ (fl : ℕ).
          HasFiles (register_slot u gone s frn parent_frn i (flags_of held)).table
            (put_file frn parent_frn fl (usable_name u name) (lookup_file ix.table)))
        (ap flags_of l.0)
        (bound u now ix v w frn parent_frn (flags_of held) name i a e s gone
          (rw (torn_down now ix1 s parent_frn x l.0) ready))

  rename_at-HasFiles :
      (frn parent_frn : ℕ) (name : Bytes) (o : Option ℕ)
      → ix.table.frn_map frn ≡ o
      → HasRoom ix
      → HasFiles (rename_at u now ix frn parent_frn name o).table (
          move_file frn parent_frn
            (usable_name u name)
            (lookup_file ix.table frn)
            (lookup_file ix.table))
  unfolding rename_at
  rename_at-HasFiles frn parent_frn name none m room =
      rw (lookup_file-none ix.table frn m) same_files
  rename_at-HasFiles frn parent_frn name (some s) m room =
      let (x, l, q) = v.held frn s m in
      let here : lookup_file ix.table frn ≡ some (file_of ix.table.arenas x) =
        rw (← q) (lookup_file-LiveAt ix.table v s x l) in
      rw here (elim (Option-cases (intern u ix.table.arenas name)) [
        | inl e ↦ rw e (
            unfold with_interned in
            no_file frn parent_frn x.flags name (intern-none u ix name room e))
        | inr ((i, a), e) ↦ rw e (unfold with_interned in renamed frn parent_frn name i a e s x l q)
      ])

  rename_entry-HasFiles :
      (frn parent_frn : ℕ) (name : Bytes)
      → HasRoom ix
      → HasFiles (rename_entry u now ix frn parent_frn name).table (
          move_file frn parent_frn
            (usable_name u name)
            (lookup_file ix.table frn)
            (lookup_file ix.table))
  unfolding rename_entry
  rename_entry-HasFiles frn parent_frn name room =
      rename_at-HasFiles frn parent_frn name (ix.table.frn_map frn) refl room

  remove_at-HasFiles :
      (frn : ℕ) (o : Option ℕ)
      → ix.table.frn_map frn ≡ o
      → HasFiles (remove_at now ix o).table (λ f. if f == frn then none else lookup_file ix.table f)
  unfolding remove_at
  remove_at-HasFiles frn none m = record {
    valid = v;
    fenced = w;
    agrees = λ f. elim (Bool-cases (f == frn)) [
      | inl same ↦ rw same (lookup_file-none ix.table f (rw ((==_iff f frn).0 same) m))
      | inr other ↦ rw other
    ];
  }
  remove_at-HasFiles frn (some s) m =
      let (x, l, q) = v.held frn s m in
      rw (removed s x l) (record {
        valid = offered ix.table s x v l;
        fenced =
            IsFenced-with_free (vacate s x ix.table) (s ∷ (vacate s x ix.table).free_slots) 0 0
              (vacate-IsFenced ix.table s x v l 0 0 w);
        agrees = λ f. rw (← q) (
            lookup_file-with_free (vacate s x ix.table) (s ∷ (vacate s x ix.table).free_slots) f
            ∙ lookup_file-vacate ix.table s x v l f);
      })
    where
      removed :
          (s : ℕ) (x : Entry)
          → LiveAt ix.table s x
          → (unregister_slot (arm_for_removal now ix (get_elem? ix.table.entries s)) s).table
            ≡ vacate s x ix.table
      removed s x l =
          let same = arm_for_removal-table now ix (get_elem? ix.table.entries s) in
          unregister_slot-table (arm_for_removal now ix (get_elem? ix.table.entries s)) s x
            (rw same l.0)
          ∙ rw same

  pub remove_entry-HasFiles :
      (frn : ℕ)
      → HasFiles
          (remove_entry u now ix frn).table
          (λ f. if f == frn then none else lookup_file ix.table f)
  unfolding remove_entry
  remove_entry-HasFiles frn = remove_at-HasFiles frn (ix.table.frn_map frn) refl

  -- After any event the table is valid, and holds the files that the event means.
  pub apply-HasFiles :
      (ev : UsnEvent)
      → HasRoom ix
      → HasFiles (apply u now ix ev).table (spec_apply u ev (lookup_file ix.table))
  unfolding apply
  apply-HasFiles (create frn parent_frn name flags) room =
      add_entry-HasFiles frn parent_frn flags name room
  apply-HasFiles (delete frn) room = remove_entry-HasFiles frn
  apply-HasFiles (rename frn parent_frn name) room = rename_entry-HasFiles frn parent_frn name room
  apply-HasFiles (security_change frn) room = same_files
