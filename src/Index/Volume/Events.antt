-- ===== src/Index/Volume/Events.antt =====
-- Each mutation of the index keeps the table's invariant, and changes the files that the index holds as
-- the abstract map of files changes.
use yspot.Prelude.{
  ℕ, ◌≡◌, refl, ◌∙◌, List, [], ◌∷◌, Bytes, Option, none, some, get_elem?, ◌==◌, if◌then◌else◌,
}
use yspot.Text.{Unicode}
use yspot.Index.Flags.{dead, without_flag}
use yspot.Index.Types.{Entry, UsnEvent, create, delete, rename, security_change}
use yspot.Index.Arena.{Arenas, Interned, intern, usable_name}
use yspot.Index.Arena.Laws.{intern-Stored, usable_name-plain}
use yspot.Index.Table.{Table, vacate}
use yspot.Index.Table.Valid.{LiveAt, IsValid}
use yspot.Index.Table.Extend.{with_arenas, with_arenas-IsValid}
use yspot.Index.Table.Files.{File, lookup_file}
use yspot.Index.Table.Fenced.{IsFenced}
use yspot.Index.Volume.{
  VolumeIndex, register_slot, unregister_slot, note_reparent, pop_from, slot_for,
}
use yspot.Index.Volume.Steps.{
  note_reparent-table, unregister_slot-table, register_slot-table, IsReady, IsReady-vacate,
  IsReady-next, IsReady-pop, bind_ready-IsValid, lookup_file-bind_ready, bind_ready-IsFenced,
}

-- The entry at the slot of a file that the map holds.
slot-LiveAt :
    (t : Table)
    → IsValid t
    → (f s : ℕ) → t.frn_map f ≡ some s
    → (e : Entry) × LiveAt t s e × (e.frn ≡ f)
slot-LiveAt t v f s h = v.held f s h

pub torn_down :
    (now : ℕ) (ix : VolumeIndex) (s p : ℕ) (e : Entry)
    → get_elem? ix.table.entries s ≡ some e
    → (unregister_slot (note_reparent now ix (get_elem? ix.table.entries s) p) s).table
      ≡ vacate s e ix.table
torn_down now ix s p e g =
    let same = note_reparent-table now ix (get_elem? ix.table.entries s) p in
    unregister_slot-table (note_reparent now ix (get_elem? ix.table.entries s) p) s e (rw same g)
    ∙ rw same

abbrev ReadyPair : VolumeIndex → ℕ → ℕ × VolumeIndex → Type 0
ReadyPair ix frn r = IsReady ix.table frn r.0 r.1.table

pop_from-IsReady :
    (ix : VolumeIndex) (frn : ℕ) (l : List ℕ)
    → IsValid ix.table
    → ix.table.frn_map frn ≡ none
    → ix.table.free_slots ≡ l
    → ReadyPair ix frn (pop_from ix l)
pop_from-IsReady ix frn [] v m e = IsReady-next ix.table frn v m e
pop_from-IsReady ix frn (s ∷ rest) v m e = IsReady-pop ix.table frn s rest v m e

pub slot_for-IsReady :
    (now : ℕ) (ix : VolumeIndex) (p frn : ℕ) (o : Option ℕ)
    → IsValid ix.table
    → ix.table.frn_map frn ≡ o
    → ReadyPair ix frn (slot_for now ix p o)
unfolding slot_for
slot_for-IsReady now ix p frn none v m = pop_from-IsReady ix frn ix.table.free_slots v m refl
slot_for-IsReady now ix p frn (some s) v m =
    let (e, l, q) = v.held frn s m in
    rw (torn_down now ix s p e l.0) (IsReady-vacate ix.table s e frn v l q)

-- ---- the abstract map of files

abbrev pub Files : Type 0
Files = ℕ → Option File

abbrev pub put_file : ℕ → ℕ → ℕ → Option (Bytes × Bytes) → Files → Files
put_file frn parent_frn flags none files f = files f
put_file frn parent_frn flags (some (nfc, folded)) files f =
    if f == frn
    then some (record {
      parent_frn = parent_frn;
      name = nfc;
      folded = folded;
      flags = without_flag dead flags;
    })
    else files f

abbrev pub move_file : ℕ → ℕ → Option (Bytes × Bytes) → Option File → Files → Files
move_file frn parent_frn forms none files f = files f
move_file frn parent_frn forms (some old) files f = put_file frn parent_frn old.flags forms files f

-- What an event means: a create puts a file, if its name can be stored; a rename moves one that is held,
-- with its flags; a delete takes it out.
abbrev pub spec_apply : Unicode → UsnEvent → Files → Files
spec_apply u (create frn parent_frn name flags) files =
    put_file frn parent_frn flags (usable_name u name) files
spec_apply u (delete frn) files = λ f. if f == frn then none else files f
spec_apply u (rename frn parent_frn name) files =
    move_file frn parent_frn (usable_name u name) (files frn) files
spec_apply u (security_change frn) files = files

-- The table after an event: valid, its arena well formed, with the files that are meant.
pub record HasFiles (t : Table) (files : Files) : Type 0 where
  pub valid : IsValid t
  pub fenced : IsFenced t 0 0
  pub agrees : (f : ℕ) → lookup_file t f ≡ files f

module _ (u : Unicode) (now : ℕ) (ix : VolumeIndex) (v : IsValid ix.table)
    (w : IsFenced ix.table 0 0) where
  -- The name is stored, at `i` in the arenas `a`.
  module _ (frn parent_frn flags : ℕ) (name : Bytes) (i : Interned) (a : Arenas)
      (stored : intern u ix.table.arenas name ≡ some (i, a)) where
    abbrev pub ix' : VolumeIndex
    ix' = record ix { table = with_arenas ix.table a }

    pub bound :
        (slot : ℕ) (ready : VolumeIndex)
        → IsReady ix'.table frn slot ready.table
        → HasFiles
            (register_slot u ready slot frn parent_frn i flags).table
            (put_file frn parent_frn flags (usable_name u name) (lookup_file ix.table))
    bound slot ready r =
        let st = intern-Stored u ix.table.arenas name i a stored in
        let (ne, plain) = usable_name-plain u name st.nfc st.folded st.usable in
        rw (register_slot-table u ready slot frn parent_frn i flags) (record {
          valid =
              bind_ready-IsValid ix.table st.nfc st.folded i a st.appended v ne frn parent_frn flags
                slot ready.table r;
          fenced =
              bind_ready-IsFenced ix.table st.nfc st.folded i a st.appended v ne frn parent_frn
                flags slot ready.table r w plain;
          agrees = λ f. rw st.usable (
              lookup_file-bind_ready ix.table st.nfc st.folded i a st.appended v ne frn parent_frn
                flags slot ready.table r f);
        })

    pub extended : IsValid ix'.table
    extended =
        let st = intern-Stored u ix.table.arenas name i a stored in
        with_arenas-IsValid ix.table st.nfc st.folded i a st.appended v

    pub added :
        HasFiles
          (let (slot, ready) = slot_for now ix' parent_frn (ix.table.frn_map frn) in
            register_slot u ready slot frn parent_frn i flags).table
          (put_file frn parent_frn flags (usable_name u name) (lookup_file ix.table))
    added =
        let r = slot_for now ix' parent_frn (ix.table.frn_map frn) in
        bound r.0 r.1 (slot_for-IsReady now ix' parent_frn frn (ix.table.frn_map frn) extended refl)
