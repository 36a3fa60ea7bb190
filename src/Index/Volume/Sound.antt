-- ===== src/Index/Volume/Sound.antt =====
-- The invariant of the index under any events, with room or without.
use yspot.Prelude.{
  ℕ, ◌≡◌, refl, inl, inr, List, [], ◌∷◌, Bytes, Option, none, some, Bool-cases, Option-cases, arith,
}
use yspot.Text.{Unicode}
use yspot.Index.Types.{UsnEvent, create, delete, rename, security_change}
use yspot.Index.Arena.{intern}
use yspot.Index.Table.Valid.{IsValid}
use yspot.Index.Table.Fenced.{IsFenced}
use yspot.Index.Table.Files.{lookup_file}
use yspot.Index.Volume.{
  VolumeIndex, new_index, with_interned, table_full, add_interned, rename_at, add_entry,
  rename_entry, apply, apply_all,
}
use yspot.Index.Volume.Events.{spec_apply, added}
use yspot.Index.Volume.Refines.{HasRoom, renamed, apply-HasFiles, remove_entry-HasFiles}

-- The entries, the map and the freelist agree, and the folded arena is well formed.
pub record IsSound (ix : VolumeIndex) : Type 0 where
  pub valid : IsValid ix.table
  pub fenced : IsFenced ix.table 0 0

module _ (u : Unicode) (now : ℕ) (ix : VolumeIndex) (s : IsSound ix) where
  add_entry-IsSound :
      (frn parent_frn flags : ℕ) (name : Bytes)
      → IsSound (add_entry u now ix frn parent_frn name flags)
  unfolding add_entry
  add_entry-IsSound frn parent_frn flags name =
      elim (Bool-cases (table_full ix (ix.table.frn_map frn))) [
        | inl full ↦ rw full s
        | inr room ↦ elim (Option-cases (intern u ix.table.arenas name)) [
          | inl e ↦ rw (room, e) (unfold with_interned in s)
          | inr ((i, a), e) ↦
              rw (room, e)
                (unfold with_interned add_interned in
                  (let h = added u now ix s.valid s.fenced frn parent_frn flags name i a e in
                    record { valid = h.valid; fenced = h.fenced }))
        ]
      ]

  rename_at-IsSound :
      (frn parent_frn : ℕ) (name : Bytes) (o : Option ℕ)
      → ix.table.frn_map frn ≡ o
      → IsSound (rename_at u now ix frn parent_frn name o)
  unfolding rename_at
  rename_at-IsSound frn parent_frn name none m = s
  rename_at-IsSound frn parent_frn name (some slot) m =
      let (x, l, q) = s.valid.held frn slot m in
      elim (Option-cases (intern u ix.table.arenas name)) [
        | inl e ↦ rw e (unfold with_interned in s)
        | inr ((i, a), e) ↦ rw e (
            unfold with_interned in
            (let h = renamed u now ix s.valid s.fenced frn parent_frn name i a e slot x l q in
              record { valid = h.valid; fenced = h.fenced }))
      ]

  pub apply-IsSound : (ev : UsnEvent) → IsSound (apply u now ix ev)
  unfolding apply
  apply-IsSound (create frn parent_frn name flags) = add_entry-IsSound frn parent_frn flags name
  apply-IsSound (delete frn) =
      let h = remove_entry-HasFiles u now ix s.valid s.fenced frn in
      record { valid = h.valid; fenced = h.fenced }
  apply-IsSound (rename frn parent_frn name) =
      unfold rename_entry in rename_at-IsSound frn parent_frn name (ix.table.frn_map frn) refl
  apply-IsSound (security_change frn) = s

pub new_index-IsSound : (root : Bytes) → IsSound (new_index root)
unfolding new_index
new_index-IsSound root = record {
  valid = record {
    mapped = λ s e l. ground arith;
    held = λ f s h. ground arith;
    counted = refl;
    in_arenas = λ s e l. ground arith;
    apart = λ r s a b l m n. ground arith;
    free_dead = tt;
    free_distinct = tt;
  };
  fenced = record {
    fences = λ s e l. ground arith;
    cover = λ h b g n. ground arith;
    ends = λ k p. ground arith;
  };
}

pub apply_all-IsSound :
    (u : Unicode) (ix : VolumeIndex) (events : List (ℕ × UsnEvent))
    → IsSound ix
    → IsSound (apply_all u ix events)
unfolding apply_all
apply_all-IsSound u ix [] s = s
apply_all-IsSound u ix ((now, ev) ∷ events) s =
    apply_all-IsSound u (apply u now ix ev) events (apply-IsSound u now ix s ev)

-- An index that starts empty is sound after any sequence of timed events.
pub events-IsSound :
    (u : Unicode) (root : Bytes) (events : List (ℕ × UsnEvent))
    → IsSound (apply_all u (new_index root) events)
events-IsSound u root events = apply_all-IsSound u (new_index root) events (new_index-IsSound root)

-- In a sound index with room, an event leaves the index sound, and changes the files that the index
-- holds exactly as it changes the abstract map of files.
pub apply-refines :
    (u : Unicode) (now : ℕ) (ix : VolumeIndex) (ev : UsnEvent)
    → IsSound ix
    → HasRoom ix
    → IsSound (apply u now ix ev)
      × ((f : ℕ)
          → lookup_file (apply u now ix ev).table f ≡ spec_apply u ev (lookup_file ix.table) f)
apply-refines u now ix ev s room =
    let h = apply-HasFiles u now ix s.valid s.fenced ev room in
    (record { valid = h.valid; fenced = h.fenced }, h.agrees)
