-- ===== src/Index/Volume/Gated.antt =====
-- The gate in front of the matcher's scan stays sound under every event: the folded name of each file that
-- the index holds passes it.
use yspot.Prelude.{
  ℕ, ◌+◌, ◌≡◌, refl, sym, ap, ◌∙◌, ◌⊎◌, inl, inr, List, [], ◌∷◌, Bytes, length, arith, Option, none,
  some, get_elem?, ◌==◌, if◌then◌else◌, Bool-cases, Option-cases, true,
}
use mathlib.Core.Option.{some-injective}
use yspot.Prelude.Slices.{slice}
use yspot.Text.{Unicode}
use yspot.Index.Flags.{dead, without_flag}
use yspot.Index.Types.{UsnEvent, create, delete, rename, security_change}
use yspot.Index.Arena.{Arenas, Interned, intern}
use yspot.Index.Arena.Laws.{intern-Stored, usable_name-plain}
use yspot.Index.Columns.{note_folded, note_initials_lane, initials_lane, bsi_apply, push_arena_rec}
use yspot.Index.Columns.Gates.{arena_may_contain}
use yspot.Index.Columns.Gates.Laws.{
  arena_may_contain-noted, arena_may_contain-note_folded, arena_may_contain-lane,
}
use yspot.Index.Table.Valid.{IsValid}
use yspot.Index.Table.Extend.{with_arenas}
use yspot.Index.Table.Files.{File, lookup_file}
use yspot.Index.Table.Fenced.{IsFenced}
use yspot.Index.Volume.{
  VolumeIndex, write_slot, register_columns, register_slot, unregister_slot, note_reparent,
  slot_for, flags_of, rank_key_of, head_pair, with_interned, table_full, add_interned,
  rename_interned, rename_at, add_entry, remove_entry, rename_entry, apply, apply_all, new_index,
}
use yspot.Index.Volume.Scanned.{
  same_presence, write_slot-scanned, grow_bsi-scanned, unregister_slot-scanned,
  note_reparent-scanned, slot_for-scanned, remove_at-scanned,
}
use yspot.Index.Volume.Steps.{IsReady, IsReady-vacate, file_new}
use yspot.Index.Volume.Events.{bound, extended, put_file, torn_down, slot_for-IsReady}
use yspot.Index.Volume.Refines.{remove_entry-HasFiles}
use yspot.Index.Volume.Sound.{IsSound, apply-IsSound}

abbrev pub IsGated : VolumeIndex → Type 0
IsGated ix =
    (f : ℕ) (x : File)
    → lookup_file ix.table f ≡ some x
    → arena_may_contain ix.columns.presence x.folded ≡ true

-- ---- registering a name

register_columns-presence :
    (u : Unicode) (ix : VolumeIndex) (slot frn parent_frn : ℕ) (i : Interned) (flags : ℕ)
    → (register_columns u ix slot frn parent_frn i flags).presence
      ≡ note_folded (slice ix.table.arenas.folded i.folded_off i.folded_len) (
          note_initials_lane
            (initials_lane u (slice ix.table.arenas.names i.name_off i.name_len))
            ix.columns.presence)
unfolding register_columns push_arena_rec bsi_apply
register_columns-presence u ix slot frn parent_frn i flags =
    let lane = initials_lane u (slice ix.table.arenas.names i.name_off i.name_len) in
    let folded = slice ix.table.arenas.folded i.folded_off i.folded_len in
    let key = rank_key_of ix slot frn parent_frn flags in
    let c1 = record ix.columns { presence = note_initials_lane lane ix.columns.presence } in
    let c2 = write_slot slot (slot == length ix.table.entries) key lane (head_pair folded) c1 in
    same_presence
      (grow_bsi-scanned (slot + 1) (record c2 { presence = note_folded folded c2.presence }))
    ∙ ap (note_folded folded) (
        same_presence (
          write_slot-scanned slot (slot == length ix.table.entries) key lane (head_pair folded) c1))

-- The name that is registered, and each that passed before, passes.
register_slot-passes :
    (u : Unicode) (ix : VolumeIndex) (slot frn parent_frn : ℕ) (i : Interned) (flags : ℕ)
    (q : Bytes)
    → (arena_may_contain ix.columns.presence q ≡ true)
      ⊎ (slice ix.table.arenas.folded i.folded_off i.folded_len ≡ q)
    → arena_may_contain (register_slot u ix slot frn parent_frn i flags).columns.presence q ≡ true
unfolding register_slot
register_slot-passes u ix slot frn parent_frn i flags q h =
    rw (register_columns-presence u ix slot frn parent_frn i (without_flag dead flags)) (by h)
  where
    by :
        (arena_may_contain ix.columns.presence q ≡ true)
          ⊎ (slice ix.table.arenas.folded i.folded_off i.folded_len ≡ q)
        → arena_may_contain
            (note_folded (slice ix.table.arenas.folded i.folded_off i.folded_len) (
              note_initials_lane
                (initials_lane u (slice ix.table.arenas.names i.name_off i.name_len))
                ix.columns.presence))
            q
          ≡ true
    by (inl k) =
        arena_may_contain-note_folded _ (slice ix.table.arenas.folded i.folded_off i.folded_len) q (
          arena_may_contain-lane ix.columns.presence
            (initials_lane u (slice ix.table.arenas.names i.name_off i.name_len)) q
          ∙ k)
    by (inr e) =
        rw (← e)
          (arena_may_contain-noted _ (slice ix.table.arenas.folded i.folded_off i.folded_len))

module _ (u : Unicode) (now : ℕ) (ix : VolumeIndex) (v : IsValid ix.table)
    (w : IsFenced ix.table 0 0) (g : IsGated ix) (frn parent_frn flags : ℕ) (name : Bytes)
    (i : Interned) (a : Arenas) (stored : intern u ix.table.arenas name ≡ some (i, a)) where
  pub bound-IsGated :
      (slot : ℕ) (ready : VolumeIndex)
      → IsReady (with_arenas ix.table a) frn slot ready.table
      → ready.columns.presence ≡ ix.columns.presence
      → IsGated (register_slot u ready slot frn parent_frn i flags)
  bound-IsGated slot ready r same f x h =
      let st = intern-Stored u ix.table.arenas name i a stored in
      let (ne, plain) = usable_name-plain u name st.nfc st.folded st.usable in
      let b = (bound u now ix v w frn parent_frn flags name i a stored slot ready r).agrees f in
      let text =
        ap (λ (y : File). y.folded)
          (file_new ix.table st.nfc st.folded i a st.appended v ne frn parent_frn flags slot
            ready.table r) in
      let put : put_file frn parent_frn flags (some (st.nfc, st.folded)) (lookup_file ix.table) f
          ≡ some x =
        rw st.usable at (sym b ∙ h) in
      register_slot-passes u ready slot frn parent_frn i flags x.folded
        (elim (Bool-cases (f == frn)) [
          | inl y ↦
              let e : some (record {
                parent_frn = parent_frn;
                name = st.nfc;
                folded = st.folded;
                flags = without_flag dead flags;
              })
                  ≡ some x =
                rw y at put in
              inr (text ∙ ap (λ (y : File). y.folded) (some-injective _ _ e))
          | inr n ↦ let e : lookup_file ix.table f ≡ some x = rw n at put in inl (rw same (g f x e))
        ])

module _ (u : Unicode) (now : ℕ) (ix : VolumeIndex) (s : IsSound ix) (g : IsGated ix) where
  add_entry-IsGated :
      (frn parent_frn flags : ℕ) (name : Bytes)
      → IsGated (add_entry u now ix frn parent_frn name flags)
  unfolding add_entry
  add_entry-IsGated frn parent_frn flags name =
      elim (Bool-cases (table_full ix (ix.table.frn_map frn))) [
        | inl full ↦ rw full g
        | inr room ↦ elim (Option-cases (intern u ix.table.arenas name)) [
          | inl e ↦ rw (room, e) (unfold with_interned in g)
          | inr ((i, a), e) ↦
              let ix1 : VolumeIndex = record ix { table = with_arenas ix.table a } in
              let at = slot_for now ix1 parent_frn (ix.table.frn_map frn) in
              let ok = extended u now ix s.valid s.fenced frn parent_frn flags name i a e in
              rw (room, e)
                (unfold with_interned add_interned in
                  bound-IsGated u now ix s.valid s.fenced g frn parent_frn flags name i a e at.0
                    at.1 (slot_for-IsReady now ix1 parent_frn frn (ix.table.frn_map frn) ok refl)
                    (same_presence (slot_for-scanned now ix1 parent_frn (ix.table.frn_map frn))))
        ]
      ]

  rename_at-IsGated :
      (frn parent_frn : ℕ) (name : Bytes) (o : Option ℕ)
      → ix.table.frn_map frn ≡ o
      → IsGated (rename_at u now ix frn parent_frn name o)
  unfolding rename_at
  rename_at-IsGated frn parent_frn name none m = g
  rename_at-IsGated frn parent_frn name (some slot) m =
      let (x, l, q) = s.valid.held frn slot m in
      elim (Option-cases (intern u ix.table.arenas name)) [
        | inl e ↦ rw e (unfold with_interned in g)
        | inr ((i, a), e) ↦
            let ix1 : VolumeIndex = record ix { table = with_arenas ix.table a } in
            let held = get_elem? ix.table.entries slot in
            let gone = unregister_slot (note_reparent now ix1 held parent_frn) slot in
            let ok = extended u now ix s.valid s.fenced frn parent_frn (flags_of held) name i a e in
            rw e (
              unfold with_interned rename_interned in
              bound-IsGated u now ix s.valid s.fenced g frn parent_frn (flags_of held) name i a e
                slot gone
                (rw (torn_down now ix1 slot parent_frn x l.0)
                  (IsReady-vacate ix1.table slot x frn ok l q))
                (same_presence (
                  unregister_slot-scanned (note_reparent now ix1 held parent_frn) slot
                  ∙ note_reparent-scanned now ix1 held parent_frn)))
      ]

  pub apply-IsGated : (ev : UsnEvent) → IsGated (apply u now ix ev)
  unfolding apply
  apply-IsGated (create frn parent_frn name flags) = add_entry-IsGated frn parent_frn flags name
  apply-IsGated (delete frn) = λ f x h.
      let d = (remove_entry-HasFiles u now ix s.valid s.fenced frn).agrees f in
      let kept : (if f == frn then none else lookup_file ix.table f) ≡ some x = sym d ∙ h in
      unfold remove_entry in
      (rw (same_presence (remove_at-scanned now ix (ix.table.frn_map frn)))
        (elim (Bool-cases (f == frn)) [
          | inl y ↦ let e : none ≡ some x = rw y at kept in absurd (ground arith)
          | inr n ↦ g f x (rw n at kept)
        ]))
  apply-IsGated (rename frn parent_frn name) =
      unfold rename_entry in rename_at-IsGated frn parent_frn name (ix.table.frn_map frn) refl
  apply-IsGated (security_change frn) = g

pub apply_all-IsGated :
    (u : Unicode) (ix : VolumeIndex) (events : List (ℕ × UsnEvent))
    → IsSound ix
    → IsGated ix
    → IsGated (apply_all u ix events)
unfolding apply_all
apply_all-IsGated u ix [] s g = g
apply_all-IsGated u ix ((now, ev) ∷ events) s g =
    apply_all-IsGated u (apply u now ix ev) events (apply-IsSound u now ix s ev)
      (apply-IsGated u now ix s g ev)

pub new_index-IsGated : (root : Bytes) → IsGated (new_index root)
unfolding new_index lookup_file
new_index-IsGated root f x h = ground arith
