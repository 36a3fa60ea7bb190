-- ===== src/Index/Compact.antt =====
-- Compaction and the end of a bulk load: crates/yspot-index/src/index.rs (`compact`, `resize_tri_present`, `finalize`).
-- The moves are in place as in the source; the records that stay are collected in front of those still to be read. A
-- slot out of range, where the source would panic, moves nothing. The release of spare capacity, and the count of the
-- bytes that it gives, are not modelled.
pub mod Moves
pub mod Owners
use Prim.Native.Nat.{◌-◌}
use yspot.Prelude.{
  ℕ, zero, suc, ◌+◌, ◌*◌, Bool, true, false, List, [], ◌∷◌, ◌++◌, Option, none, some, Bytes, leb,
  ltb, ◌==◌, if◌then◌else◌, length, get_elem?, set, take,
}
use yspot.Prelude.Slices.{slice}
use yspot.Index.Types.{Entry, is_dead, ArenaRec}
use yspot.Index.Arena.{Arenas}
use yspot.Index.Columns.{
  BitSet, Presence, Columns, empty_set, head_stride, initials_stride, folded_delim, class_mask,
  note_tri, note_folded, note_initials_lane, bsi_apply, extend_owner,
}
use yspot.Index.Table.{Table}
use yspot.Index.Volume.{VolumeIndex, copy_over}
use yspot.Index.Depth.{no_repair, sweep_all_depths}

-- `TRI_WORDS * 8`
abbrev pub tri_present_min_arena : ℕ
tri_present_min_arena = 2097152

-- ---- the new slots

-- The new slot of each old one, and none of a dead one; `kept` live ones stand before.
unfoldable pub remap_from : ℕ → List Entry → List (Option ℕ)
remap_from kept [] = []
remap_from kept (e ∷ es) =
    let rest = remap_from (if is_dead e then kept else kept + 1) es in
    (if is_dead e then none else some kept) ∷ rest

abbrev pub count_kept : List (Option ℕ) → ℕ
count_kept [] = 0
count_kept (none ∷ rest) = count_kept rest
count_kept (some _ ∷ rest) = suc (count_kept rest)

abbrev pub joined : Option (Option ℕ) → Option ℕ
joined none = none
joined (some o) = o

abbrev pub remapped : List (Option ℕ) → ℕ → Option ℕ
remapped remap slot = joined (get_elem? remap slot)

-- ---- the columns of a slot

-- `xs[ns] = xs[old]`
unfoldable pub move_elem {ℓ} : {A : Type ℓ} → ℕ → ℕ → List A → List A
move_elem old ns xs = elim (get_elem? xs old) [ none ↦ xs | some x ↦ set xs ns x ]

-- `copy_within(from..from + len, to)`
unfoldable pub copy_within : ℕ → ℕ → ℕ → Bytes → Bytes
unfolding copy_over
copy_within from len to xs = copy_over xs to (slice xs from len)

-- What is kept for each slot: the entries and the columns by slot.
pub record Slots : Type 0 where
  pub entries : List Entry
  pub rank_key : List ℕ
  pub initials : Bytes
  pub head : Bytes

unfoldable pub move_slot : ℕ → ℕ → Slots → Slots
unfolding move_elem copy_within
move_slot old ns s = record {
  entries = move_elem old ns s.entries;
  rank_key = move_elem old ns s.rank_key;
  initials = copy_within (old * initials_stride) initials_stride (ns * initials_stride) s.initials;
  head = copy_within (old * head_stride) head_stride (ns * head_stride) s.head;
}

-- From the slot `old` on.
unfoldable pub move_slots : List (Option ℕ) → ℕ → Slots → Slots
unfolding move_slot
move_slots [] old s = s
move_slots (none ∷ rest) old s = move_slots rest (old + 1) s
move_slots (some ns ∷ rest) old s = move_slots rest (old + 1) (move_slot old ns s)

abbrev pub truncate_slots : ℕ → Slots → Slots
truncate_slots n s = record {
  entries = take n s.entries;
  rank_key = take n s.rank_key;
  initials = take (n * initials_stride) s.initials;
  head = take (n * head_stride) s.head;
}

unfoldable pub compact_slots : List (Option ℕ) → Slots → Slots
unfolding move_slots
compact_slots remap s = truncate_slots (count_kept remap) (move_slots remap 0 s)

-- ---- the arenas

-- Between two records: the arenas, the entries, the records that stay, and where the next is written.
pub record Packing : Type 0 where
  pub folded : Bytes
  pub names : Bytes
  pub entries : List Entry
  pub recs : List ArenaRec
  pub fw : ℕ
  pub nw : ℕ

-- A record that stays. `e` is what its new slot holds.
unfoldable pub pack : ℕ → Entry → Packing → Packing
unfolding copy_within
pack ns e p = record {
  folded =
      set (copy_within e.folded_off e.folded_len p.fw p.folded) (p.fw + e.folded_len) folded_delim;
  names = copy_within e.name_off e.name_len p.nw p.names;
  entries = set p.entries ns (record e { folded_off = p.fw; name_off = p.nw });
  recs = p.recs ++ (record { off = p.fw; slot = ns }) ∷ [];
  fw = p.fw + e.folded_len + 1;
  nw = p.nw + e.name_len;
}

-- A record that a rename superseded is dropped.
abbrev pub pack_at : ArenaRec → Option ℕ → Packing → Packing
pack_at rec none p = p
pack_at rec (some ns) p = elim (get_elem? p.entries ns) [
  | none ↦ p
  | some e ↦ if e.folded_off == rec.off then pack ns e p else p
]

unfoldable pub pack_recs : List (Option ℕ) → List ArenaRec → Packing → Packing
unfolding pack
pack_recs remap [] p = p
pack_recs remap (rec ∷ recs) p = pack_recs remap recs (pack_at rec (remapped remap rec.slot) p)

-- ---- the owners

-- The blocks before each record, from the record `ri` on. Each round covers a block.
unfoldable pub owners_from : ℕ → List ArenaRec → List ℕ → List ℕ
unfolding extend_owner
owners_from ri [] owner = owner
owners_from ri (rec ∷ recs) owner =
    owners_from (ri + 1) recs (extend_owner rec.off (ri - 1) rec.off owner)

unfoldable pub rebuild_owner : List ArenaRec → ℕ → List ℕ
unfolding owners_from extend_owner
rebuild_owner recs arena_len =
    extend_owner arena_len (length recs - 1) arena_len (owners_from 0 recs [])

-- ---- the presence sets and the class slices

abbrev folded_of : Arenas → Entry → Bytes
folded_of a e = slice a.folded e.folded_off e.folded_len

-- The trigrams of each live name.
unfoldable pub note_names : Arenas → List Entry → BitSet → BitSet
unfolding note_tri
note_names a [] s = s
note_names a (e ∷ es) s = note_names a es (if is_dead e then s else note_tri (folded_of a e) s)

abbrev fresh_tri : Bool → Table → BitSet
fresh_tri populate t = if populate then note_names t.arenas t.entries empty_set else empty_set

abbrev pub resized_tri : Bool → Bool → Table → Option BitSet → Option BitSet
resized_tri want populate t none = if want then some (fresh_tri populate t) else none
resized_tri want populate t (some s) = if want then some s else none

unfoldable pub resize_tri_present : Bool → VolumeIndex → VolumeIndex
unfolding note_names
resize_tri_present populate ix =
    let want = leb tri_present_min_arena (length ix.arenas.folded) in
    let p = ix.columns.presence in
    record ix {
      columns = record ix.columns {
        presence = record p { tri = resized_tri want populate ix.table p.tri };
      };
    }

unfoldable pub finalize : VolumeIndex → VolumeIndex
unfolding resize_tri_present sweep_all_depths
finalize ix = sweep_all_depths (resize_tri_present true ix)

abbrev pub emptied : Option BitSet → Option BitSet
emptied none = none
emptied (some _) = some empty_set

abbrev pub cleared : Columns → Columns
cleared c = record c {
  charclass_bsi = λ w b. false;
  presence = record {
    uni = empty_set;
    bi = empty_set;
    tri = emptied c.presence.tri;
    initials_uni = empty_set;
    initials_bi = empty_set;
  };
}

-- The lanes of the `n` slots from `slot` on.
unfoldable pub note_lanes : ℕ → ℕ → Columns → Columns
unfolding note_initials_lane
note_lanes zero slot c = c
note_lanes (suc n) slot c =
    let lane = slice c.initials (slot * initials_stride) initials_stride in
    note_lanes n (slot + 1) (record c { presence = note_initials_lane lane c.presence })

unfoldable pub note_entries : Arenas → List Entry → ℕ → Columns → Columns
unfolding note_folded bsi_apply class_mask
note_entries a [] slot c = c
note_entries a (e ∷ es) slot c =
    let folded = folded_of a e in
    note_entries a es (slot + 1) (
      bsi_apply slot (class_mask folded) true
        (record c { presence = note_folded folded c.presence }))

-- A key of a dead slot, which the source rules out, is dropped.
abbrev pub remap_values : List (Option ℕ) → (ℕ → Option ℕ) → ℕ → Option ℕ
remap_values remap m f = elim (m f) [ none ↦ none | some s ↦ remapped remap s ]

-- ---- the whole of it

abbrev pub packing : VolumeIndex → Slots → Packing
packing ix s = record {
  folded = ix.arenas.folded;
  names = ix.arenas.names;
  entries = s.entries;
  recs = [];
  fw = 1;
  nw = 0;
}

abbrev is_none : List ArenaRec → Bool
is_none [] = true
is_none (_ ∷ _) = false

-- What the passes over the slots and the arenas leave, before the sets are filled again.
unfoldable pub packed_index : VolumeIndex → VolumeIndex
unfolding remap_from compact_slots pack_recs rebuild_owner
packed_index ix =
    let remap = remap_from 0 ix.entries in
    let slots : Slots = record {
      entries = ix.entries;
      rank_key = ix.columns.rank_key;
      initials = ix.columns.initials;
      head = ix.columns.head;
    } in
    let s = compact_slots remap slots in
    let p = pack_recs remap ix.columns.arena_recs (packing ix s) in
    let folded = take (if is_none p.recs then 0 else p.fw) p.folded in
    record ix {
      table = record ix.table {
        entries = p.entries;
        arenas = record { names = take p.nw p.names; folded = folded };
        frn_map = remap_values remap ix.frn_map;
        free_slots = [];
      };
      dead_bytes = 0;
      columns = record ix.columns {
        rank_key = s.rank_key;
        initials = s.initials;
        head = s.head;
        arena_recs = p.recs;
        owner = rebuild_owner p.recs (length folded);
      };
      repair = no_repair;
    }

unfoldable pub compact : VolumeIndex → VolumeIndex
unfolding packed_index resize_tri_present note_lanes note_entries sweep_all_depths
compact ix =
    let packed = packed_index ix in
    let sized = resize_tri_present false packed in
    let n = length packed.entries in
    let noted =
      note_entries packed.arenas packed.entries 0 (note_lanes n 0 (cleared sized.columns)) in
    sweep_all_depths (record sized { columns = noted })
