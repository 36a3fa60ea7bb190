-- ===== src/Index/Volume.antt =====
-- `VolumeIndex` and its mutations: crates/yspot-index/src/index.rs. The hash map from file numbers to
-- slots is a function; the clock's reading is the argument `now`. The columns stand in a record of
-- their own. Logging and reserved capacity are not modelled.
pub mod Steps
pub mod Events
pub mod Refines
pub mod Sound
pub mod Scanned
pub mod Gated
pub mod GateHits
pub mod Owned
use Prim.Native.Nat.{◌-◌, min}
use yspot.Prelude.{
  ℕ, zero, suc, ◌+◌, ◌*◌, ◌%◌, ◌/◌, Bool, true, false, not, ◌&&◌, ◌||◌, List, [], ◌∷◌, ◌++◌, Option,
  none, some, Bytes, ltb, leb, ◌==◌, if◌then◌else◌, length, get_elem?, set, get_or, take, drop,
}
use yspot.Prelude.Slices.{slice, fill}
use yspot.Text.{Unicode}
use yspot.Index.Flags.{dir, hidden, system, dead, has_flag, with_flag, without_flag}
use yspot.Index.Types.{Entry, is_dead, ArenaRec, UsnEvent, create, delete, rename, security_change}
use yspot.Index.Columns.{
  Columns, Presence, empty_set, rank_depth_max, rank_penalized, head_stride, initials_stride,
  folded_delim, class_mask, note_folded, note_initials_lane, initials_lane, bsi_apply, grow_bsi,
  push_arena_rec,
}
use yspot.Index.Table.{Table, bind, vacate}
use yspot.Index.Arena.{Arenas, Interned, intern, u32_max, is_empty}

-- An outstanding repair of cached depths.
pub record DepthRepair : Type 0 where
  pub armed : Option ℕ
  pub cursor : ℕ
  pub state : List ℕ

pub record VolumeIndex : Type 0 where
  pub root_path : Bytes
  pub table : Table
  pub open table use *
  pub dead_bytes : ℕ
  pub columns : Columns
  pub repair : DepthRepair

-- Write the bytes `bs` over `xs` from `off` on: `copy_from_slice`.
unfoldable pub copy_over : Bytes → ℕ → Bytes → Bytes
copy_over [] off bs = []
copy_over (x ∷ xs) (suc off) bs = x ∷ copy_over xs off bs
copy_over (x ∷ xs) zero [] = x ∷ xs
copy_over (x ∷ xs) zero (b ∷ bs) = b ∷ copy_over xs zero bs

abbrev cached_depth : Columns → ℕ → ℕ
cached_depth c slot = get_or c.rank_key slot 0 % 128

-- The depth of a slot whose parent is `parent_frn`, from the parent's cached one.
abbrev depth_below : ℕ → Columns → Option ℕ → ℕ
depth_below slot c none = 0
depth_below slot c (some p) = if p == slot then 0 else min (cached_depth c p + 1) rank_depth_max

unfoldable pub rank_key_of : VolumeIndex → ℕ → ℕ → ℕ → ℕ → ℕ
rank_key_of ix slot frn parent_frn flags =
    let depth =
      if parent_frn == frn then 0 else depth_below slot ix.columns (ix.frn_map parent_frn) in
    let penalized = if has_flag hidden flags || has_flag system flags then 1 else 0 in
    depth + penalized * rank_penalized

abbrev pub head_pair : Bytes → Bytes
head_pair [] = folded_delim ∷ folded_delim ∷ []
head_pair (a ∷ []) = a ∷ folded_delim ∷ []
head_pair (a ∷ b ∷ _) = a ∷ b ∷ []

-- The slot-keyed columns: a slot at the end is appended, another is overwritten.
unfoldable pub write_slot : ℕ → Bool → ℕ → Bytes → Bytes → Columns → Columns
unfolding copy_over
write_slot slot at_end key lane pair c =
    if at_end
    then record c {
      rank_key = c.rank_key ++ key ∷ [];
      initials = c.initials ++ lane;
      head = c.head ++ pair;
    }
    else record c {
      rank_key = set c.rank_key slot key;
      initials = copy_over c.initials (slot * initials_stride) lane;
      head = copy_over c.head (slot * head_stride) pair;
    }

-- What `register_slot` does to the columns.
unfoldable pub register_columns : Unicode → VolumeIndex → ℕ → ℕ → ℕ → Interned → ℕ → Columns
unfolding rank_key_of write_slot note_initials_lane note_folded bsi_apply grow_bsi push_arena_rec
    class_mask initials_lane
register_columns u ix slot frn parent_frn i flags =
    let c = ix.columns in
    let key = rank_key_of ix slot frn parent_frn flags in
    let lane = initials_lane u (slice ix.arenas.names i.name_off i.name_len) in
    let folded = slice ix.arenas.folded i.folded_off i.folded_len in
    let c1 = record c { presence = note_initials_lane lane c.presence } in
    let c2 = write_slot slot (slot == length ix.entries) key lane (head_pair folded) c1 in
    let c3 = record c2 { presence = note_folded folded c2.presence } in
    let c4 = bsi_apply slot (class_mask folded) true (grow_bsi (slot + 1) c3) in
    push_arena_rec i.folded_off slot (length ix.arenas.folded) c4

unfoldable pub register_slot : Unicode → VolumeIndex → ℕ → ℕ → ℕ → Interned → ℕ → VolumeIndex
register_slot u ix slot frn parent_frn i flags =
    let live_flags = without_flag dead flags in
    let e : Entry = record {
      frn = frn;
      parent_frn = parent_frn;
      name_off = i.name_off;
      folded_off = i.folded_off;
      name_len = i.name_len;
      folded_len = i.folded_len;
      flags = live_flags;
    } in
    record ix {
      table = bind slot e ix.table;
      columns = register_columns u ix slot frn parent_frn i live_flags;
    }

-- What `unregister_slot` does to the columns.
unfoldable pub unregister_columns : VolumeIndex → ℕ → Entry → Columns
unfolding bsi_apply class_mask
unregister_columns ix slot e =
    let c = ix.columns in
    let folded = slice ix.arenas.folded e.folded_off e.folded_len in
    let cleared = record c {
      rank_key = set c.rank_key slot (rank_depth_max + rank_penalized);
      initials = fill c.initials (slot * initials_stride) initials_stride folded_delim;
      head = fill c.head (slot * head_stride) head_stride folded_delim;
    } in
    bsi_apply slot (class_mask folded) false cleared

-- `e` is what the slot holds.
unfoldable pub unregister_entry : VolumeIndex → ℕ → Entry → VolumeIndex
unregister_entry ix slot e = record ix {
  table = vacate slot e ix.table;
  columns = unregister_columns ix slot e;
  dead_bytes = ix.dead_bytes + (e.name_len + e.folded_len);
}

-- A slot out of range, where the source would panic, changes nothing here.
abbrev pub unregister_at : VolumeIndex → ℕ → Option Entry → VolumeIndex
unregister_at ix slot none = ix
unregister_at ix slot (some e) = unregister_entry ix slot e

unfoldable pub unregister_slot : VolumeIndex → ℕ → VolumeIndex
unregister_slot ix slot = unregister_at ix slot (get_elem? ix.entries slot)

abbrev pub arm_depth_repair : ℕ → VolumeIndex → VolumeIndex
arm_depth_repair now ix = record ix { repair = record { armed = some now; cursor = 0; state = [] } }

abbrev pub note_reparent : ℕ → VolumeIndex → Option Entry → ℕ → VolumeIndex
note_reparent now ix none new_parent = ix
note_reparent now ix (some e) new_parent =
    if has_flag dir e.flags && not (e.parent_frn == new_parent) then arm_depth_repair now ix else ix

abbrev rewind : Option ℕ → ℕ → DepthRepair → DepthRepair
rewind none slot r = r
rewind (some _) slot r = if ltb slot r.cursor then record r { cursor = slot } else r

abbrev pub resweep_recycled : ℕ → VolumeIndex → VolumeIndex
resweep_recycled slot ix = record ix { repair = rewind ix.repair.armed slot ix.repair }

-- The slot for a file number that the index does not hold: the newest tombstone, or a new one.
abbrev pub pop_from : VolumeIndex → List ℕ → ℕ × VolumeIndex
pop_from ix [] = (length ix.entries, ix)
pop_from ix (slot ∷ rest) = (slot, record ix { table = record ix.table { free_slots = rest } })

abbrev pub pop_free : VolumeIndex → ℕ × VolumeIndex
pop_free ix = pop_from ix ix.free_slots

-- The slot that `add_entry` registers, with the index ready for it.
unfoldable pub slot_for : ℕ → VolumeIndex → ℕ → Option ℕ → ℕ × VolumeIndex
slot_for now ix parent_frn none = pop_free ix
slot_for now ix parent_frn (some idx) =
    (idx, unregister_slot (note_reparent now ix (get_elem? ix.entries idx) parent_frn) idx)

-- `let Some(interned) = self.intern(name) else { return }`
unfoldable pub with_interned :
    VolumeIndex → (VolumeIndex → Interned → VolumeIndex) → Option (Interned × Arenas) → VolumeIndex
with_interned ix next none = ix
with_interned ix next (some (i, a)) = next (record ix { table = record ix.table { arenas = a } }) i

-- Only a create that has to append a slot can exhaust the slots.
unfoldable pub table_full : VolumeIndex → Option ℕ → Bool
table_full ix none = is_empty ix.free_slots && leb u32_max (length ix.entries)
table_full ix (some _) = false

abbrev pub arm_for_removal : ℕ → VolumeIndex → Option Entry → VolumeIndex
arm_for_removal now ix none = ix
arm_for_removal now ix (some e) = if has_flag dir e.flags then arm_depth_repair now ix else ix

abbrev pub flags_of : Option Entry → ℕ
flags_of none = 0
flags_of (some e) = e.flags

unfoldable pub remove_at : ℕ → VolumeIndex → Option ℕ → VolumeIndex
remove_at now ix none = ix
remove_at now ix (some idx) =
    let gone = unregister_slot (arm_for_removal now ix (get_elem? ix.entries idx)) idx in
    record gone { table = record gone.table { free_slots = idx ∷ gone.free_slots } }

module _ (u : Unicode) (now : ℕ) where
  -- `add_entry`, with the name interned.
  unfoldable pub add_interned : ℕ → ℕ → ℕ → Option ℕ → VolumeIndex → Interned → VolumeIndex
  add_interned frn parent_frn flags existing ix i =
      let (slot, ready) = slot_for now ix parent_frn existing in
      resweep_recycled slot (register_slot u ready slot frn parent_frn i flags)

  unfoldable pub add_entry : VolumeIndex → ℕ → ℕ → Bytes → ℕ → VolumeIndex
  add_entry ix frn parent_frn name flags =
      let existing = ix.frn_map frn in
      if table_full ix existing
      then ix
      else with_interned ix (add_interned frn parent_frn flags existing) (intern u ix.arenas name)

  unfoldable pub remove_entry : VolumeIndex → ℕ → VolumeIndex
  remove_entry ix frn = remove_at now ix (ix.frn_map frn)

  -- `rename_entry` of the slot `idx`, with the name interned.
  unfoldable pub rename_interned : ℕ → ℕ → ℕ → VolumeIndex → Interned → VolumeIndex
  rename_interned frn new_parent idx ix i =
      let held = get_elem? ix.entries idx in
      let gone = unregister_slot (note_reparent now ix held new_parent) idx in
      register_slot u gone idx frn new_parent i (flags_of held)

  unfoldable pub rename_at : VolumeIndex → ℕ → ℕ → Bytes → Option ℕ → VolumeIndex
  rename_at ix frn new_parent new_name none = ix
  rename_at ix frn new_parent new_name (some idx) =
      with_interned ix (rename_interned frn new_parent idx) (intern u ix.arenas new_name)

  unfoldable pub rename_entry : VolumeIndex → ℕ → ℕ → Bytes → VolumeIndex
  rename_entry ix frn new_parent new_name = rename_at ix frn new_parent new_name (ix.frn_map frn)

  unfoldable pub apply : VolumeIndex → UsnEvent → VolumeIndex
  apply ix (create frn parent_frn name flags) = add_entry ix frn parent_frn name flags
  apply ix (delete frn) = remove_entry ix frn
  apply ix (rename frn new_parent new_name) = rename_entry ix frn new_parent new_name
  apply ix (security_change frn) = ix

unfoldable pub apply_all : Unicode → VolumeIndex → List (ℕ × UsnEvent) → VolumeIndex
apply_all u ix [] = ix
apply_all u ix ((now, ev) ∷ events) = apply_all u (apply u now ix ev) events

abbrev pub empty_presence : Presence
empty_presence = record {
  uni = empty_set;
  bi = empty_set;
  tri = some empty_set;
  initials_uni = empty_set;
  initials_bi = empty_set;
}

-- `VolumeIndex::new`
unfoldable pub new_index : Bytes → VolumeIndex
new_index root_path = record {
  root_path = root_path;
  table = record {
    entries = [];
    arenas = record { names = []; folded = [] };
    frn_map = λ _. none;
    live_count = 0;
    free_slots = [];
  };
  dead_bytes = 0;
  columns = record {
    rank_key = [];
    initials = [];
    head = [];
    charclass_bsi = λ _ _. false;
    bsi_words = 0;
    presence = empty_presence;
    arena_recs = [];
    owner = [];
  };
  repair = record { armed = none; cursor = 0; state = [] };
}
