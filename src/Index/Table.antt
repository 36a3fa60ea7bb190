-- ===== src/Index/Table.antt =====
-- The entry table of the index with its map and its arenas: the fields of `VolumeIndex`
-- (crates/yspot-index/src/index.rs) that decide which files the index holds, and what `register_slot` and
-- `unregister_slot` do to them.
pub mod Valid
pub mod Writes
pub mod Bind
pub mod Vacate
pub mod Extend
pub mod Files
pub mod Fenced
use Prim.Native.Nat.{◌-◌}
use yspot.Prelude.{
  ℕ, ◌+◌, Bool, true, false, List, [], ◌∷◌, ◌++◌, Option, none, some, ◌==◌, if◌then◌else◌, length,
  set,
}
use yspot.Prelude.Slices.{fill}
use yspot.Index.Flags.{dead, with_flag}
use yspot.Index.Types.{Entry}
use yspot.Index.Columns.{folded_delim}
use yspot.Index.Arena.{Arenas}

pub record Table : Type 0 where
  pub entries : List Entry
  pub arenas : Arenas
  pub frn_map : ℕ → Option ℕ
  pub live_count : ℕ
  pub free_slots : List ℕ

abbrev pub map_insert : ℕ → ℕ → (ℕ → Option ℕ) → ℕ → Option ℕ
map_insert k v m j = if j == k then some v else m j

abbrev pub map_remove : ℕ → (ℕ → Option ℕ) → ℕ → Option ℕ
map_remove k m j = if j == k then none else m j

-- A slot at the end is appended, another is overwritten.
abbrev pub put_entry : ℕ → Entry → List Entry → List Entry
put_entry slot e es = if slot == length es then es ++ e ∷ [] else set es slot e

abbrev pub tombstone : Entry → Entry
tombstone e = record e { flags = with_flag dead e.flags }

unfoldable pub bind : ℕ → Entry → Table → Table
bind slot e t = record t {
  entries = put_entry slot e t.entries;
  frn_map = map_insert e.frn slot t.frn_map;
  live_count = t.live_count + 1;
}

-- `e` is what the slot holds. Its folded record is erased where it stands.
unfoldable pub vacate : ℕ → Entry → Table → Table
vacate slot e t = record t {
  entries = set t.entries slot (tombstone e);
  arenas = record t.arenas { folded = fill t.arenas.folded e.folded_off e.folded_len folded_delim };
  frn_map = map_remove e.frn t.frn_map;
  live_count = t.live_count - 1;
}
