-- ===== src/Examples/PathCases.antt =====
-- A folder and a file in it, and the theorem about their paths.
use yspot.Prelude.{ℕ, ◌<◌, ◌≡◌, refl, true, false, List, [], ◌∷◌, ◌++◌, some, Bytes, arith}
use yspot.Prelude.Slices.{slice}
use yspot.Text.{Unicode, chars, encode, fold, truncate_to_boundary, has_control_byte}
use yspot.Index.Types.{Entry, UsnEvent, create}
use yspot.Index.Arena.{intern, usable_name, append_name}
use yspot.Index.Table.{bind}
use yspot.Index.Table.Valid.{LiveAt}
use yspot.Index.Volume.{
  VolumeIndex, new_index, apply, apply_all, add_entry, with_interned, table_full, add_interned,
  slot_for, register_slot,
}
use yspot.Index.Volume.Sound.{events-IsSound}
use yspot.Index.Paths.{backslash, path_of, depth_of, depth_from, path_depth_cap}
use yspot.Index.Paths.Laws.{path_of-child}

abbrev as_is : Unicode
as_is = record {
  nfc = λ s. s;
  to_lowercase = λ c. c ∷ [];
  is_lowercase = λ c. true;
  is_uppercase = λ c. false;
}

abbrev folder : List (ℕ × UsnEvent)
folder = (1, create 20 5 (b'a' ∷ b'b' ∷ []) 1) ∷ (2, create 21 20 (b'c' ∷ []) 0) ∷ []

abbrev c_root : Bytes
c_root = b'C' ∷ b':' ∷ b'\\' ∷ []

abbrev built : VolumeIndex
built = apply_all as_is (new_index c_root) folder

abbrev file : Entry
file = record {
  frn = 21;
  parent_frn = 20;
  name_off = 2;
  folded_off = 4;
  name_len = 1;
  folded_len = 1;
  flags = 0;
}

file-LiveAt : LiveAt built.table 1 file
unfolding apply_all apply add_entry new_index with_interned table_full intern usable_name
    append_name fold truncate_to_boundary has_control_byte add_interned slot_for register_slot bind
    chars encode
file-LiveAt = (refl, refl)

parent_held : built.table.frn_map 20 ≡ some 0
unfolding apply_all apply add_entry new_index with_interned table_full intern usable_name
    append_name fold truncate_to_boundary has_control_byte add_interned slot_for register_slot bind
    chars encode
parent_held = refl

shallow : depth_of built.table 1 < path_depth_cap
unfolding depth_of depth_from apply_all apply add_entry new_index with_interned table_full intern
    usable_name append_name fold truncate_to_boundary has_control_byte add_interned slot_for
    register_slot bind chars encode
shallow = omega arith

path_of-child_example :
    (above : Bytes) × (path_of built 20 ≡ some above)
    × (path_of built 21 ≡ some (above ++ backslash ∷ slice built.table.arenas.names 2 1))
path_of-child_example =
    path_of-child built (events-IsSound as_is c_root folder).valid 1 0 file file-LiveAt
      (λ e. ground arith) parent_held shallow
