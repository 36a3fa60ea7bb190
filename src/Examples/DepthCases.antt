-- ===== src/Examples/DepthCases.antt =====
-- The depths of a small index.
use yspot.Prelude.{◌≡◌, refl, false, length, arith}
use yspot.Index.Volume.{
  VolumeIndex, new_index, apply, add_entry, with_interned, table_full, add_interned, slot_for,
  register_slot, arm_depth_repair, register_columns, write_slot,
}
use yspot.Text.{chars, encode, fold, truncate_to_boundary, has_control_byte}
use yspot.Index.Arena.{intern, usable_name, append_name}
use yspot.Index.Table.{bind}
use yspot.Index.Columns.{note_folded, note_initials_lane, bsi_apply, grow_bsi, push_arena_rec}
use yspot.Index.Volume.Sound.{IsSound, new_index-IsSound, apply-refines}
use yspot.Index.Depth.{sweep_all_depths}
use yspot.Index.Depth.Repair.{HasDepths, sweep_all_depths-HasDepths}
use yspot.Service.DepthRepair.{repair_depths}
use yspot.Service.DepthRepair.Ends.{Repaired, repair_depths-Repaired}
use yspot.Examples.IndexCases.{ascii, root, made, first, room}

abbrev one : VolumeIndex
one = apply ascii 1 first made

one-IsSound : IsSound one
one-IsSound = (apply-refines ascii 1 first made (new_index-IsSound root) room).0

one_keys : length one.columns.rank_key ≡ length one.table.entries
unfolding apply add_entry new_index with_interned table_full intern usable_name append_name fold
    truncate_to_boundary has_control_byte add_interned slot_for register_slot bind chars encode
    register_columns write_slot note_folded bsi_apply grow_bsi push_arena_rec note_initials_lane
one_keys = refl

one_slot : length one.table.entries ≡ 1
unfolding apply add_entry new_index with_interned table_full intern usable_name append_name fold
    truncate_to_boundary has_control_byte add_interned slot_for register_slot bind chars encode
one_slot = refl

sweep_all_depths-HasDepths_example :
    HasDepths one.table one.columns.rank_key (sweep_all_depths one).columns.rank_key
sweep_all_depths-HasDepths_example = sweep_all_depths-HasDepths one one-IsSound.valid one_keys

repair_depths-Repaired_example :
    ((repair_depths 1 1500 (arm_depth_repair 1000 one)).1 ≡ false)
    × Repaired one (repair_depths 1 1500 (arm_depth_repair 1000 one)).0
repair_depths-Repaired_example =
    repair_depths-Repaired one 1000 1500 1 one-IsSound.valid one_keys (omega arith)
      (let e = one_slot in omega arith)
