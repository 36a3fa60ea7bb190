-- ===== src/Examples/OwnerCases.antt =====
-- A hit in a small index.
use yspot.Prelude.{ℕ, zero, suc, Bytes, ◌≡◌, refl, List, [], ◌∷◌, some, arith}
use yspot.Text.{chars, encode, fold, truncate_to_boundary, has_control_byte}
use yspot.Index.Types.{Entry, UsnEvent}
use yspot.Index.Arena.{intern, usable_name, append_name}
use yspot.Index.Table.{bind}
use yspot.Index.Table.Valid.{LiveAt}
use yspot.Index.Volume.{
  VolumeIndex, new_index, apply, apply_all, add_entry, with_interned, table_full, add_interned,
  slot_for, register_slot,
}
use yspot.Index.Volume.Owned.Events.{slot_at-apply_all}
use yspot.Index.Volume.Owned.Hits.{slot_at-Within}
use yspot.Index.Table.Fenced.Hits.{OccursAt, Within}
use yspot.Matching.Scan.{slot_at}
use yspot.Examples.IndexCases.{ascii, root, made}

abbrev events : List (ℕ × UsnEvent)
events = (1, made) ∷ []

abbrev one : VolumeIndex
one = apply_all ascii (new_index root) events

abbrev entry : Entry
entry = record {
  frn = 20;
  parent_frn = 5;
  name_off = 0;
  folded_off = 1;
  name_len = 2;
  folded_len = 2;
  flags = 1;
}

live : LiveAt one.table 0 entry
unfolding apply_all apply add_entry new_index with_interned table_full intern usable_name
    append_name fold truncate_to_boundary has_control_byte add_interned slot_for register_slot bind
    chars encode
live = (refl, refl)

slot_at-apply_all_example :
    slot_at one.columns.owner one.columns.arena_recs one.table.entries 2 ≡ some 0
slot_at-apply_all_example =
    slot_at-apply_all ascii root events 0 2 entry live (omega arith) (omega arith)

-- The folded names are `ab` between its fences, and the query is its `b`.
arena : one.table.arenas.folded ≡ 0 ∷ b'a' ∷ b'b' ∷ 0 ∷ []
unfolding apply_all apply add_entry new_index with_interned table_full intern usable_name
    append_name fold truncate_to_boundary has_control_byte add_interned slot_for register_slot bind
    chars encode
arena = refl

abbrev query : Bytes
query = b'b' ∷ []

occurs : OccursAt one.table.arenas.folded 2 query
occurs zero b g = rw arena g
occurs (suc i) b g = absurd (ground arith)

slot_at-Within_example :
    (s : ℕ) × (e : Entry) × LiveAt one.table s e
    × Within e 2 1
    × (slot_at one.columns.owner one.columns.arena_recs one.table.entries 2 ≡ some s)
slot_at-Within_example =
    slot_at-Within ascii root events query 2 ((λ e. ground arith), tt) (omega arith) occurs
