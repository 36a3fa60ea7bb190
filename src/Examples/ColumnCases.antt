-- ===== src/Examples/ColumnCases.antt =====
-- The columns of a small index, and the theorems about them.
use yspot.Prelude.{
  ℕ, zero, suc, ◌*◌, ◌<◌, ◌≡◌, true, false, List, [], ◌∷◌, Bytes, arith, if◌then◌else◌, ltb, ◌==◌,
  ◌&&◌,
}
use yspot.Text.{Unicode, chars, encode, fold, truncate_to_boundary, has_control_byte}
use yspot.Index.Types.{UsnEvent, create}
use yspot.Index.Arena.{intern, usable_name, append_name}
use yspot.Index.Columns.{Columns, class_mask, bsi_apply, grow_bsi}
use yspot.Index.Columns.Gates.{arena_may_contain}
use yspot.Index.Columns.Bits.{bit_at, grow_bsi-keeps, bsi_apply-writes}
use yspot.Index.Table.{bind}
use yspot.Index.Table.Fenced.Hits.{OccursAt}
use yspot.Index.Volume.{
  new_index, apply, apply_all, add_entry, with_interned, table_full, add_interned, slot_for,
  register_slot, empty_presence,
}
use yspot.Index.Volume.GateHits.{arena_may_contain-apply_all}

-- Unicode without letters that fold.
abbrev plain_text : Unicode
plain_text = record {
  nfc = λ s. s;
  to_lowercase = λ c. c ∷ [];
  is_lowercase = λ c. true;
  is_uppercase = λ c. false;
}

abbrev drive : Bytes
drive = b'D' ∷ b':' ∷ []

abbrev events : List (ℕ × UsnEvent)
events = (1, create 20 5 (b'a' ∷ b'b' ∷ []) 0) ∷ []

-- The arena is `0 a b 0`.
b_OccursAt :
    OccursAt (apply_all plain_text (new_index drive) events).table.arenas.folded 2 (b'b' ∷ [])
unfolding apply_all apply add_entry new_index with_interned table_full intern usable_name
    append_name fold truncate_to_boundary has_control_byte add_interned slot_for register_slot bind
    chars encode
b_OccursAt zero b g = g
b_OccursAt (suc i) b g = absurd (ground arith)

arena_may_contain-apply_all_example :
    arena_may_contain (apply_all plain_text (new_index drive) events).columns.presence (b'b' ∷ [])
    ≡ true
arena_may_contain-apply_all_example =
    arena_may_contain-apply_all plain_text drive events (b'b' ∷ []) 2 ((λ e. ground arith), tt)
      (omega arith) b_OccursAt

-- Slices of 512 words, in which slot 5 has class 3 only.
abbrev some_columns : Columns
some_columns = record {
  rank_key = [];
  initials = [];
  head = [];
  charclass_bsi = λ w b. (w == (3 * 512)) && (b == 5);
  bsi_words = 512;
  presence = empty_presence;
  arena_recs = [];
  owner = [];
}

in_reach : 5 < (grow_bsi 40000 some_columns).bsi_words * 64
unfolding grow_bsi
in_reach = omega arith

grow_bsi-keeps_example :
    bit_at (grow_bsi 40000 some_columns).bsi_words (grow_bsi 40000 some_columns).charclass_bsi 3 5
    ≡ (if ltb 5 (512 * 64) then bit_at 512 some_columns.charclass_bsi 3 5 else false)
grow_bsi-keeps_example = grow_bsi-keeps 40000 some_columns 3 5 (omega arith) in_reach

bsi_apply-writes_example :
    bit_at
      (bsi_apply 7 (class_mask (b'a' ∷ [])) true some_columns).bsi_words
      (bsi_apply 7 (class_mask (b'a' ∷ [])) true some_columns).charclass_bsi
      0
      7
    ≡ (if class_mask (b'a' ∷ []) 0 && (7 == 7)
        then true
        else bit_at 512 some_columns.charclass_bsi 0 7)
bsi_apply-writes_example =
    bsi_apply-writes 7 7 0 (class_mask (b'a' ∷ [])) true some_columns (omega arith) (omega arith)
      (omega arith)
