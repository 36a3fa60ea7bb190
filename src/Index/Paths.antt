-- ===== src/Index/Paths.antt =====
-- Paths and depths: `path_of` and `depth_of` of crates/yspot-index/src/index.rs. A slot out of range, where
-- the source would panic, ends a walk here.
pub mod Laws
use Prim.Native.Nat.{◌-◌, min}
use yspot.Prelude.{
  ℕ, zero, suc, ◌+◌, ◌*◌, ◌%◌, ◌/◌, Bool, true, false, not, ◌&&◌, ◌||◌, List, [], ◌∷◌, ◌++◌, Option,
  none, some, Bytes, ltb, leb, ◌==◌, if◌then◌else◌, length, get_elem?, get_or, set, replicate,
}
use yspot.Prelude.Slices.{slice}
use yspot.Index.Types.{Entry, is_dead}
use yspot.Index.Columns.{Columns, rank_depth_max, rank_penalized}
use yspot.Index.Table.{Table}
use yspot.Index.Volume.{VolumeIndex, DepthRepair}

abbrev pub path_depth_cap : ℕ
path_depth_cap = 512

-- The slot of the parent of the entry `e` at `idx`, or `none` where the walk ends: at the root, which is
-- its own parent, and where the parent is missing.
abbrev pub other_slot : ℕ → Option ℕ → Option ℕ
other_slot idx none = none
other_slot idx (some p) = if p == idx then none else some p

abbrev pub parent_slot : Table → ℕ → Option Entry → Option ℕ
parent_slot t idx none = none
parent_slot t idx (some e) =
    if e.parent_frn == e.frn then none else other_slot idx (t.frn_map e.parent_frn)

abbrev pub part_of : Option Entry → List (ℕ × ℕ)
part_of none = []
part_of (some e) = (e.name_off, e.name_len) ∷ []

abbrev pub above_or {ℓ} : {A : Type ℓ} → Option ℕ → A → (ℕ → A) → A
above_or none end next = end
above_or (some p) end next = next p

-- The name's parts from `idx` up, for at most `fuel` rounds.
unfoldable pub parts_from : Table → ℕ → ℕ → List (ℕ × ℕ)
parts_from t zero idx = []
parts_from t (suc fuel) idx =
    let e = get_elem? t.entries idx in
    part_of e ++ above_or (parent_slot t idx e) [] (λ p. parts_from t fuel p)

abbrev pub backslash : ℕ
backslash = b'\\'

unfoldable pub ends_with_byte : ℕ → Bytes → Bool
ends_with_byte b [] = false
ends_with_byte b (x ∷ []) = x == b
ends_with_byte b (x ∷ y ∷ s) = ends_with_byte b (y ∷ s)

-- The parts in reverse, joined by backslashes.
unfoldable pub join_reversed : Bytes → List (ℕ × ℕ) → Bytes
join_reversed names [] = []
join_reversed names ((off, len) ∷ []) = slice names off len
join_reversed names ((off, len) ∷ p ∷ parts) =
    join_reversed names (p ∷ parts) ++ backslash ∷ slice names off len

abbrev pub root_prefix : Bytes → Bytes
root_prefix root = if ends_with_byte backslash root then root else root ++ backslash ∷ []

abbrev pub path_at : VolumeIndex → Option ℕ → Option Bytes
path_at ix none = none
path_at ix (some idx) = some (
    root_prefix ix.root_path
    ++ join_reversed ix.table.arenas.names (parts_from ix.table path_depth_cap idx))

unfoldable pub path_of : VolumeIndex → ℕ → Option Bytes
unfolding parts_from join_reversed ends_with_byte
path_of ix frn = path_at ix (ix.table.frn_map frn)

-- `while depth < PATH_DEPTH_CAP`, from a depth with `fuel` rounds left.
unfoldable pub depth_from : Table → ℕ → ℕ → ℕ
depth_from t zero idx = 0
depth_from t (suc fuel) idx =
    above_or (parent_slot t idx (get_elem? t.entries idx)) 0 (λ p. suc (depth_from t fuel p))

unfoldable pub depth_of : Table → ℕ → ℕ
unfolding depth_from
depth_of t idx = depth_from t path_depth_cap idx
