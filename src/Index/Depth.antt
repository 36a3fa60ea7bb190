-- ===== src/Index/Depth.antt =====
-- The cached depths: crates/yspot-index/src/index.rs (`depth_sweep`, `set_rank_depth`, `sweep_all_depths`,
-- `depth_repair_due`, `repair_depths_slice`). A slot out of range, where the source would panic, is left alone; times
-- are milliseconds.
pub mod Spec
pub mod Walk
pub mod Sweep
pub mod Repair
use Prim.Native.Nat.{◌-◌, min}
use yspot.Prelude.{
  ℕ, zero, suc, ◌+◌, ◌*◌, ◌/◌, ◌%◌, Bool, true, false, not, ◌&&◌, ◌||◌, List, [], ◌∷◌, ◌++◌, Option,
  none, some, ltb, leb, ◌==◌, if◌then◌else◌, length, get_elem?, get_or, set, replicate,
}
use yspot.Index.Types.{Entry, is_dead}
use yspot.Index.Columns.{Columns, rank_depth_max, rank_penalized}
use yspot.Index.Table.{Table}
use yspot.Index.Volume.{VolumeIndex, DepthRepair}
use yspot.Index.Paths.{parent_slot, above_or}

abbrev pub d_unknown : ℕ
d_unknown = 0

abbrev pub d_on_stack : ℕ
d_on_stack = 1

abbrev pub d_done : ℕ
d_done = 2

abbrev pub depth_repair_slice : ℕ
depth_repair_slice = 65536

abbrev pub depth_repair_debounce : ℕ
depth_repair_debounce = 500

-- `*k = (*k & RANK_PENALIZED) | depth`
unfoldable pub set_rank_depth : List ℕ → ℕ → ℕ → List ℕ
set_rank_depth key slot depth =
    set key slot (get_or key slot 0 / rank_penalized * rank_penalized + min depth rank_depth_max)

-- What a walk up from a slot gives: the marks, the slots on its way, the last in front, and the depth of that one,
-- or that the way closes on itself.
pub record Walked : Type 0 where
  pub state : List ℕ
  pub stack : List ℕ
  pub first : ℕ
  pub cycle : Bool

module _ (t : Table) (key : List ℕ) where
  -- For at most `fuel` slots.
  unfoldable pub walk : ℕ → List ℕ → List ℕ → ℕ → Walked
  walk zero state stack cur = record { state = state; stack = stack; first = 0; cycle = false }
  walk (suc fuel) state stack cur =
      let mark = get_or state cur d_unknown in
      let done : Walked = record {
        state = state;
        stack = stack;
        first = min (get_or key cur 0 % 128 + 1) rank_depth_max;
        cycle = false;
      } in
      let closed : Walked = record { state = state; stack = stack; first = 0; cycle = true } in
      let state' = set state cur d_on_stack in
      let top : Walked = record { state = state'; stack = cur ∷ stack; first = 0; cycle = false } in
      let on =
        above_or (parent_slot t cur (get_elem? t.entries cur)) top
          (λ p. walk fuel state' (cur ∷ stack) p) in
      if mark == d_done then done else if mark == d_on_stack then closed else on

-- The depths of a way, from its last slot on.
unfoldable pub unwind : List ℕ → ℕ → List ℕ × List ℕ → List ℕ × List ℕ
unfolding set_rank_depth
unwind [] d (key, state) = (key, state)
unwind (slot ∷ stack) d (key, state) =
    unwind stack (min (d + 1) rank_depth_max) (set_rank_depth key slot d, set state slot d_done)

unfoldable pub settle_cycle : List ℕ → List ℕ × List ℕ → List ℕ × List ℕ
unfolding set_rank_depth
settle_cycle [] (key, state) = (key, state)
settle_cycle (slot ∷ stack) (key, state) =
    settle_cycle stack (set_rank_depth key slot rank_depth_max, set state slot d_done)

abbrev pub assign : List ℕ → Walked → List ℕ × List ℕ
assign key w =
    if w.cycle then settle_cycle w.stack (key, w.state) else unwind w.stack w.first (key, w.state)

abbrev pub dead_at : Table → ℕ → Bool
dead_at t s = elim (get_elem? t.entries s) [ none ↦ true | some e ↦ is_dead e ]

-- One slot of the sweep. A walk passes each slot once, so as many rounds as there are slots, and one, are enough.
unfoldable pub sweep_slot : Table → ℕ → List ℕ × List ℕ → List ℕ × List ℕ
unfolding walk unwind settle_cycle
sweep_slot t s (key, state) =
    let swept = assign key (walk t key (length t.entries + 1) state [] s) in
    let same : List ℕ × List ℕ = (key, state) in
    if not (get_or state s d_unknown == d_unknown) || dead_at t s then same else swept

-- The `n` slots from `s` on.
unfoldable pub sweep_from : Table → ℕ → ℕ → List ℕ × List ℕ → List ℕ × List ℕ
unfolding sweep_slot
sweep_from t zero s ks = ks
sweep_from t (suc n) s ks = sweep_from t n (s + 1) (sweep_slot t s ks)

-- `state.resize(n, D_UNKNOWN)`, where it is shorter.
abbrev pub resized : ℕ → List ℕ → List ℕ
resized n state = state ++ replicate (n - length state) d_unknown

unfoldable pub depth_sweep : Table → ℕ → ℕ → List ℕ × List ℕ → List ℕ × List ℕ
unfolding sweep_from
depth_sweep t start end (key, state) =
    let n = length t.entries in sweep_from t (min end n - start) start (key, resized n state)

abbrev pub no_repair : DepthRepair
no_repair = record { armed = none; cursor = 0; state = [] }

abbrev pub with_key : List ℕ → VolumeIndex → VolumeIndex
with_key key ix = record ix { columns = record ix.columns { rank_key = key } }

unfoldable pub sweep_all_depths : VolumeIndex → VolumeIndex
unfolding depth_sweep
sweep_all_depths ix =
    let n = length ix.entries in
    let (key, state) = depth_sweep ix.table 0 n (ix.columns.rank_key, replicate n d_unknown) in
    record (with_key key ix) { repair = no_repair }

abbrev pub is_armed : Option ℕ → Bool
is_armed none = false
is_armed (some _) = true

abbrev due_at : ℕ → Option ℕ → Bool
due_at now none = false
due_at now (some t) = leb depth_repair_debounce (now - t)

unfoldable pub depth_repair_due : ℕ → VolumeIndex → Bool
depth_repair_due now ix = due_at now ix.repair.armed

-- The index behind a slice, and whether work remains.
unfoldable pub repair_depths_slice : VolumeIndex → VolumeIndex × Bool
unfolding depth_sweep
repair_depths_slice ix =
    let n = length ix.entries in
    let start = min ix.repair.cursor n in
    let end = min (start + depth_repair_slice) n in
    let swept = depth_sweep ix.table start end (ix.columns.rank_key, resized n ix.repair.state) in
    let idle : VolumeIndex × Bool = (ix, false) in
    let more : VolumeIndex × Bool = (
      record (with_key swept.0 ix) { repair = record ix.repair { cursor = end; state = swept.1 } },
      true,
    ) in
    let last : VolumeIndex × Bool = (record (with_key swept.0 ix) { repair = no_repair }, false) in
    if not (is_armed ix.repair.armed) then idle else if ltb end n then more else last
