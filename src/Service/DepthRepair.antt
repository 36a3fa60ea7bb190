-- ===== src/Service/DepthRepair.antt =====
-- The repair of the cached depths from the housekeeping thread: crates/yspot-indexd/src/main.rs (`repair_depths`). The
-- loop runs on fuel; the locks are not modelled.
use yspot.Prelude.{ℕ, zero, suc, ◌+◌, ◌/◌, Bool, true, false, if◌then◌else◌, length}
use yspot.Index.Volume.{VolumeIndex}
use yspot.Index.Depth.{depth_repair_slice, depth_repair_due, repair_depths_slice}
pub mod Ends

-- `while repair_depths_slice(..) {}`, with the answer of the last slice.
unfoldable pub repair_rounds : ℕ → VolumeIndex → VolumeIndex × Bool
unfolding repair_depths_slice
repair_rounds zero ix = (ix, true)
repair_rounds (suc fuel) ix =
    let r = repair_depths_slice ix in let rest = repair_rounds fuel r.0 in if r.1 then rest else r

-- At most `fuel` slices.
unfoldable pub repair_depths : ℕ → ℕ → VolumeIndex → VolumeIndex × Bool
unfolding depth_repair_due repair_rounds
repair_depths fuel now ix =
    let idle : VolumeIndex × Bool = (ix, false) in
    if depth_repair_due now ix then repair_rounds fuel ix else idle
