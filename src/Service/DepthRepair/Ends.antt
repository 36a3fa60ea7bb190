-- ===== src/Service/DepthRepair/Ends.antt =====
-- A repair that was armed comes to its end, and leaves every depth right.
use Prim.Native.Nat.{◌-◌, min}
use yspot.Prelude.{
  ℕ, zero, suc, ◌+◌, ◌*◌, ◌/◌, ◌≤◌, ◌<◌, ◌≡◌, refl, ◌∙◌, ◌⊎◌, inl, inr, Bool, true, false,
  Bool-cases, List, [], some, ltb, leb, length, get_or, arith,
}
use yspot.Index.Table.Valid.{IsValid}
use yspot.Index.Volume.{VolumeIndex, DepthRepair, arm_depth_repair}
use yspot.Index.Depth.{
  resized, depth_sweep, with_key, no_repair, is_armed, repair_depths_slice, depth_repair_due,
  dead_at,
}
use yspot.Index.Depth.Sweep.{Swept, Onward}
use yspot.Index.Depth.Repair.{
  HasDepths, fresh-Swept, depth_sweep-Onward, full-HasDepths, resized_same,
}
use yspot.Service.DepthRepair.{repair_rounds, repair_depths}

-- An index whose repair has ended, with every depth right and its names as they were.
abbrev pub Repaired : VolumeIndex → VolumeIndex → Type 0
Repaired before after =
    (after.repair ≡ no_repair)
    × (after.table ≡ before.table)
    × HasDepths before.table before.columns.rank_key after.columns.rank_key

module _ (ix : VolumeIndex) (v : IsValid ix.table) where
  abbrev at : List ℕ → DepthRepair → VolumeIndex
  at key rep = record (with_key key ix) { repair = rep }

  abbrev n : ℕ
  n = length ix.table.entries

  -- Between two slices: the slots below the cursor are done.
  record Running (key : List ℕ) (rep : DepthRepair) : Type 0 where
    armed : is_armed rep.armed ≡ true
    cursor : rep.cursor ≤ n
    swept : Swept ix.table v (key, resized n rep.state)
    below :
        (x : ℕ) → x < rep.cursor → dead_at ix.table x ≡ false → get_or (resized n rep.state) x 0 ≡ 2
    penalty : (x : ℕ) → get_or key x 0 / 128 ≡ get_or ix.columns.rank_key x 0 / 128

  -- A slice: it ends the repair, or goes on 65536 slots further.
  abbrev Sliced : DepthRepair → VolumeIndex × Bool → Type 0
  Sliced rep r =
      ((r.1 ≡ false) × Repaired ix r.0)
      ⊎ ((r.1 ≡ true)
          × (rep.cursor + 65536 < n)
          × (key' : List ℕ) × (rep' : DepthRepair) × (r.0 ≡ at key' rep')
          × (rep'.cursor ≡ rep.cursor + 65536)
          × Running key' rep')

  repair_slice-Sliced :
      (key : List ℕ) (rep : DepthRepair)
      → Running key rep
      → Sliced rep (repair_depths_slice (at key rep))
  unfolding repair_depths_slice
  repair_slice-Sliced key rep k = elim (Bool-cases (ltb end n)) [
    | inl b ↦
        let next : DepthRepair = record rep { cursor = end; state = ks.1 } in
        let same = resized_same n ks.1 r.0.swept.state_all in
        let run : Running ks.0 next = record {
          armed = k.armed;
          cursor = omega arith;
          swept = rw same r.0.swept;
          below = λ x l d. rw same (below x l d);
          penalty = λ x. r.0.same_penalty x ∙ k.penalty x;
        } in
        rw (k.armed, b) (inr (refl, ground arith, ks.0, next, refl, ground arith, run))
    | inr b ↦
        let all : (x : ℕ) → x < n → dead_at ix.table x ≡ false → get_or ks.1 x 0 ≡ 2 =
          λ x l d. below x (ground arith) d in
        let depths =
          full-HasDepths ix.table v ix.columns.rank_key ks r.0.swept all
            (λ x. r.0.same_penalty x ∙ k.penalty x) in
        rw (k.armed, b) (inl (refl, (refl, refl, depths)))
  ]
    where
      start : ℕ
      start = min rep.cursor n

      end : ℕ
      end = min (start + 65536) n

      st : List ℕ
      st = resized n rep.state

      ks : List ℕ × List ℕ
      ks = depth_sweep ix.table start end (key, st)

      r :
          Onward ix.table v (key, st) ks
          × ((x : ℕ) → start ≤ x → x < end → dead_at ix.table x ≡ false → get_or ks.1 x 0 ≡ 2)
      r = depth_sweep-Onward ix.table v start end key st k.swept (omega arith) (omega arith)

      below : (x : ℕ) → x < end → dead_at ix.table x ≡ false → get_or ks.1 x 0 ≡ 2
      below x l d = elim (Bool-cases (ltb x start)) [
        | inl e ↦ r.0.done x (k.below x (let c = k.cursor in ground arith) d)
        | inr e ↦ r.1 x (ground arith) l d
      ]

  repair_rounds-Repaired :
      (fuel : ℕ) (key : List ℕ) (rep : DepthRepair)
      → Running key rep
      → n < rep.cursor + 65536 * fuel
      → ((repair_rounds fuel (at key rep)).1 ≡ false)
        × Repaired ix (repair_rounds fuel (at key rep)).0
  unfolding repair_rounds
  repair_rounds-Repaired zero key rep k l = let c = k.cursor in absurd (omega arith)
  repair_rounds-Repaired (suc fuel) key rep k l = elim (repair_slice-Sliced key rep k) [
    | inl (e, done) ↦ rw e (e, done)
    | inr (e, more, key', rep', same, c, k') ↦
        let ih = repair_rounds-Repaired fuel key' rep' k' (omega arith) in rw (e, same) ih
  ]

-- In a valid index whose keys are as many as its slots, a repair that was armed at `t0`, and is found due at `now`,
-- comes to its end within a slice for each 65536 slots, and one: no repair is outstanding, the table is as before, and
-- every live slot's key has its depth, cut at 127, and the penalty bit that it had.
pub repair_depths-Repaired :
    (ix : VolumeIndex) (t0 now fuel : ℕ)
    → IsValid ix.table
    → length ix.columns.rank_key ≡ length ix.table.entries
    → t0 + 500 ≤ now
    → length ix.table.entries < 65536 * fuel
    → ((repair_depths fuel now (arm_depth_repair t0 ix)).1 ≡ false)
      × Repaired ix (repair_depths fuel now (arm_depth_repair t0 ix)).0
unfolding repair_depths depth_repair_due
repair_depths-Repaired ix t0 now fuel v h l f =
    let rep : DepthRepair = record { armed = some t0; cursor = 0; state = [] } in
    let size : length ix.table.entries - 0 ≡ length ix.table.entries = omega arith in
    let run : Running ix v ix.columns.rank_key rep = record {
      armed = refl;
      cursor = omega arith;
      swept = rw size (fresh-Swept ix.table v ix.columns.rank_key h);
      below = λ x e. absurd (omega arith);
      penalty = λ x. refl;
    } in
    let due : leb 500 (now - t0) ≡ true = ground arith in
    rw due (repair_rounds-Repaired ix v fuel ix.columns.rank_key rep run (omega arith))
