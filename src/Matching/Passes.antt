-- ===== src/Matching/Passes.antt =====
-- The passes of a search over the columns: crates/yspot-index/src/matching.rs (`head_pass`, and in `search` the scans
-- of the folded arena and of the initials). What they take from
-- outside is a record: the search for a byte string, the arithmetic of `f32`, the answers of `is_cancelled` in
-- the order they are asked for, and whether the deadline is over at each look at the clock.
use Prim.Native.Nat.{◌-◌}
use yspot.Prelude.{
  ℕ, zero, suc, ◌+◌, ◌/◌, ◌%◌, Bool, true, false, not, ◌&&◌, ◌||◌, Option, none, some, Bytes, ltb,
  ◌==◌, if◌then◌else◌, length, drop, get_elem?, get_or,
}
use yspot.Prelude.Slices.{slice}
use yspot.Text.{Unicode}
use yspot.Index.Types.{Entry}
use yspot.Index.Columns.{initials_stride, folded_delim}
use yspot.Index.Volume.{VolumeIndex}
use yspot.Matching.Tier.{Tier, exact, prefix, initials, classify}
use yspot.Matching.Score.{F32, tier_base, tier_upper_bound}
use yspot.Matching.Selector.{Selector, rejects, offer}
use yspot.Matching.Scan.{slot_at, head_loop, scan_arena}

abbrev pub cancel_stride : ℕ
cancel_stride = 4096

abbrev pub head_poll_slots : ℕ
head_poll_slots = 65536

pub record World : Type 0 where
  pub unicode : Unicode
  pub f32 : F32
  pub find : Bytes → Bytes → Option ℕ
  pub is_cancelled : ℕ → Bool
  pub overdue : ℕ → Bool

-- What the passes share. `polls` counts the questions whether the search is cancelled.
pub record Run : Type 0 where
  pub sel : Selector
  pub polls : ℕ
  pub processed : ℕ
  pub cancelled : Bool

-- A run of hits of one record waits with its best tier.
pub record Grouped : Type 0 where
  pub run : Run
  pub pend : Option (ℕ × Tier)

abbrev pub is_start : Tier → Bool
is_start exact = true
is_start prefix = true
is_start _ = false

-- `is_cancelled()`
unfoldable pub ask : World → Run → Run × Bool
ask w r = let c = w.is_cancelled r.polls in (record r { polls = r.polls + 1; cancelled = c }, c)

-- `processed += 1; processed.is_multiple_of(CANCEL_STRIDE) && is_cancelled()`
unfoldable pub tick : World → Run → Run × Bool
unfolding ask
tick w r =
    let counted = record r { processed = r.processed + 1 } in
    let passed : Run × Bool = (counted, false) in
    if counted.processed % cancel_stride == 0 then ask w counted else passed

module _ (w : World) (ix : VolumeIndex) (accept : Bytes → Bool) (fq : Bytes) where
  abbrev pub name_of_entry : Entry → Bytes
  name_of_entry e = slice ix.arenas.names e.name_off e.name_len

  abbrev pub folded_of_entry : Entry → Bytes
  folded_of_entry e = slice ix.arenas.folded e.folded_off e.folded_len

  -- A read out of range, where the source would panic, is not accepted.
  unfoldable pub accept_slot : ℕ → Bool
  accept_slot slot = elim (get_elem? ix.entries slot) [
    | none ↦ false
    | some e ↦ accept (name_of_entry e)
  ]

  unfoldable pub put : ℕ → Tier → ℕ → Run → Run
  unfolding offer
  put slot tier base r = record r {
    sel = offer w.f32 accept_slot ix.columns.rank_key slot tier base r.sel;
  }

  abbrev pub short : Bool
  short = length fq == 1

  -- ---- the head pass

  unfoldable pub head_visit : ℕ → ℕ → ℕ → ℕ → Run → Run × Bool
  unfolding ask put
  head_visit q slot a b r =
      let passed : Run × Bool = (r, false) in
      let polled = if slot % head_poll_slots == head_poll_slots - 1 then ask w r else passed in
      let tier = if b == folded_delim then exact else prefix in
      let offered = put slot tier (tier_base tier) polled.0 in
      let next =
        if a == q && not (rejects polled.0.sel (tier_upper_bound tier))
        then offered
        else polled.0 in
      let go : Run × Bool = (next, false) in if polled.1 then polled else go

  unfoldable pub head_pass : Run → Run
  unfolding head_visit head_loop
  head_pass r = head_loop (head_visit (get_or fq 0 0)) 0 ix.columns.head r

  -- ---- the scan of the arena

  unfoldable pub group : ℕ → Tier → Grouped → Grouped
  unfolding put
  group slot tier g = elim g.pend [
    | none ↦ record g { pend = some (slot, tier) }
    | some held ↦
        let (prev, best) = held in
        let same =
          if ltb (tier_base best) (tier_base tier)
          then record g { pend = some (prev, tier) }
          else g in
        let next : Grouped = record {
          run = put prev best (tier_base best) g.run;
          pend = some (slot, tier);
        } in
        if prev == slot then same else next
  ]

  unfoldable pub flush : Grouped → Run
  unfolding put
  flush g = elim g.pend [
    | none ↦ g.run
    | some held ↦ let (slot, tier) = held in put slot tier (tier_base tier) g.run
  ]

  abbrev pub group_at : Option ℕ → Tier → Grouped → Grouped
  group_at none tier g = g
  group_at (some slot) tier g = group slot tier g

  unfoldable pub on_arena_hit : ℕ → Grouped → Grouped × Bool
  unfolding tick group
  on_arena_hit hit g =
      let arena = ix.arenas.folded in
      let (run, stop) = tick w g.run in
      let ticked = record g { run = run } in
      let tier = classify (get_or arena (hit - 1) 0) (get_or arena (hit + length fq) 0) in
      let slot = slot_at ix.columns.owner ix.columns.arena_recs ix.entries hit in
      let skip = short && is_start tier || rejects run.sel (tier_upper_bound tier) in
      let next : Grouped × Bool = (if skip then ticked else group_at slot tier ticked, false) in
      let end : Grouped × Bool = (ticked, true) in if stop then end else next

  abbrev pub on_poll : Grouped → Grouped × Bool
  on_poll g = let (run, stop) = ask w g.run in (record g { run = run }, stop)

  unfoldable pub arena_pass : Run → Run
  unfolding on_arena_hit flush scan_arena
  arena_pass r =
      flush (
        scan_arena w.find fq ix.arenas.folded on_arena_hit on_poll
          (record { run = r; pend = none }))

  -- ---- the scan of the initials

  unfoldable pub group_initials : ℕ → Grouped → Grouped
  unfolding put
  group_initials slot g = elim g.pend [
    | none ↦ record g { pend = some (slot, initials) }
    | some held ↦
        let prev = held.0 in
        let next : Grouped = record {
          run = put prev initials (tier_base initials) g.run;
          pend = some (slot, initials);
        } in
        if prev == slot then g else next
  ]

  unfoldable pub initials_from : ℕ → ℕ → Grouped → Grouped
  unfolding tick group_initials
  initials_from zero cursor g = g
  initials_from (suc fuel) cursor g = elim (w.find fq (drop cursor ix.columns.initials)) [
    | none ↦ g
    | some rel ↦
        let hit = cursor + rel in
        let (run, stop) = tick w g.run in
        let ticked = record g { run = run } in
        let straddles = ltb initials_stride (hit % initials_stride + length fq) in
        let next = if straddles then ticked else group_initials (hit / initials_stride) ticked in
        let resume = if straddles then hit + 1 else hit + length fq in
        let rest = initials_from fuel resume next in
        if stop || rejects run.sel (tier_upper_bound initials) then ticked else rest
  ]

  -- As many hits as the column has bytes, and one.
  unfoldable pub initials_pass : Run → Run
  unfolding initials_from flush
  initials_pass r =
      flush (initials_from (length ix.columns.initials + 1) 0 (record { run = r; pend = none }))
