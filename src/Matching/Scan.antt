-- ===== src/Matching/Scan.antt =====
-- The loops of a search over the columns: crates/yspot-index/src/matching.rs (`slot_at`, `head_pass` and the scan
-- of the folded arena in `search`). Each takes what it does with a hit as a function that says whether to stop.
pub mod Hits
pub mod Keeps
pub mod Owner
use Prim.Native.Nat.{◌-◌, min, max}
use yspot.Prelude.{
  ℕ, zero, suc, ◌+◌, ◌/◌, Bool, true, false, not, ◌&&◌, List, [], ◌∷◌, Option, none, some, Bytes,
  ltb, leb, ◌==◌, if◌then◌else◌, length, drop, get_elem?,
}
use yspot.Prelude.Slices.{slice}
use yspot.Index.Types.{Entry, is_dead, ArenaRec}
use yspot.Index.Columns.{owner_block}

abbrev pub scan_poll_chunk : ℕ
scan_poll_chunk = 1048576

-- ---- from a hit to its slot

-- The last record from `rec` on that starts at or before the hit.
unfoldable pub walk : ArenaRec → List ArenaRec → ℕ → ArenaRec
walk rec [] hit = rec
walk rec (next ∷ recs) hit =
    let further = walk next recs hit in if leb next.off hit then further else rec

-- The record's slot, if it is still what the entry holds.
abbrev pub live_slot : List Entry → ArenaRec → Option ℕ
live_slot entries rec = elim (get_elem? entries rec.slot) [
  | none ↦ none
  | some e ↦ if rec.off == e.folded_off && not (is_dead e) then some rec.slot else none
]

abbrev pub slot_from : List ArenaRec → List Entry → ℕ → Option ℕ
slot_from [] entries hit = none
slot_from (rec ∷ recs) entries hit = live_slot entries (walk rec recs hit)

-- A read out of range, where the source would panic, gives `none`.
unfoldable pub slot_at : List ℕ → List ArenaRec → List Entry → ℕ → Option ℕ
unfolding walk
slot_at owner recs entries hit = elim (get_elem? owner (hit / owner_block)) [
  | none ↦ none
  | some ri ↦ slot_from (drop ri recs) entries hit
]

-- ---- the loops

-- Over the pairs of the head column, from the slot `slot` on. A last odd byte is not a pair.
unfoldable pub head_loop {ℓ} : {S : Type ℓ} → (ℕ → ℕ → ℕ → S → S × Bool) → ℕ → Bytes → S → S
head_loop visit slot [] s = s
head_loop visit slot (a ∷ []) s = s
head_loop visit slot (a ∷ b ∷ head) s =
    let (next, stop) = visit slot a b s in
    let rest = head_loop visit (slot + 1) head next in if stop then next else rest

-- How a loop goes on: from an offset, or not at all.
pub record Pass {ℓ} (S : Type ℓ) : Type ℓ where
  pub state : S
  pub at : ℕ
  pub stopped : Bool

module _ {ℓ} {S : Type ℓ} (find : Bytes → Bytes → Option ℕ) (fq arena : Bytes)
    (on_hit : ℕ → S → S × Bool) (poll : S → S × Bool) where
  -- The hits of one window, from `cursor` on.
  unfoldable pub scan_window : ℕ → ℕ → ℕ → S → Pass S
  scan_window zero win_end cursor s = record { state = s; at = cursor; stopped = false }
  scan_window (suc fuel) win_end cursor s = elim (find fq (slice arena cursor (win_end - cursor))) [
    | none ↦ record { state = s; at = cursor; stopped = false }
    | some rel ↦
        let hit = cursor + rel in
        let after : S × Bool = on_hit hit s in
        let rest : Pass S = scan_window fuel win_end (hit + length fq) after.0 in
        let end : Pass S = record { state = after.0; at = hit + length fq; stopped = true } in
        if after.1 then end else rest
  ]

  abbrev pub window_end : ℕ → ℕ
  window_end pos = min (pos + scan_poll_chunk + length fq) (length arena)

  abbrev pub resume_at : ℕ → ℕ → ℕ
  resume_at win_end cursor =
      if win_end == length arena then length arena else max cursor (win_end - (length fq - 1))

  -- The windows, from `pos` on, each behind a poll.
  unfoldable pub scan_from : ℕ → ℕ → S → S
  unfolding scan_window
  scan_from zero pos s = s
  scan_from (suc fuel) pos s =
      let polled = poll s in
      let win_end = window_end pos in
      let window = scan_window (length arena) win_end pos polled.0 in
      let rest = scan_from fuel (resume_at win_end window.at) window.state in
      let next = if window.stopped then window.state else rest in
      let go = if polled.1 then polled.0 else next in
      if leb (pos + length fq) (length arena) then go else s

  -- As many windows as the arena has bytes, and one.
  unfoldable pub scan_arena : S → S
  unfolding scan_from
  scan_arena s = scan_from (length arena + 1) 0 s
