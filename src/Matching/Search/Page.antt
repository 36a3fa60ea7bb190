-- ===== src/Matching/Search/Page.antt =====
-- Whatever cancels a search: its page holds only slots whose name the filter accepts, each once, best first, and
-- no more of them than were asked for.
use yspot.Prelude.{
  ℕ, ◌+◌, ◌-◌, ◌%◌, ◌≤◌, ◌≡◌, inl, inr, Bool, true, false, not, ◌&&◌, ◌||◌, List, Option-cases,
  Bytes, ltb, ◌==◌, if◌then◌else◌, length, get_elem?, length-take_le, replicate, min,
}
use yspot.Text.{chars}
use yspot.Index.Volume.{VolumeIndex}
use yspot.Matching.Tier.{fuzzy}
use yspot.Matching.Score.{Scored, better, fuzzy_base}
use yspot.Matching.Fuzzy.{fuzzy_density, visit, class_superset, fuzzy_cap_cut}
use yspot.Index.Columns.{rank_depth_max, class_mask, div_ceil}
use yspot.Matching.Selector.Dedup.{sorted_dedup-Kept}
use yspot.Matching.Selector.Heap.{better-IsOrder}
use yspot.Matching.Selector.Page.{Falls, Falls-take}
use yspot.Matching.Selector.Page.Drain.{
  Differ, Differ-take, Rises-Differ, sort_by-Differ, sorted-Falls,
}
use yspot.Matching.Selector.{full, by_slot, sort_by, dedup_by_slot, drain, new_selector}
use yspot.Matching.Selector.Sorted.{In, In-sort_by, In-take, In_of_All, sort_by-IsSorted}
use yspot.Matching.Scan.Keeps.{visit-keeps}
use yspot.Matching.Passes.{
  World, Run, ask, accept_slot, folded_of_entry, short, head_pass, arena_pass, initials_pass,
}
use yspot.Matching.Search.{
  Verify, depth_of_slot, admits, beyond_cap, score_candidate, verify_candidate, fuzzy_pass,
  verify_all, passes, page_of, start_run, after_head, after_arena, after_initials, after_fuzzy,
  arena_gate, initials_gate, fuzzy_gate, d_max_from, count_candidate,
}
use yspot.Matching.Search.Accepted.{
  if-keeps, Accepts, IsClean, put-IsClean, ask-IsClean, head_pass-IsClean, arena_pass-IsClean,
  initials_pass-IsClean,
}

module _ (w : World) (ix : VolumeIndex) (accept : Bytes → Bool) (fq : Bytes) where
  abbrev Clean : Run → Type 0
  Clean = IsClean w ix accept fq

  abbrev CleanVerify : Verify → Type 0
  CleanVerify v = Clean v.run

  abbrev CleanStep : Verify × Bool → Type 0
  CleanStep p = Clean p.0.run

  beyond_cap-Clean : (v : Verify) → Clean v.run → Clean (beyond_cap w ix accept fq v).0.run
  unfolding beyond_cap
  beyond_cap-Clean v h =
      let counted : Verify = record v { extra = v.extra + 1 } in
      let looked : Verify = record counted { looks = v.looks + 1; overtime = w.overdue v.looks } in
      let due = (v.extra + 1) % 512 == 0 in
      let go : Verify × Bool = (counted, true) in
      let at_clock : Verify × Bool = (looked, not looked.overtime) in
      if-keeps CleanStep (full v.run.sel || v.overtime) (v, false) (if due then at_clock else go) h
        (if-keeps CleanStep due at_clock go h h)

  score_candidate-Clean :
      (slot : ℕ) (v : Verify) → Clean v.run → Clean (score_candidate w ix accept fq slot v).run
  unfolding score_candidate
  score_candidate-Clean slot v h = elim (Option-cases (get_elem? ix.entries slot)) [
    | inl g ↦ rw (g, score_candidate) h
    | inr (e, g) ↦
        elim (Option-cases
          (fuzzy_density w.f32 (chars (folded_of_entry w ix accept fq e)) (chars fq))) [
            | inl k ↦ rw (g, score_candidate, k) h
            | inr (d, k) ↦
                rw (g, score_candidate, k)
                  (put-IsClean w ix accept fq slot fuzzy (fuzzy_base w.f32 d) v.run h)
          ]
  ]

  verify_candidate-Clean :
      (d_max cut slot : ℕ) (v : Verify)
      → Clean v.run
      → Clean (verify_candidate w ix accept fq d_max cut slot v).0.run
  unfolding verify_candidate
  verify_candidate-Clean d_max cut slot v h =
      let d = depth_of_slot ix.columns.rank_key slot in
      let retained = ltb d cut || (d == cut && ltb 0 v.quota) in
      let used : Verify = if d == cut then record v { quota = v.quota - 1 } else v in
      let taken : Verify × Bool = (used, true) in
      let beyond = beyond_cap w ix accept fq v in
      let both = if retained then taken else beyond in
      let kept : Clean both.0.run =
        if-keeps CleanStep retained taken beyond
          (if-keeps CleanVerify (d == cut) (record v { quota = v.quota - 1 }) v h h)
          (beyond_cap-Clean v h) in
      let counted : Verify = record both.0 { scored = both.0.scored + 1 } in
      let polled : Verify = record counted { run = (ask w counted.run).0 } in
      let polled_clean = ask-IsClean w ix accept fq counted.run kept in
      let stopped : Verify × Bool = (polled, false) in
      let scored : Verify × Bool = (score_candidate w ix accept fq slot counted, true) in
      let scored_polled : Verify × Bool = (score_candidate w ix accept fq slot polled, true) in
      let stop = (ask w counted.run).1 in
      let due = counted.scored % 4096 == 0 in
      let at_poll = if stop then stopped else scored_polled in
      let last = if due then at_poll else scored in
      let passed : Verify × Bool = (both.0, true) in
      let admitted = if not both.1 then passed else last in
      if-keeps CleanStep (not (admits ix.columns.rank_key d_max v.run.sel slot)) (v, true) admitted
        h
        (if-keeps CleanStep (not both.1) passed last kept (
          if-keeps CleanStep due at_poll scored
            (if-keeps CleanStep stop stopped scored_polled polled_clean
              (score_candidate-Clean slot polled polled_clean))
            (score_candidate-Clean slot counted kept)))

  verify_all-Clean :
      (d_max cut quota : ℕ) (slots : List ℕ) (r : Run)
      → Clean r
      → Clean (verify_all w ix accept fq d_max (cut, quota) slots r)
  unfolding verify_all
  verify_all-Clean d_max cut quota slots r h =
      visit-keeps CleanVerify (verify_candidate w ix accept fq d_max cut)
        (verify_candidate-Clean d_max cut) slots
        (record { run = r; quota = quota; overtime = false; extra = 0; scored = 0; looks = 0 }) h

  verify_all-keeps :
      (d_max : ℕ) (cut : ℕ × ℕ) (slots : List ℕ) (r : Run)
      → Clean r
      → Clean (verify_all w ix accept fq d_max cut slots r)
  verify_all-keeps d_max (cut, quota) slots r h = verify_all-Clean d_max cut quota slots r h

  fuzzy_pass-Clean : (r : Run) → Clean r → Clean (fuzzy_pass w ix accept fq r)
  unfolding fuzzy_pass
  fuzzy_pass-Clean r h =
      let c = ix.columns in
      let d_max = d_max_from w.f32 r.sel.floor rank_depth_max in
      let words = min (div_ceil (length ix.entries) 64) c.bsi_words in
      let slots = class_superset c.charclass_bsi c.bsi_words words (class_mask fq) in
      let counts = visit (count_candidate c.rank_key d_max r.sel) slots (replicate 128 0, 0) in
      verify_all-keeps d_max (fuzzy_cap_cut counts.0 counts.1) slots r h

  start_run-Clean : (max_results : ℕ) → Clean (start_run w ix accept fq max_results)
  unfolding start_run new_selector ask
  start_run-Clean max_results = tt

  after_head-Clean : (r : Run) → Clean r → Clean (after_head w ix accept fq r)
  unfolding after_head
  after_head-Clean r h =
      if-keeps Clean (short w ix accept fq && not r.cancelled) (head_pass w ix accept fq r) r
        (head_pass-IsClean w ix accept fq r h) h

  after_arena-Clean : (r : Run) → Clean r → Clean (after_arena w ix accept fq r)
  unfolding after_arena
  after_arena-Clean r h =
      if-keeps Clean (arena_gate w ix accept fq r) (arena_pass w ix accept fq r) r
        (arena_pass-IsClean w ix accept fq r h) h

  after_initials-Clean : (r : Run) → Clean r → Clean (after_initials w ix accept fq r)
  unfolding after_initials
  after_initials-Clean r h =
      if-keeps Clean (initials_gate w ix accept fq r) (initials_pass w ix accept fq r) r
        (initials_pass-IsClean w ix accept fq r h) h

  after_fuzzy-Clean : (r : Run) → Clean r → Clean (after_fuzzy w ix accept fq r)
  unfolding after_fuzzy
  after_fuzzy-Clean r h =
      if-keeps Clean (fuzzy_gate w ix accept fq r) (fuzzy_pass w ix accept fq r) r
        (fuzzy_pass-Clean r h) h

  passes-Clean : (max_results : ℕ) → Clean (passes w ix accept fq max_results)
  unfolding passes
  passes-Clean max_results =
      let r0 = start_run w ix accept fq max_results in
      let r1 = after_head w ix accept fq r0 in
      let r2 = after_arena w ix accept fq r1 in
      let r3 = after_initials w ix accept fq r2 in
      let k1 = after_head-Clean r0 (start_run-Clean max_results) in
      after_fuzzy-Clean r3 (after_initials-Clean r2 (after_arena-Clean r1 k1))

-- What a page of at most `n` rows is: strictly falling, so with one row for a slot, and every slot accepted.
pub record IsCleanPage (accepted : ℕ → Bool) (n : ℕ) (page : List Scored) : Type 0 where
  pub falls : Falls page
  pub differ : Differ page
  pub fits : length page ≤ n
  pub accepts : (s : Scored) → In s page → accepted s.eidx ≡ true

-- Whatever the answers to `is_cancelled` and the clock: the page of a search has at most as many rows as were
-- asked for, in strictly falling order, of slots that differ and whose names the filter accepts.
pub page_of-IsCleanPage :
    (w : World) (ix : VolumeIndex) (accept : Bytes → Bool) (fq : Bytes) (max_results : ℕ)
    → IsCleanPage (accept_slot w ix accept fq) max_results (page_of w ix accept fq max_results)
unfolding page_of drain
page_of-IsCleanPage w ix accept fq max_results =
    let heap = (passes w ix accept fq max_results).sel.heap in
    let k = sorted_dedup-Kept heap in
    let kept = dedup_by_slot (sort_by by_slot heap) in
    let line = sort_by better kept in
    let differ = sort_by-Differ better kept (Rises-Differ kept k.rises) in
    record {
      falls =
          Falls-take max_results line
            (sorted-Falls line (sort_by-IsSorted better better-IsOrder kept) differ);
      differ = Differ-take max_results line differ;
      fits = length-take_le max_results line;
      accepts = λ s h.
          In_of_All (λ (x : Scored). Accepts w ix accept fq x.eidx) heap s
            (passes-Clean w ix accept fq max_results)
            (k.from s (In-sort_by better s kept (In-take max_results line s h)));
    }
