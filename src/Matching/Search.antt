-- ===== src/Matching/Search.antt =====
-- The search: crates/yspot-index/src/matching.rs (`search` with its fuzzy pass).
pub mod Accepted
pub mod Page
use yspot.Prelude.{
  ℕ, zero, suc, ◌+◌, ◌*◌, ◌/◌, ◌%◌, Bool, true, false, not, ◌&&◌, ◌||◌, List, [], ◌∷◌, Option, none,
  some, Bytes, ltb, leb, ◌==◌, if◌then◌else◌, length, get_elem?, get_or, set, replicate,
}
use Prim.Native.Nat.{◌-◌, min}
use yspot.Text.{fold, chars, has_control_byte}
use yspot.Index.Columns.{rank_depth_max, initials_stride, class_mask, div_ceil, BitSet}
use yspot.Index.Columns.Gates.{arena_may_contain, initials_may_contain}
use yspot.Index.Volume.{VolumeIndex}
use yspot.Matching.Tier.{word_boundary, initials, fuzzy}
use yspot.Matching.Score.{F32, tier_upper_bound, depth_pen, fuzzy_base, Scored}
use yspot.Matching.Selector.{Selector, new_selector, full, below, rejects, drain}
use yspot.Matching.Ranges.{Range, compute_ranges}
use yspot.Matching.Fuzzy.{fuzzy_cap_cut, class_superset, visit, fuzzy_density}
use yspot.Matching.Passes.{
  World, Run, ask, cancel_stride, accept_slot, put, short, head_pass, arena_pass, initials_pass,
  name_of_entry, folded_of_entry,
}

abbrev pub deadline_stride : ℕ
deadline_stride = 512

pub record Hit : Type 0 where
  pub frn : ℕ
  pub score : ℕ
  pub match_ranges : List Range

-- The deepest a candidate may be to reach the page, from the depth `d` down.
unfoldable pub d_max_from : F32 → Option ℕ → ℕ → ℕ
unfolding depth_pen
d_max_from f floor zero = zero
d_max_from f floor (suc d) =
    let rest = d_max_from f floor d in
    if below (f.times (tier_upper_bound fuzzy) (depth_pen f (suc d))) floor then rest else suc d

abbrev pub depth_of_slot : List ℕ → ℕ → ℕ
depth_of_slot rank_key slot = get_or rank_key slot 0 % 128

abbrev pub admits : List ℕ → ℕ → Selector → ℕ → Bool
admits rank_key d_max sel slot = not (sel.seen slot) && leb (depth_of_slot rank_key slot) d_max

-- The counts by depth, and how many candidates there are.
unfoldable pub count_candidate : List ℕ → ℕ → Selector → ℕ → List ℕ × ℕ → (List ℕ × ℕ) × Bool
count_candidate rank_key d_max sel slot (by_depth, n) =
    let d = depth_of_slot rank_key slot in
    let counted : List ℕ × ℕ = (set by_depth d (get_or by_depth d 0 + 1), n + 1) in
    let same : List ℕ × ℕ = (by_depth, n) in
    (if admits rank_key d_max sel slot then counted else same, true)

-- The second walk over the candidates. `looks` counts the looks at the clock.
pub record Verify : Type 0 where
  pub run : Run
  pub quota : ℕ
  pub overtime : Bool
  pub extra : ℕ
  pub scored : ℕ
  pub looks : ℕ

module _ (w : World) (ix : VolumeIndex) (accept : Bytes → Bool) (fq : Bytes) where
  -- A candidate beyond the cap: whether it is verified.
  unfoldable pub beyond_cap : Verify → Verify × Bool
  beyond_cap v =
      let counted = record v { extra = v.extra + 1 } in
      let due = counted.extra % deadline_stride == 0 in
      let looked = record counted { looks = v.looks + 1; overtime = w.overdue v.looks } in
      let skip : Verify × Bool = (v, false) in
      let at_clock : Verify × Bool = (looked, not looked.overtime) in
      let go : Verify × Bool = (counted, true) in
      if full v.run.sel || v.overtime then skip else if due then at_clock else go

  unfoldable pub score_candidate : ℕ → Verify → Verify
  unfolding put fuzzy_density fuzzy_base
  score_candidate slot v = elim (get_elem? ix.entries slot) [
    | none ↦ v
    | some e ↦ elim (fuzzy_density w.f32 (chars (folded_of_entry w ix accept fq e)) (chars fq)) [
      | none ↦ v
      | some density ↦ record v {
        run = put w ix accept fq slot fuzzy (fuzzy_base w.f32 density) v.run;
      }
    ]
  ]

  unfoldable pub verify_candidate : ℕ → ℕ → ℕ → Verify → Verify × Bool
  unfolding beyond_cap score_candidate ask
  verify_candidate d_max cut slot v =
      let d = depth_of_slot ix.columns.rank_key slot in
      let retained = ltb d cut || (d == cut && ltb 0 v.quota) in
      let taken : Verify × Bool =
        (if d == cut then record v { quota = v.quota - 1 } else v, true) in
      let (kept, go) = if retained then taken else beyond_cap v in
      let counted = record kept { scored = kept.scored + 1 } in
      let (run, stop) = ask w counted.run in
      let polled = record counted { run = run } in
      let scored : Verify × Bool = (score_candidate slot counted, true) in
      let scored_polled : Verify × Bool = (score_candidate slot polled, true) in
      let stopped : Verify × Bool = (polled, false) in
      let skipped : Verify × Bool = (v, true) in
      let passed : Verify × Bool = (kept, true) in
      if not (admits ix.columns.rank_key d_max v.run.sel slot)
      then skipped
      else if not go
      then passed
      else if counted.scored % cancel_stride == 0
      then (if stop then stopped else scored_polled)
      else scored

  unfoldable pub verify_all : ℕ → ℕ × ℕ → List ℕ → Run → Run
  unfolding verify_candidate visit
  verify_all d_max (cut, quota) slots r =
      (visit (verify_candidate d_max cut) slots
        (record { run = r; quota = quota; overtime = false; extra = 0; scored = 0; looks = 0 })).run

  unfoldable pub fuzzy_pass : Run → Run
  unfolding d_max_from count_candidate verify_all class_superset visit fuzzy_cap_cut class_mask
  fuzzy_pass r =
      let c = ix.columns in
      let d_max = d_max_from w.f32 r.sel.floor rank_depth_max in
      let words = min (div_ceil (length ix.entries) 64) c.bsi_words in
      let slots = class_superset c.charclass_bsi c.bsi_words words (class_mask fq) in
      let (by_depth, survivors) =
        visit (count_candidate c.rank_key d_max r.sel) slots (replicate 128 0, 0) in
      verify_all d_max (fuzzy_cap_cut by_depth survivors) slots r

  -- ---- the search

  -- Whether each pass runs.
  unfoldable pub arena_gate : Run → Bool
  unfolding rejects arena_may_contain
  arena_gate r =
      not r.cancelled
      && ((not (short w ix accept fq) || not (rejects r.sel (tier_upper_bound word_boundary)))
          && arena_may_contain ix.columns.presence fq)

  unfoldable pub initials_gate : Run → Bool
  unfolding rejects initials_may_contain
  initials_gate r =
      not r.cancelled
      && (leb (length fq) initials_stride
          && (not (rejects r.sel (tier_upper_bound initials))
              && initials_may_contain ix.columns.presence fq))

  unfoldable pub fuzzy_gate : Run → Bool
  unfolding rejects
  fuzzy_gate r =
      not r.cancelled && (leb 3 (length fq) && not (rejects r.sel (tier_upper_bound fuzzy)))

  -- The state in which the passes find the search, and that each leaves behind, run or not.
  unfoldable pub start_run : ℕ → Run
  unfolding new_selector ask
  start_run max_results =
      let offers = if short w ix accept fq then 3 else 2 in
      let r : Run = record {
        sel = new_selector max_results offers;
        polls = 0;
        processed = 0;
        cancelled = false;
      } in
      (ask w r).0

  unfoldable pub after_head : Run → Run
  unfolding head_pass
  after_head r = if short w ix accept fq && not r.cancelled then head_pass w ix accept fq r else r

  unfoldable pub after_arena : Run → Run
  unfolding arena_pass arena_gate
  after_arena r = if arena_gate r then arena_pass w ix accept fq r else r

  unfoldable pub after_initials : Run → Run
  unfolding initials_pass initials_gate
  after_initials r = if initials_gate r then initials_pass w ix accept fq r else r

  unfoldable pub after_fuzzy : Run → Run
  unfolding fuzzy_pass fuzzy_gate
  after_fuzzy r = if fuzzy_gate r then fuzzy_pass r else r

  unfoldable pub passes : ℕ → Run
  unfolding start_run after_head after_arena after_initials after_fuzzy
  passes max_results =
      after_fuzzy (after_initials (after_arena (after_head (start_run max_results))))

  -- The rows of the page. A slot out of range, where the source would panic, gives none.
  unfoldable pub rows : List Scored → List Hit
  unfolding compute_ranges
  rows [] = []
  rows (s ∷ top) =
      let rest = rows top in
      elim (get_elem? ix.entries s.eidx) [
        | none ↦ rest
        | some e ↦
            let name = name_of_entry w ix accept fq e in
            let hit : Hit = record {
              frn = e.frn;
              score = s.score;
              match_ranges = compute_ranges w.unicode w.find name fq s.tier;
            } in
            hit ∷ rest
      ]

  unfoldable pub page_of : ℕ → List Scored
  unfolding passes drain
  page_of max_results = drain max_results (passes max_results).sel

unfoldable pub search : World → VolumeIndex → Bytes → ℕ → (Bytes → Bool) → List Hit
unfolding fold rows page_of has_control_byte
search w ix query max_results accept =
    let fq = fold w.unicode query in
    let hits = rows w ix accept fq (page_of w ix accept fq max_results) in
    if length fq == 0 || max_results == 0 || ix.live_count == 0 || has_control_byte fq
    then []
    else hits
