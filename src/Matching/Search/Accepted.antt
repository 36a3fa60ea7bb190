-- ===== src/Matching/Search/Accepted.antt =====
-- The heap of a search holds only slots whose name the filter accepts, throughout the passes over the columns.
use yspot.Prelude.{
  ℕ, zero, suc, ◌+◌, ◌/◌, ◌%◌, not, ◌&&◌, ◌||◌, if◌then◌else◌, ◌≡◌, inl, inr, Bool, true, false,
  Bool-cases, List, [], ◌∷◌, Option, none, some, Option-cases, Bytes, ltb, ◌==◌, length, drop,
  get_or, ◌-◌,
}
use yspot.Index.Volume.{VolumeIndex}
use yspot.Index.Table.Valid.{All}
use yspot.Matching.Tier.{Tier}
use yspot.Matching.Score.{Scored, better}
use yspot.Matching.Selector.{Selector, insert_by, worse, offer, offer_scored, admit, displace_from}
use yspot.Matching.Selector.Sorted.{All-In, In_of_All, In-insert_by}
use yspot.Matching.Scan.Keeps.{head_loop-keeps, scan_arena-keeps}
use yspot.Matching.Passes.{
  World, Run, ask, tick, accept_slot, put, Grouped, group, group_at, flush, on_arena_hit, on_poll,
  head_visit, head_pass, arena_pass, group_initials, initials_from, initials_pass, short, is_start,
}
use yspot.Matching.Tier.{exact, prefix, initials, classify}
use yspot.Matching.Score.{tier_base, tier_upper_bound}
use yspot.Matching.Selector.{rejects}
use yspot.Matching.Scan.{slot_at}

pub if-keeps :
    {S : Type 0} (P : S → Type 0) (c : Bool) (x y : S) → P x → P y → P (if c then x else y)
if-keeps P true x y h k = h
if-keeps P false x y h k = k

module _ (P : ℕ → Type 0) where
  -- Every candidate of the heap has the property.
  abbrev pub AllHeld : List Scored → Type 0
  AllHeld heap = All (λ (s : Scored). P s.eidx) heap

  insert_by-AllHeld :
      (s : Scored) (heap : List Scored) → P s.eidx → AllHeld heap → AllHeld (insert_by worse s heap)
  insert_by-AllHeld s heap p h =
      All-In (λ (s : Scored). P s.eidx) (insert_by worse s heap)
        (λ x k. elim (In-insert_by worse s x heap k) [
          | inl e ↦ rw e p
          | inr m ↦ In_of_All (λ (s : Scored). P s.eidx) heap x h m
        ])

  displace_from-AllHeld :
      (s : Scored) (a : Bool) (heap : List Scored) (sel : Selector)
      → (a ≡ true → P s.eidx)
      → AllHeld heap
      → AllHeld sel.heap
      → AllHeld (displace_from s a heap sel).heap
  unfolding displace_from
  displace_from-AllHeld s a [] sel p h k = k
  displace_from-AllHeld s a (x ∷ xs) sel p h k = elim (Bool-cases (better s x)) [
    | inr b ↦ rw b k
    | inl b ↦ elim (Bool-cases a) [
      | inr c ↦ rw (b, c) k
      | inl c ↦ rw (b, c) (insert_by-AllHeld s xs (p c) h.1)
    ]
  ]

  offer_scored-AllHeld :
      (s : Scored) (a : Bool) (sel : Selector)
      → (a ≡ true → P s.eidx)
      → AllHeld sel.heap
      → AllHeld (offer_scored s a sel).heap
  unfolding offer_scored admit
  offer_scored-AllHeld s a sel p h = elim (Bool-cases (ltb (length sel.heap) sel.cap)) [
    | inr b ↦ rw b (displace_from-AllHeld s a sel.heap _ p h h)
    | inl b ↦ elim (Bool-cases a) [
      | inr c ↦ rw (b, c) h
      | inl c ↦ rw (b, c) (insert_by-AllHeld s sel.heap (p c) h)
    ]
  ]

module _ (w : World) (ix : VolumeIndex) (accept : Bytes → Bool) (fq : Bytes) where
  abbrev pub Accepts : ℕ → Type 0
  Accepts slot = accept_slot w ix accept fq slot ≡ true

  -- Only accepted slots are held.
  abbrev pub IsClean : Run → Type 0
  IsClean r = AllHeld Accepts r.sel.heap

  abbrev IsCleanStep : Run × Bool → Type 0
  IsCleanStep p = IsClean p.0

  pub put-IsClean :
      (slot : ℕ) (tier : Tier) (base : ℕ) (r : Run)
      → IsClean r
      → IsClean (put w ix accept fq slot tier base r)
  unfolding put offer
  put-IsClean slot tier base r h =
      offer_scored-AllHeld Accepts _ (accept_slot w ix accept fq slot) r.sel (λ e. e) h

  pub ask-IsClean : (r : Run) → IsClean r → IsClean (ask w r).0
  unfolding ask
  ask-IsClean r h = h

  tick-IsClean : (r : Run) → IsClean r → IsClean (tick w r).0
  unfolding tick ask
  tick-IsClean r h = elim (Bool-cases ((r.processed + 1) % 4096 == 0)) [
    | inl e ↦ rw e h
    | inr e ↦ rw e h
  ]

  head_visit-IsClean :
      (q slot a b : ℕ) (r : Run) → IsClean r → IsClean (head_visit w ix accept fq q slot a b r).0
  unfolding head_visit ask
  head_visit-IsClean q slot a b r h =
      let tier = if b == 0 then exact else prefix in
      let passed : Run × Bool = (r, false) in
      let polled = if slot % 65536 == 65535 then ask w r else passed in
      let clean : IsClean polled.0 =
        if-keeps IsCleanStep (slot % 65536 == 65535) (ask w r) passed (ask-IsClean r h) h in
      let offered = put w ix accept fq slot tier (tier_base tier) polled.0 in
      let next =
        if a == q && not (rejects polled.0.sel (tier_upper_bound tier))
        then offered
        else polled.0 in
      let go : Run × Bool = (next, false) in
      let next_clean : IsClean next =
        if-keeps IsClean (a == q && not (rejects polled.0.sel (tier_upper_bound tier))) offered
          polled.0 (put-IsClean slot tier (tier_base tier) polled.0 clean) clean in
      if-keeps IsCleanStep polled.1 polled go clean next_clean

  abbrev IsCleanGroup : Grouped → Type 0
  IsCleanGroup g = IsClean g.run

  group-IsClean :
      (slot : ℕ) (tier : Tier) (run : Run) (pend : Option (ℕ × Tier))
      → IsClean run
      → IsCleanGroup (group w ix accept fq slot tier (record { run = run; pend = pend }))
  unfolding group
  group-IsClean slot tier run none h = h
  group-IsClean slot tier run (some (prev, best)) h =
      if-keeps IsCleanGroup (prev == slot) _ _
        (if-keeps IsCleanGroup (ltb (tier_base best) (tier_base tier)) _ _ h h)
        (put-IsClean prev best (tier_base best) run h)

  flush-IsClean :
      (run : Run) (pend : Option (ℕ × Tier))
      → IsClean run
      → IsClean (flush w ix accept fq (record { run = run; pend = pend }))
  unfolding flush
  flush-IsClean run none h = h
  flush-IsClean run (some (slot, tier)) h = put-IsClean slot tier (tier_base tier) run h

  flush_group-IsClean : (g : Grouped) → IsCleanGroup g → IsClean (flush w ix accept fq g)
  flush_group-IsClean g h = flush-IsClean g.run g.pend h

  group_at-IsClean :
      (slot : Option ℕ) (tier : Tier) (run : Run) (pend : Option (ℕ × Tier))
      → IsClean run
      → IsCleanGroup (group_at w ix accept fq slot tier (record { run = run; pend = pend }))
  group_at-IsClean none tier run pend h = h
  group_at-IsClean (some slot) tier run pend h = group-IsClean slot tier run pend h

  on_arena_hit-IsClean :
      (hit : ℕ) (g : Grouped) → IsCleanGroup g → IsCleanGroup (on_arena_hit w ix accept fq hit g).0
  unfolding on_arena_hit
  on_arena_hit-IsClean hit g h =
      let arena = ix.arenas.folded in
      let (run, stop) = tick w g.run in
      let ticked : Grouped = record g { run = run } in
      let tier = classify (get_or arena (hit - 1) 0) (get_or arena (hit + length fq) 0) in
      let slot = slot_at ix.columns.owner ix.columns.arena_recs ix.entries hit in
      let skip = short w ix accept fq && is_start tier || rejects run.sel (tier_upper_bound tier) in
      let clean = tick-IsClean g.run h in
      let grouped = group_at w ix accept fq slot tier ticked in
      let next =
        if-keeps IsCleanGroup skip ticked grouped clean
          (group_at-IsClean slot tier run g.pend clean) in
      if-keeps (λ (p : Grouped × Bool). IsCleanGroup p.0) stop (ticked, true)
        (if skip then ticked else grouped, false) clean next

  pub arena_pass-IsClean : (r : Run) → IsClean r → IsClean (arena_pass w ix accept fq r)
  unfolding arena_pass
  arena_pass-IsClean r h =
      let g =
        scan_arena-keeps IsCleanGroup w.find fq ix.arenas.folded (on_arena_hit w ix accept fq)
          (on_poll w ix accept fq) on_arena_hit-IsClean (λ g k. ask-IsClean g.run k)
          (record { run = r; pend = none }) h in
      flush_group-IsClean _ g

  pub head_pass-IsClean : (r : Run) → IsClean r → IsClean (head_pass w ix accept fq r)
  unfolding head_pass
  head_pass-IsClean r h =
      head_loop-keeps IsClean (head_visit w ix accept fq _) (head_visit-IsClean _) 0 ix.columns.head
        r h

  group_initials-IsClean :
      (slot : ℕ) (run : Run) (pend : Option (ℕ × Tier))
      → IsClean run
      → IsCleanGroup (group_initials w ix accept fq slot (record { run = run; pend = pend }))
  unfolding group_initials
  group_initials-IsClean slot run none h = h
  group_initials-IsClean slot run (some (prev, _)) h =
      if-keeps IsCleanGroup (prev == slot) _ _ h
        (put-IsClean prev initials (tier_base initials) run h)

  initials_from-IsClean :
      (fuel cursor : ℕ) (run : Run) (pend : Option (ℕ × Tier))
      → IsClean run
      → IsCleanGroup (initials_from w ix accept fq fuel cursor (record { run = run; pend = pend }))
  unfolding initials_from
  initials_from-IsClean zero cursor run pend h = h
  initials_from-IsClean (suc fuel) cursor run pend h =
      elim (Option-cases (w.find fq (drop cursor ix.columns.initials))) [
        | inl e ↦ rw (e, initials_from) h
        | inr (rel, e) ↦
            let ticked = tick-IsClean run h in
            let grouped =
              if-keeps IsCleanGroup (ltb 8 ((cursor + rel) % 8 + length fq)) _ _ ticked
                (group_initials-IsClean ((cursor + rel) / 8) (tick w run).0 pend ticked) in
            rw (e, initials_from)
              (if-keeps IsCleanGroup _ _ _ ticked (initials_from-IsClean fuel _ _ _ grouped))
      ]

  pub initials_pass-IsClean : (r : Run) → IsClean r → IsClean (initials_pass w ix accept fq r)
  unfolding initials_pass
  initials_pass-IsClean r h =
      let fuel = length ix.columns.initials + 1 in
      flush_group-IsClean (initials_from w ix accept fq fuel 0 (record { run = r; pend = none }))
        (initials_from-IsClean fuel 0 r none h)
