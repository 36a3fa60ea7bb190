-- ===== src/Index/Table/Vacate.antt =====
-- Vacating a live slot keeps the invariant of the table.
use yspot.Prelude.{
  ℕ, ◌≡◌, ◌≢◌, ap, inl, inr, false, List, [], ◌∷◌, none, some, ◌==◌, if◌then◌else◌, set, get_elem?,
  arith, lt_of_get_elem?, ==_iff, Bool-cases, sym, ◌∙◌,
}
use yspot.Prelude.Slices.{length-fill}
use yspot.Index.Flags.{has_flag-with_flag}
use yspot.Index.Types.{Entry}
use yspot.Index.Table.{Table, vacate, tombstone}
use yspot.Index.Table.Valid.{LiveAt, DeadAt, All, InArenas, IsValid, IsVacant}
use yspot.Index.Table.Writes.{get_elem?-set, count_live-set_dead}

module _ (t : Table) (slot : ℕ) (e : Entry) (v : IsValid t) (at_slot : LiveAt t slot e) where
  set_slot :
      (s : ℕ)
      → get_elem? (set t.entries slot (tombstone e)) s
        ≡ (if s == slot then some (tombstone e) else get_elem? t.entries s)
  set_slot s =
      get_elem?-set t.entries slot (tombstone e) s (lt_of_get_elem? t.entries slot at_slot.0)

  pub LiveAt-vacate : (s : ℕ) (a : Entry) → LiveAt (vacate slot e t) s a → (s ≢ slot) × LiveAt t s a
  unfolding vacate
  LiveAt-vacate s a (g, l) = elim (Bool-cases (s == slot)) [
    | inl same ↦
        let q : some (tombstone e) ≡ some a = ground (arith, set_slot s) in
        ground (arith, has_flag-with_flag e.flags)
    | inr other ↦ (ground arith, (ground (arith, set_slot s), l))
  ]

  pub LiveAt-vacate_ne :
      (s : ℕ) (a : Entry) → s ≢ slot → LiveAt t s a → LiveAt (vacate slot e t) s a
  unfolding vacate
  LiveAt-vacate_ne s a n (g, l) = (ground (arith, set_slot s), l)

  pub DeadAt-vacate_self : DeadAt (vacate slot e t) slot
  unfolding vacate
  DeadAt-vacate_self = (tombstone e, ground (arith, set_slot slot), has_flag-with_flag e.flags)

  DeadAt-vacate : (s : ℕ) → DeadAt t s → DeadAt (vacate slot e t) s
  unfolding vacate
  DeadAt-vacate s (x, g, d) = elim (Bool-cases (s == slot)) [
    | inl same ↦ (tombstone e, ground (arith, set_slot s), has_flag-with_flag e.flags)
    | inr other ↦ (x, ground (arith, set_slot s), d)
  ]

  free-vacate : (l : List ℕ) → All (DeadAt t) l → All (DeadAt (vacate slot e t)) l
  free-vacate [] d = tt
  free-vacate (s ∷ l) d = (DeadAt-vacate s d.0, free-vacate l d.1)

  live_not_free : (l : List ℕ) → All (DeadAt t) l → All (λ s. s ≢ slot) l
  live_not_free [] d = tt
  live_not_free (s ∷ l) ((x, g, d), rest) = (
    (λ p. let q : some x ≡ some e = sym g ∙ ap (get_elem? t.entries) p ∙ at_slot.0 in ground arith),
    live_not_free l rest,
  )

  -- The vacated slot may be bound again at once.
  pub vacate-IsVacant : IsVacant (vacate slot e t) slot
  unfolding vacate
  vacate-IsVacant = record {
    next_or_dead = inr DeadAt-vacate_self;
    not_free = live_not_free t.free_slots v.free_dead;
  }

  pub vacate-unmapped : (vacate slot e t).frn_map e.frn ≡ none
  unfolding vacate
  vacate-unmapped = ground arith

  InArenas-fill : (a : Entry) → InArenas t.arenas a → InArenas (vacate slot e t).arenas a
  unfolding vacate
  InArenas-fill a i = record {
    name_in = i.name_in;
    folded_in = omega (arith, i.folded_in, length-fill t.arenas.folded e.folded_off e.folded_len 0);
    fence_before = i.fence_before;
    not_empty = i.not_empty;
  }

  -- Vacating a slot keeps the invariant.
  pub vacate-IsValid : IsValid (vacate slot e t)
  unfolding vacate
  vacate-IsValid = record {
    mapped = λ s a l.
        let (n, l') = LiveAt-vacate s a l in
        elim (Bool-cases (a.frn == e.frn)) [
          | inl same ↦
              let p : some s ≡ some slot =
                sym (v.mapped s a l')
                ∙ ap t.frn_map ((==_iff a.frn e.frn).0 same)
                ∙ v.mapped slot e at_slot in
              absurd (n (ground arith))
          | inr other ↦ ground (arith, v.mapped s a l')
        ];
    held = λ f s h. elim (Bool-cases (f == e.frn)) [
      | inl same ↦ ground arith
      | inr other ↦
          let (a, l, q) = v.held f s (ground arith) in
          (a, LiveAt-vacate_ne s a (λ p. apart_frn f s a l q p other) l, q)
    ];
    counted = omega (
      arith,
      count_live-set_dead t.entries slot e (tombstone e) at_slot.0 at_slot.1
          (has_flag-with_flag e.flags),
      v.counted,
    );
    in_arenas = λ s a l. let (n, l') = LiveAt-vacate s a l in InArenas-fill a (v.in_arenas s a l');
    apart =
        λ r s a b la lb ne. v.apart r s a b (LiveAt-vacate r a la).1 (LiveAt-vacate s b lb).1 ne;
    free_dead = free-vacate t.free_slots v.free_dead;
    free_distinct = v.free_distinct;
  }
    where
      apart_frn :
          (f s : ℕ) (a : Entry) → LiveAt t s a → a.frn ≡ f → s ≡ slot → (f == e.frn) ≡ false → ⊥
      apart_frn f s a l q p other =
          let w : some a ≡ some e = sym l.0 ∙ ap (get_elem? t.entries) p ∙ at_slot.0 in ground arith
