-- ===== src/Index/Table/Bind.antt =====
-- Binding a vacant slot to a file keeps the invariant of the table.
use yspot.Prelude.{
  ℕ, ◌≤◌, ◌≡◌, ◌≢◌, ap, ◌⊎◌, inl, inr, false, List, [], ◌∷◌, none, some, ◌==◌, if◌then◌else◌,
  length, get_elem?, arith, lt_of_get_elem?, ==_iff, Bool-cases, sym, ◌∙◌,
}
use yspot.Index.Types.{Entry, is_dead}
use yspot.Index.Table.{Table, bind, put_entry}
use yspot.Index.Table.Valid.{LiveAt, DeadAt, All, InArenas, Apart, IsValid, IsVacant}
use yspot.Index.Table.Writes.{get_elem?-put_entry, count_live-put_entry}

pub le_of_vacant : {t : Table} {slot : ℕ} → IsVacant t slot → slot ≤ length t.entries
le_of_vacant {t} {slot} v = elim v.next_or_dead [
  | inl e ↦ omega arith
  | inr (x, g, d) ↦ omega (arith, lt_of_get_elem? t.entries slot g)
]

not_live_vacant : {t : Table} {slot : ℕ} {a : Entry} → IsVacant t slot → LiveAt t slot a → ⊥
not_live_vacant {t} {slot} v (g, l) = elim v.next_or_dead [
  | inl e ↦ omega (arith, lt_of_get_elem? t.entries slot g)
  | inr (x, h, d) ↦ ground arith
]

module _ (t : Table) (slot : ℕ) (e : Entry) (vacant : IsVacant t slot) where
  pub LiveAt-bind :
      (s : ℕ) (a : Entry)
      → LiveAt (bind slot e t) s a
      → ((s ≡ slot) × (a ≡ e)) ⊎ ((s ≢ slot) × LiveAt t s a)
  unfolding bind
  LiveAt-bind s a (g, l) = elim (Bool-cases (s == slot)) [
    | inl same ↦ inl ((==_iff s slot).0 same, ground (arith, put s))
    | inr other ↦ inr (ground arith, (ground (arith, put s), l))
  ]
    where
      put :
          (s : ℕ)
          → get_elem? (put_entry slot e t.entries) s
            ≡ (if s == slot then some e else get_elem? t.entries s)
      put s = get_elem?-put_entry t.entries slot e s (le_of_vacant vacant)

  pub LiveAt-bind_self : is_dead e ≡ false → LiveAt (bind slot e t) slot e
  unfolding bind
  LiveAt-bind_self l =
      (ground (arith, get_elem?-put_entry t.entries slot e slot (le_of_vacant vacant)), l)

  pub LiveAt-bind_ne : (s : ℕ) (a : Entry) → LiveAt t s a → LiveAt (bind slot e t) s a
  unfolding bind
  LiveAt-bind_ne s a (g, l) = elim (Bool-cases (s == slot)) [
    | inl same ↦
        let p : s ≡ slot = (==_iff s slot).0 same in absurd (not_live_vacant {a = a} vacant (cc, l))
    | inr other ↦ (ground (arith, get_elem?-put_entry t.entries slot e s (le_of_vacant vacant)), l)
  ]

  DeadAt-bind : (s : ℕ) → s ≢ slot → DeadAt t s → DeadAt (bind slot e t) s
  unfolding bind
  DeadAt-bind s ne (x, g, d) =
      (x, ground (arith, get_elem?-put_entry t.entries slot e s (le_of_vacant vacant)), d)

  free-bind :
      (l : List ℕ) → All (λ s. s ≢ slot) l → All (DeadAt t) l → All (DeadAt (bind slot e t)) l
  free-bind [] n d = tt
  free-bind (s ∷ l) n d = (DeadAt-bind s n.0 d.0, free-bind l n.1 d.1)

-- Binding a slot to a new file keeps the invariant.
module _ (t : Table) (slot : ℕ) (e : Entry) (v : IsValid t) (vacant : IsVacant t slot) where
  pub bind-IsValid :
      t.frn_map e.frn ≡ none
      → is_dead e ≡ false
      → InArenas t.arenas e
      → ((s : ℕ) (a : Entry) → LiveAt t s a → Apart a e)
      → IsValid (bind slot e t)
  unfolding bind
  bind-IsValid new live ina ap = record {
    mapped = λ s a l. elim (LiveAt-bind t slot e vacant s a l) [
      | inl (p, q) ↦ ground arith
      | inr (n, l') ↦ ground (arith, v.mapped s a l')
    ];
    held = λ f s h. elim (Bool-cases (f == e.frn)) [
      | inl same ↦
          let p : slot ≡ s = ground arith in
          (e, rw (← p) (LiveAt-bind_self t slot e vacant live), ground arith)
      | inr other ↦
          let (a, l, q) = v.held f s (ground arith) in (a, LiveAt-bind_ne t slot e vacant s a l, q)
    ];
    counted =
        ground (arith, count_live-put_entry t.entries slot e vacant.next_or_dead live, v.counted);
    in_arenas = λ s a l. elim (LiveAt-bind t slot e vacant s a l) [
      | inl (p, q) ↦ rw q ina
      | inr (n, l') ↦ v.in_arenas s a l'
    ];
    apart = λ r s a b la lb ne. elim (LiveAt-bind t slot e vacant r a la) [
      | inl (p, q) ↦ elim (LiveAt-bind t slot e vacant s b lb) [
        | inl (p', q') ↦ absurd (ne (p ∙ sym p'))
        | inr (n', l') ↦ rw q (swap b e (ap s b l'))
      ]
      | inr (n, l) ↦ elim (LiveAt-bind t slot e vacant s b lb) [
        | inl (p', q') ↦ rw q' (ap r a l)
        | inr (n', l') ↦ v.apart r s a b l l' ne
      ]
    ];
    free_dead = free-bind t slot e vacant t.free_slots vacant.not_free v.free_dead;
    free_distinct = v.free_distinct;
  }
    where
      swap : (a b : Entry) → Apart a b → Apart b a
      swap a b (inl h) = inr h
      swap a b (inr h) = inl h
