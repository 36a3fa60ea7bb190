-- ===== src/Index/Compact/Moves.antt =====
-- The moves of compaction keep the live slots, in their order.
pub mod Lanes
use yspot.Prelude.{
  append_assoc, append_nil, ℕ, zero, suc, ◌+◌, ◌*◌, ◌≤◌, ◌<◌, ◌≡◌, refl, sym, ap, ◌∙◌, List, [],
  ◌∷◌, ◌++◌, Option, none, some, length, get_elem?, set, take, length-append,
  get_elem?-append_right, Bool-cases, Bool, true, false, inl, inr, if◌then◌else◌, arith,
}
use mathlib.Core.Path.{subst}
use yspot.Index.Types.{Entry, is_dead}
use yspot.Index.Compact.{
  remap_from, count_kept, move_elem, move_slot, move_slots, compact_slots, Slots,
}

-- The new slots are numbered from `k` on.
abbrev pub Numbers : ℕ → List (Option ℕ) → Type 0
Numbers k [] = Unit
Numbers k (none ∷ m) = Numbers k m
Numbers k (some n ∷ m) = (n ≡ k) × Numbers (suc k) m

pub remap_from-Numbers : (k : ℕ) (es : List Entry) → Numbers k (remap_from k es)
unfolding remap_from
remap_from-Numbers k [] = tt
remap_from-Numbers k (e ∷ es) = elim (Bool-cases (is_dead e)) [
  | inl d ↦ rw d (remap_from-Numbers k es)
  | inr l ↦ rw l (
    refl,
    subst (λ (n : ℕ). Numbers n (remap_from (k + 1) es)) (omega arith)
        (remap_from-Numbers (k + 1) es),
  )
]

pub length-remap_from : (k : ℕ) (es : List Entry) → length (remap_from k es) ≡ length es
unfolding remap_from
length-remap_from k [] = refl
length-remap_from k (e ∷ es) = ap suc (length-remap_from (if is_dead e then k else k + 1) es)

module _ {ℓ} {A : Type ℓ} where
  -- What stands where a slot is kept.
  abbrev pub kept_of : List (Option ℕ) → List A → List A
  kept_of [] xs = []
  kept_of (m ∷ ms) [] = []
  kept_of (none ∷ ms) (x ∷ xs) = kept_of ms xs
  kept_of (some n ∷ ms) (x ∷ xs) = x ∷ kept_of ms xs

  -- What stands where an entry is live.
  abbrev pub live_of : List Entry → List A → List A
  live_of [] xs = []
  live_of (e ∷ es) [] = []
  live_of (e ∷ es) (x ∷ xs) = let rest = live_of es xs in if is_dead e then rest else x ∷ rest

  kept_of-live :
      (k : ℕ) (es : List Entry) (xs : List A) → kept_of (remap_from k es) xs ≡ live_of es xs
  unfolding remap_from
  kept_of-live k [] xs = refl
  kept_of-live k (e ∷ es) [] = refl
  kept_of-live k (e ∷ es) (x ∷ xs) = elim (Bool-cases (is_dead e)) [
    | inl d ↦ rw d (kept_of-live k es xs)
    | inr l ↦ rw l (ap (λ (ys : List A). x ∷ ys) (kept_of-live (k + 1) es xs))
  ]

  abbrev pub move_elems : List (Option ℕ) → ℕ → List A → List A
  move_elems [] old xs = xs
  move_elems (none ∷ ms) old xs = move_elems ms (old + 1) xs
  move_elems (some n ∷ ms) old xs = move_elems ms (old + 1) (move_elem old n xs)

  take-append : (xs ys : List A) → take (length xs) (xs ++ ys) ≡ xs
  take-append [] ys = refl
  take-append (x ∷ xs) ys = ap (λ (l : List A). x ∷ l) (take-append xs ys)

  set-append :
      (xs : List A) (y : A) (ys : List A) (v : A) → set (xs ++ y ∷ ys) (length xs) v ≡ xs ++ v ∷ ys
  set-append [] y ys v = refl
  set-append (x ∷ xs) y ys v = ap (λ (l : List A). x ∷ l) (set-append xs y ys v)

  get_elem?-behind :
      (done junk : List A) (x : A) (rest : List A)
      → get_elem? (done ++ (junk ++ x ∷ rest)) (length done + length junk) ≡ some x
  get_elem?-behind done junk x rest =
      let z : length junk ≡ length junk + 0 = omega arith in
      get_elem?-append_right done (junk ++ x ∷ rest) (length junk)
      ∙ (ap (get_elem? (junk ++ x ∷ rest)) z ∙ get_elem?-append_right junk (x ∷ rest) 0)

  -- A move of the slot behind `done` and `junk`.
  move_elem-done :
      (done junk : List A) (x : A) (rest : List A)
      → (junk' : List A) × (move_elem
            (length done + length junk)
            (length done)
            (done ++ (junk ++ x ∷ rest))
          ≡ (done ++ x ∷ []) ++ (junk' ++ rest))
        × (length junk' ≡ length junk)
  unfolding move_elem
  move_elem-done done [] x rest =
      let g = get_elem?-behind done [] x rest in
      (
        [],
        rw (move_elem, g) (set-append done x rest x ∙ sym (append_assoc done (x ∷ []) rest)),
        refl,
      )
  move_elem-done done (j ∷ js) x rest =
      let g = get_elem?-behind done (j ∷ js) x rest in
      let size = length-append js (x ∷ []) in
      (
        js ++ x ∷ [],
        rw (move_elem, g)
            (set-append done j (js ++ x ∷ rest) x
              ∙ (ap (λ (l : List A). done ++ x ∷ l) (sym (append_assoc js (x ∷ []) rest))
                  ∙ sym (append_assoc done (x ∷ []) ((js ++ x ∷ []) ++ rest)))),
        omega arith,
      )

  move_elems-kept :
      (m : List (Option ℕ)) (done junk rest : List A)
      → Numbers (length done) m
      → length m ≡ length rest
      → take
          (length done + count_kept m)
          (move_elems m (length done + length junk) (done ++ (junk ++ rest)))
        ≡ done ++ kept_of m rest
  move_elems-kept [] done junk rest n e =
      let z : length done + 0 ≡ length done = omega arith in
      rw z (take-append done (junk ++ rest) ∙ sym (append_nil done))
  move_elems-kept (none ∷ ms) done junk [] n e = absurd (omega arith)
  move_elems-kept (none ∷ ms) done junk (x ∷ rest) n e =
      let size = length-append junk (x ∷ []) in
      let at : length done + length (junk ++ x ∷ []) ≡ length done + length junk + 1 =
        omega arith in
      rw (at, append_assoc junk (x ∷ []) rest) at
        (move_elems-kept ms done (junk ++ x ∷ []) rest n (omega arith))
  move_elems-kept (some k ∷ ms) done junk [] n e = absurd (omega arith)
  move_elems-kept (some k ∷ ms) done junk (x ∷ rest) n e =
      let (junk', moved, size) = move_elem-done done junk x rest in
      let more = length-append done (x ∷ []) in
      let len : length (done ++ x ∷ []) ≡ suc (length done) = omega arith in
      let ih = move_elems-kept ms (done ++ x ∷ []) junk' rest (rw len n.1) (omega arith) in
      let at : length (done ++ x ∷ []) + length junk' ≡ length done + length junk + 1 =
        omega arith in
      let count : length (done ++ x ∷ []) + count_kept ms ≡ length done + suc (count_kept ms) =
        omega arith in
      rw (n.0, moved) (rw (at, count) at ih ∙ append_assoc done (x ∷ []) (kept_of ms rest))

pub move_slots-entries :
    (m : List (Option ℕ)) (old : ℕ) (s : Slots)
    → (move_slots m old s).entries ≡ move_elems m old s.entries
unfolding move_slots move_slot
move_slots-entries [] old s = refl
move_slots-entries (none ∷ ms) old s = move_slots-entries ms (old + 1) s
move_slots-entries (some n ∷ ms) old s = move_slots-entries ms (old + 1) (move_slot old n s)

pub move_slots-rank_key :
    (m : List (Option ℕ)) (old : ℕ) (s : Slots)
    → (move_slots m old s).rank_key ≡ move_elems m old s.rank_key
unfolding move_slots move_slot
move_slots-rank_key [] old s = refl
move_slots-rank_key (none ∷ ms) old s = move_slots-rank_key ms (old + 1) s
move_slots-rank_key (some n ∷ ms) old s = move_slots-rank_key ms (old + 1) (move_slot old n s)

-- The moved elements, cut to the number of those that are kept.
pub moved-live {ℓ} :
    {A : Type ℓ} (es : List Entry) (xs : List A)
    → length xs ≡ length es
    → take (count_kept (remap_from 0 es)) (move_elems (remap_from 0 es) 0 xs) ≡ live_of es xs
moved-live es xs e =
    let z : 0 + count_kept (remap_from 0 es) ≡ count_kept (remap_from 0 es) = omega arith in
    (rw z at (
      move_elems-kept (remap_from 0 es) [] [] xs (remap_from-Numbers 0 es)
        (length-remap_from 0 es ∙ sym e)))
    ∙ kept_of-live 0 es xs
