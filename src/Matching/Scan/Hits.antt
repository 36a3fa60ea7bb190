-- ===== src/Matching/Scan/Hits.antt =====
-- The scan by windows sees the hits that one scan of the whole arena would see: the occurrences from the left,
-- none overlapping the one before.
use Prim.Native.Nat.{◌-◌}
use yspot.Prelude.{
  ℕ, zero, suc, ◌+◌, ◌≤◌, ◌<◌, ◌≡◌, refl, sym, ap, ◌∙◌, inl, inr, Bool, false, Bool-cases, List, [],
  ◌∷◌, ◌++◌, Option, none, some, Option-cases, Bytes, ltb, leb, ◌==◌, length, get_elem?,
  lt_of_get_elem?, drop, length-take_le, get_elem?_of_lt, arith,
}
use mathlib.Core.Path.{subst}
use yspot.Prelude.Slices.{slice, get_elem?-slice}
use yspot.Index.Table.Fenced.Hits.{OccursAt}
use yspot.Matching.Scan.{Pass, scan_window, window_end, resume_at, scan_from, scan_arena}

-- What `memmem::find` promises: the first occurrence, if there is any.
pub record IsFinder (find : Bytes → Bytes → Option ℕ) : Type 0 where
  pub found : (q bs : Bytes) (p : ℕ) → find q bs ≡ some p → OccursAt bs p q
  pub first : (q bs : Bytes) (p j : ℕ) → find q bs ≡ some p → j < p → OccursAt bs j q → ⊥
  pub missing : (q bs : Bytes) (j : ℕ) → find q bs ≡ none → OccursAt bs j q → ⊥

module _ (q arena : Bytes) where
  -- No occurrence starts from `a` on and before `b`.
  abbrev pub IsQuiet : ℕ → ℕ → Type 0
  IsQuiet a b = (j : ℕ) → a ≤ j → j < b → OccursAt arena j q → ⊥

  -- The occurrences from `pos` on, each the first behind the end of the one before.
  abbrev pub Leftmost : ℕ → List ℕ → Type 0
  Leftmost pos [] = IsQuiet pos (length arena)
  Leftmost pos (h ∷ hs) =
      (pos ≤ h) × IsQuiet pos h × OccursAt arena h q × Leftmost (h + length q) hs

  -- The same up to the end of a window; `at` is the end of the last one.
  abbrev InWindow : ℕ → ℕ → ℕ → List ℕ → Type 0
  InWindow end pos at [] =
      (at ≡ pos) × ((j : ℕ) → pos ≤ j → j + length q ≤ end → OccursAt arena j q → ⊥)
  InWindow end pos at (h ∷ hs) =
      (pos ≤ h) × IsQuiet pos h × OccursAt arena h q × InWindow end (h + length q) at hs

  occurs_inside : (bs : Bytes) (j : ℕ) → 0 < length q → OccursAt bs j q → j + length q ≤ length bs
  occurs_inside bs j ne o =
      let (b, g) = get_elem?_of_lt q (length q - 1) (omega arith) in
      let l = lt_of_get_elem? bs (j + (length q - 1)) (o (length q - 1) b g) in omega arith

  no_more_hits :
      (pos : ℕ) → 0 < length q → length arena < pos + length q → IsQuiet pos (length arena)
  no_more_hits pos ne past j a b o = let l = occurs_inside arena j ne o in absurd (omega arith)

  Leftmost-quiet : (a b : ℕ) (hs : List ℕ) → a ≤ b → IsQuiet a b → Leftmost b hs → Leftmost a hs
  Leftmost-quiet a b [] le k l = λ j x y o. elim (Bool-cases (ltb j b)) [
    | inl h ↦ k j x (ground arith) o
    | inr h ↦ l j (ground arith) y o
  ]
  Leftmost-quiet a b (h ∷ hs) le k (x, y, o, l) = (omega arith, both, o, l)
    where
      both : IsQuiet a h
      both j u v c = elim (Bool-cases (ltb j b)) [
        | inl m ↦ k j u (ground arith) c
        | inr m ↦ y j (ground arith) v c
      ]

  Leftmost-window :
      (end pos at next : ℕ) (hs rest : List ℕ)
      → InWindow end pos at hs
      → at ≤ next
      → ((j : ℕ) → at ≤ j → j < next → OccursAt arena j q → j + length q ≤ end)
      → Leftmost next rest
      → Leftmost pos (hs ++ rest)
  Leftmost-window end pos at next [] rest (e, k) le inside l =
      Leftmost-quiet pos next rest (omega arith) (λ j a b o. k j a (inside j (omega arith) b o) o) l
  Leftmost-window end pos at next (h ∷ hs) rest (x, y, o, w) le inside l =
      (x, y, o, Leftmost-window end (h + length q) at next hs rest w le inside l)

  -- ---- a window of the arena

  slice_occurs :
      (a n j : ℕ) → 0 < length q → OccursAt (slice arena a n) j q → OccursAt arena (a + j) q
  slice_occurs a n j ne o i b g =
      let at = o i b g in
      let inside = lt_of_get_elem? (slice arena a n) (j + i) at in
      let short = length-take_le n (drop a arena) in
      let e = get_elem?-slice arena a n (j + i) (omega arith) in
      let same : a + (j + i) ≡ a + j + i = omega arith in
      subst (λ (k : ℕ). get_elem? arena k ≡ some b) same (sym e ∙ at)

  occurs_slice :
      (a n j : ℕ) → j + length q ≤ n → OccursAt arena (a + j) q → OccursAt (slice arena a n) j q
  occurs_slice a n j short o i b g =
      let l = lt_of_get_elem? q i g in
      let e = get_elem?-slice arena a n (j + i) (omega arith) in
      let same : a + j + i ≡ a + (j + i) = omega arith in
      e ∙ subst (λ (k : ℕ). get_elem? arena k ≡ some b) same (o i b g)

  -- An occurrence between `a` and `b` is one in the window of these bytes.
  occurs_window :
      (a b j : ℕ)
      → a ≤ j
      → j + length q ≤ b
      → OccursAt arena j q
      → OccursAt (slice arena a (b - a)) (j - a) q
  occurs_window a b j le fits o =
      let same : j ≡ a + (j - a) = omega arith in
      occurs_slice a (b - a) (j - a) (omega arith) (subst (λ (k : ℕ). OccursAt arena k q) same o)

  fits_window :
      (a b j : ℕ) → 0 < length q → OccursAt (slice arena a (b - a)) j q → j + length q ≤ b - a
  fits_window a b j ne o =
      let inside = occurs_inside (slice arena a (b - a)) j ne o in
      let short = length-take_le (b - a) (drop a arena) in omega arith

  InWindow-le :
      (end pos at : ℕ) (hs : List ℕ)
      → 0 < length q
      → pos ≤ length arena
      → InWindow end pos at hs
      → at ≤ length arena
  InWindow-le end pos at [] ne le (e, k) = omega arith
  InWindow-le end pos at (h ∷ hs) ne le (x, y, o, w) =
      InWindow-le end (h + length q) at hs ne (occurs_inside arena h ne o) w

module _ {S : Type 0} where
  abbrev pub after_hits : (ℕ → S → S) → List ℕ → S → S
  after_hits f [] s = s
  after_hits f (h ∷ hs) s = after_hits f hs (f h s)

  after_hits-append :
      (f : ℕ → S → S) (xs ys : List ℕ) (s : S)
      → after_hits f (xs ++ ys) s ≡ after_hits f ys (after_hits f xs s)
  after_hits-append f [] ys s = refl
  after_hits-append f (x ∷ xs) ys s = after_hits-append f xs ys (f x s)

module _ {S : Type 0} (find : Bytes → Bytes → Option ℕ) (finder : IsFinder find) (q arena : Bytes)
    (ne : 0 < length q) (f : ℕ → S → S) where
  abbrev on_hit : ℕ → S → S × Bool
  on_hit h s = (f h s, false)

  abbrev poll : S → S × Bool
  poll s = (s, false)

  abbrev end_of : ℕ → ℕ
  end_of pos = window_end find q arena on_hit poll pos

  abbrev next_of : ℕ → ℕ → ℕ
  next_of pos at = resume_at find q arena on_hit poll (end_of pos) at

  -- What a window gives: its hits were visited, and it ran to its end.
  abbrev Visits : ℕ → ℕ → S → Pass S → Type 0
  Visits end cursor s r =
      (hs : List ℕ) × (r.state ≡ after_hits f hs s)
      × (r.stopped ≡ false)
      × InWindow q arena end cursor r.at hs

  scan_window-Visits :
      (fuel end cursor : ℕ) (s : S)
      → end - cursor ≤ fuel
      → Visits end cursor s (scan_window find q arena on_hit poll fuel end cursor s)
  unfolding scan_window
  scan_window-Visits zero end cursor s l = ([], refl, refl, (refl, λ j a b o. absurd (omega arith)))
  scan_window-Visits (suc fuel) end cursor s l =
      elim (Option-cases (find q (slice arena cursor (end - cursor)))) [
        | inl e ↦
            rw (e, scan_window)
              (
                [],
                refl,
                refl,
                (
                  refl,
                  λ j a b o.
                      finder.missing q _ (j - cursor) e (occurs_window q arena cursor end j a b o),
                ),
              )
        | inr (rel, e) ↦
            let h = cursor + rel in
            let (hs, state, stop, w) =
              scan_window-Visits fuel end (h + length q) (f h s) (omega arith) in
            let there = finder.found q _ rel e in
            let fits = fits_window q arena cursor end rel ne there in
            let here = slice_occurs q arena cursor (end - cursor) rel ne there in
            let quiet : IsQuiet q arena cursor h = λ j a b o.
              finder.first q _ rel (j - cursor) e (omega arith)
                (occurs_window q arena cursor end j a (omega arith) o) in
            rw (e, scan_window) (h ∷ hs, state, stop, (omega arith, quiet, here, w))
      ]

  -- The next window starts further on, and no occurrence is passed over.
  resume_lem :
      (pos at : ℕ)
      → at ≤ length arena
      → pos + length q ≤ length arena
      → (pos < next_of pos at)
        × (next_of pos at ≤ length arena)
        × (at ≤ next_of pos at)
        × ((j : ℕ) → at ≤ j → j < next_of pos at → OccursAt arena j q → j + length q ≤ end_of pos)
  resume_lem pos at a b = elim (Bool-cases (end_of pos == length arena)) [
    | inl e ↦ rw e (
      omega arith,
      omega arith,
      a,
      λ j x y o. (let inside = occurs_inside q arena arena j ne o in ground arith),
    )
    | inr e ↦ rw e (ground arith, ground arith, omega arith, λ j x y o. omega arith)
  ]

  scan_from-Leftmost :
      (fuel pos : ℕ) (s : S)
      → length arena < pos + fuel
      → pos ≤ length arena
      → (hs : List ℕ) × (scan_from find q arena on_hit poll fuel pos s ≡ after_hits f hs s)
        × Leftmost q arena pos hs
  unfolding scan_from
  scan_from-Leftmost zero pos s a b = absurd (omega arith)
  scan_from-Leftmost (suc fuel) pos s a b =
      elim (Bool-cases (leb (pos + length q) (length arena))) [
        | inr e ↦ rw e ([], refl, no_more_hits q arena pos ne (ground arith))
        | inl e ↦
            let (hs, state, stop, w) =
              scan_window-Visits (length arena) (end_of pos) pos s (omega arith) in
            let window = scan_window find q arena on_hit poll (length arena) (end_of pos) pos s in
            let le = InWindow-le q arena (end_of pos) pos window.at hs ne b w in
            let (further, within, behind, inside) = resume_lem pos window.at le (ground arith) in
            let next = next_of pos window.at in
            let (rest, run, l) = scan_from-Leftmost fuel next window.state (omega arith) within in
            rw (e, stop)
              (
                hs ++ rest,
                run ∙ (ap (after_hits f rest) state ∙ sym (after_hits-append f hs rest s)),
                Leftmost-window q arena (end_of pos) pos window.at next hs rest w behind inside l,
              )
      ]

-- For a finder of first occurrences and a nonempty text: a scan that is never stopped visits exactly the
-- occurrences from the left, each the first one behind the end of the one before.
pub scan_arena-Leftmost :
    {S : Type 0} (find : Bytes → Bytes → Option ℕ) (q arena : Bytes) (f : ℕ → S → S) (s : S)
    → IsFinder find
    → 0 < length q
    → (hs : List ℕ) × (scan_arena find q arena (λ h x. (f h x, false)) (λ x. (x, false)) s
        ≡ after_hits f hs s)
      × Leftmost q arena 0 hs
unfolding scan_arena
scan_arena-Leftmost find q arena f s finder ne =
    scan_from-Leftmost find finder q arena ne f (length arena + 1) 0 s (omega arith) (omega arith)
