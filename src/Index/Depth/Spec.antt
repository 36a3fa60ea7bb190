-- ===== src/Index/Depth/Spec.antt =====
-- The depth that a slot should have: `depth_of`, cut at the greatest that a key holds.
use Prim.Native.Nat.{min}
use yspot.Prelude.{
  ℕ, zero, suc, ◌+◌, ◌≤◌, ◌<◌, ◌≡◌, refl, ap, ◌∙◌, Option, none, some, Option-cases, Bool-cases,
  ◌==◌, inl, inr, get_elem?, length, lt_of_get_elem?, arith,
}
use yspot.Index.Types.{Entry}
use yspot.Index.Table.{Table}
use yspot.Index.Table.Valid.{IsValid}
use yspot.Index.Paths.{parent_slot, other_slot, depth_from, depth_of}

-- The slot of the parent of what a slot holds.
abbrev pub parent : Table → ℕ → Option ℕ
parent t s = parent_slot t s (get_elem? t.entries s)

abbrev pub true_depth : Table → ℕ → ℕ
true_depth t s = min (depth_of t s) 127

module _ (t : Table) where
  depth_from_end : (k s : ℕ) → parent t s ≡ none → depth_from t k s ≡ 0
  unfolding depth_from
  depth_from_end zero s h = refl
  depth_from_end (suc k) s h = rw (depth_from, h) refl

  depth_from_step :
      (k s p : ℕ) → parent t s ≡ some p → depth_from t (suc k) s ≡ suc (depth_from t k p)
  unfolding depth_from
  depth_from_step k s p h = rw (depth_from, h) refl

  -- A walk that is cut earlier is the longer one, cut.
  depth_from_cut : (k m s : ℕ) → k ≤ m → min (depth_from t m s) k ≡ depth_from t k s
  unfolding depth_from
  depth_from_cut zero m s h = omega arith
  depth_from_cut (suc k) zero s h = absurd (omega arith)
  depth_from_cut (suc k) (suc m) s h = elim (Option-cases (parent t s)) [
    | inl e ↦
        let a = depth_from_end (suc k) s e in let b = depth_from_end (suc m) s e in omega arith
    | inr (p, e) ↦
        let ih = depth_from_cut k m p (omega arith) in
        let a = depth_from_step k s p e in let b = depth_from_step m s p e in omega arith
  ]

  depth_of_cut : (k s : ℕ) → k ≤ 512 → min (depth_of t s) k ≡ depth_from t k s
  unfolding depth_of
  depth_of_cut k s h = depth_from_cut k 512 s h

  pub true_depth-end : (s : ℕ) → parent t s ≡ none → true_depth t s ≡ 0
  true_depth-end s h = depth_of_cut 127 s (omega arith) ∙ depth_from_end 127 s h

  pub true_depth-step :
      (s p : ℕ) → parent t s ≡ some p → true_depth t s ≡ min (true_depth t p + 1) 127
  true_depth-step s p h =
      let a = depth_of_cut 127 s (omega arith) in
      let b = depth_from_step 126 s p h in
      let c = depth_from_cut 126 127 p (omega arith) in
      let d = depth_of_cut 127 p (omega arith) in omega arith

  -- Where no walk comes to an end, it is cut.
  closed_depth :
      (P : ℕ → Type 0)
      → ((x : ℕ) → P x → (p : ℕ) × (parent t x ≡ some p) × P p)
      → (k x : ℕ) → P x
      → depth_from t k x ≡ k
  closed_depth P next zero x h = let e = depth_from_cut 0 0 x (omega arith) in omega arith
  closed_depth P next (suc k) x h =
      let (p, e, h') = next x h in depth_from_step k x p e ∙ ap suc (closed_depth P next k p h')

  pub true_depth-closed :
      (P : ℕ → Type 0)
      → ((x : ℕ) → P x → (p : ℕ) × (parent t x ≡ some p) × P p)
      → (x : ℕ) → P x
      → true_depth t x ≡ 127
  true_depth-closed P next x h = depth_of_cut 127 x (omega arith) ∙ closed_depth P next 127 x h

  -- In a valid table a parent is in range.
  pub parent-lt : IsValid t → (s p : ℕ) → parent t s ≡ some p → p < length t.entries
  parent-lt v s p h = by_entry (get_elem? t.entries s) h
    where
      other : (o : Option ℕ) → other_slot s o ≡ some p → o ≡ some p
      other none k = ground arith
      other (some q) k = elim (Bool-cases (q == s)) [
        | inl e ↦ let no : none ≡ some p = rw e at k in ground arith
        | inr e ↦ rw e at k
      ]

      by_entry : (e : Option Entry) → parent_slot t s e ≡ some p → p < length t.entries
      by_entry none k = ground arith
      by_entry (some e) k = elim (Bool-cases (e.parent_frn == e.frn)) [
        | inl b ↦ let no : none ≡ some p = rw b at k in ground arith
        | inr b ↦
            let (pe, pl, q) = v.held e.parent_frn p (other (t.frn_map e.parent_frn) (rw b at k)) in
            lt_of_get_elem? t.entries p pl.0
      ]
