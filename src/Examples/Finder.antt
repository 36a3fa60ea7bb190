-- ===== src/Examples/Finder.antt =====
-- A finder of byte strings, which tries every offset from the left.
use yspot.Prelude.{
  ℕ, zero, suc, ◌+◌, ◌<◌, ◌≡◌, refl, sym, ap, ◌∙◌, inl, inr, Bool, true, false, Bool-cases, ◌&&◌,
  [], ◌∷◌, Option, none, some, Bytes, ◌==◌, ==_iff, if◌then◌else◌, get_elem?, arith,
}
use mathlib.Core.Path.{subst}
use yspot.Index.Table.Fenced.Hits.{OccursAt}
use yspot.Matching.Scan.Hits.{IsFinder}

unfoldable pub starts : Bytes → Bytes → Bool
starts [] bs = true
starts (q ∷ qs) [] = false
starts (q ∷ qs) (b ∷ bs) = q == b && starts qs bs

abbrev later : Option ℕ → Option ℕ
later none = none
later (some p) = some (suc p)

unfoldable pub find : Bytes → Bytes → Option ℕ
unfolding starts
find q [] = if starts q [] then some 0 else none
find q (b ∷ bs) = let rest = later (find q bs) in if starts q (b ∷ bs) then some 0 else rest

-- An occurrence further on is one in the rest.
OccursAt-rest : (b : ℕ) (bs q : Bytes) (p : ℕ) → OccursAt (b ∷ bs) (suc p) q → OccursAt bs p q
OccursAt-rest b bs q p o i c g =
    let e : suc p + i ≡ suc (p + i) = omega arith in
    subst (λ (k : ℕ). get_elem? (b ∷ bs) k ≡ some c) e (o i c g)

rest-OccursAt : (b : ℕ) (bs q : Bytes) (p : ℕ) → OccursAt bs p q → OccursAt (b ∷ bs) (suc p) q
rest-OccursAt b bs q p o i c g =
    let e : suc p + i ≡ suc (p + i) = omega arith in
    subst (λ (k : ℕ). get_elem? (b ∷ bs) k ≡ some c) (sym e) (o i c g)

starts-OccursAt : (q bs : Bytes) → starts q bs ≡ true → OccursAt bs 0 q
unfolding starts
starts-OccursAt [] bs h i c g = ground arith
starts-OccursAt (q ∷ qs) [] h i c g = ground arith
starts-OccursAt (q ∷ qs) (b ∷ bs) h zero c g = let e : q ≡ b = ground arith in ap some (sym e) ∙ g
starts-OccursAt (q ∷ qs) (b ∷ bs) h (suc i) c g =
    let e : 0 + suc i ≡ suc (0 + i) = omega arith in
    subst (λ (k : ℕ). get_elem? (b ∷ bs) k ≡ some c) (sym e)
      (starts-OccursAt qs bs (ground arith) i c g)

OccursAt-starts : (q bs : Bytes) → OccursAt bs 0 q → starts q bs ≡ true
unfolding starts
OccursAt-starts [] bs o = refl
OccursAt-starts (q ∷ qs) [] o = (let g = o 0 q refl in ground arith)
OccursAt-starts (q ∷ qs) (b ∷ bs) o =
    let head : some b ≡ some q = o 0 q refl in
    let rest : starts qs bs ≡ true = OccursAt-starts qs bs (λ i c g. tail i c (o (suc i) c g)) in
    let same : q ≡ b = ground arith in let yes = (==_iff q b).1 same in rw (yes, rest) refl
  where
    tail : (i c : ℕ) → get_elem? (b ∷ bs) (0 + suc i) ≡ some c → get_elem? bs (0 + i) ≡ some c
    tail i c h =
        let e : 0 + suc i ≡ suc (0 + i) = omega arith in
        subst (λ (k : ℕ). get_elem? (b ∷ bs) k ≡ some c) e h

later_inv : (o : Option ℕ) (p : ℕ) → later o ≡ some p → (r : ℕ) × (o ≡ some r) × (p ≡ suc r)
later_inv none p h = ground arith
later_inv (some r) p h = (r, refl, ground arith)

later_absent : (o : Option ℕ) → later o ≡ none → o ≡ none
later_absent none h = refl
later_absent (some r) h = ground arith

some_zero :
    (c : Bool) (o : Option ℕ) (p : ℕ) → c ≡ true → (if c then some 0 else o) ≡ some p → p ≡ 0
some_zero true o p e h = ground arith
some_zero false o p e h = ground arith

find-found : (q bs : Bytes) (p : ℕ) → find q bs ≡ some p → OccursAt bs p q
unfolding find
find-found q [] p h = elim (Bool-cases (starts q [])) [
  | inl e ↦
      let z = some_zero (starts q []) none p e h in
      subst (λ (k : ℕ). OccursAt [] k q) (sym z) (starts-OccursAt q [] e)
  | inr e ↦ let no : none ≡ some p = rw e at h in ground arith
]
find-found q (b ∷ bs) p h = elim (Bool-cases (starts q (b ∷ bs))) [
  | inl e ↦
      let z = some_zero (starts q (b ∷ bs)) _ p e h in
      subst (λ (k : ℕ). OccursAt (b ∷ bs) k q) (sym z) (starts-OccursAt q (b ∷ bs) e)
  | inr e ↦
      let (r, k, z) = later_inv (find q bs) p (rw e at h) in
      subst (λ (k : ℕ). OccursAt (b ∷ bs) k q) (sym z)
        (rest-OccursAt b bs q r (find-found q bs r k))
]

find-first : (q bs : Bytes) (p j : ℕ) → find q bs ≡ some p → j < p → OccursAt bs j q → ⊥
unfolding find
find-first q [] p j h l o = elim (Bool-cases (starts q [])) [
  | inl e ↦ let z = some_zero (starts q []) none p e h in absurd (omega arith)
  | inr e ↦ let no : none ≡ some p = rw e at h in ground arith
]
find-first q (b ∷ bs) p zero h l o =
    let e = OccursAt-starts q (b ∷ bs) o in
    let z = some_zero (starts q (b ∷ bs)) _ p e h in absurd (omega arith)
find-first q (b ∷ bs) p (suc j) h l o = elim (Bool-cases (starts q (b ∷ bs))) [
  | inl e ↦ let z = some_zero (starts q (b ∷ bs)) _ p e h in absurd (omega arith)
  | inr e ↦
      let (r, k, z) = later_inv (find q bs) p (rw e at h) in
      find-first q bs r j k (omega arith) (OccursAt-rest b bs q j o)
]

find-missing : (q bs : Bytes) (j : ℕ) → find q bs ≡ none → OccursAt bs j q → ⊥
unfolding find
find-missing [] bs j h o = nowhere bs h
  where
    nowhere : (bs : Bytes) → find [] bs ≡ none → ⊥
    nowhere [] h = ground arith
    nowhere (b ∷ bs) h = ground arith
find-missing (q ∷ qs) [] j h o = (let g = o 0 q refl in ground arith)
find-missing (q ∷ qs) (b ∷ bs) zero h o =
    let e = OccursAt-starts (q ∷ qs) (b ∷ bs) o in
    let no : some 0 ≡ none = rw e at h in ground arith
find-missing (q ∷ qs) (b ∷ bs) (suc j) h o = elim (Bool-cases (starts (q ∷ qs) (b ∷ bs))) [
  | inl e ↦ let no : some 0 ≡ none = rw e at h in ground arith
  | inr e ↦
      find-missing (q ∷ qs) bs j (later_absent (find (q ∷ qs) bs) (rw e at h))
        (OccursAt-rest b bs (q ∷ qs) j o)
]

pub find-IsFinder : IsFinder find
find-IsFinder = record { found = find-found; first = find-first; missing = find-missing }
