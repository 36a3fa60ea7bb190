-- ===== src/Matching/Fuzzy/Density.antt =====
-- The span of a fuzzy match, and the cut that keeps the candidates within the cap.
use Prim.Native.Nat.{◌-◌, min}
use yspot.Prelude.{
  ℕ, zero, suc, ◌+◌, ◌≤◌, ◌<◌, ◌≡◌, refl, sym, ap, ◌∙◌, ◌⊎◌, inl, inr, ◌↔◌, false, Bool-cases, List,
  [], ◌∷◌, Option, none, some, leb, leb→le, ◌==◌, length, take, get_or, length-take_le, arith,
}
use mathlib.Core.Path.{subst}
use yspot.Matching.Fuzzy.{
  forward_end, backward_start, rev, span_to, fuzzy_span, fuzzy_cap, cut_from, fuzzy_cap_cut, sum,
}

-- The characters of the first stand in the second, in order.
abbrev pub IsSubseq : List ℕ → List ℕ → Type 0
IsSubseq [] cs = Unit
IsSubseq (q ∷ qs) [] = ⊥
IsSubseq (q ∷ qs) (c ∷ cs) = ((c ≡ q) × IsSubseq qs cs) ⊎ IsSubseq (q ∷ qs) cs

abbrev pub IsNonempty : List ℕ → Type 0
IsNonempty q = 0 < length q

IsSubseq-weaken : (c : ℕ) (q cs : List ℕ) → IsSubseq q cs → IsSubseq q (c ∷ cs)
IsSubseq-weaken c [] cs h = tt
IsSubseq-weaken c (q ∷ qs) cs h = inr h

IsSubseq-tail : (q : ℕ) (qs cs : List ℕ) → IsSubseq (q ∷ qs) cs → IsSubseq qs cs
IsSubseq-tail q qs [] h = elim h [ ]
IsSubseq-tail q qs (c ∷ cs) (inl (e, h)) = IsSubseq-weaken c qs cs h
IsSubseq-tail q qs (c ∷ cs) (inr h) = IsSubseq-weaken c qs cs (IsSubseq-tail q qs cs h)

-- Where the first characters agree, the rest is a subsequence of the rest.
IsSubseq-rest : (q c : ℕ) (qs cs : List ℕ) → IsSubseq (q ∷ qs) (c ∷ cs) → IsSubseq qs cs
IsSubseq-rest q c qs cs (inl (e, h)) = h
IsSubseq-rest q c qs cs (inr h) = IsSubseq-tail q qs cs h

IsSubseq-miss :
    (q c : ℕ) (qs cs : List ℕ)
    → (c == q) ≡ false
    → IsSubseq (q ∷ qs) (c ∷ cs)
    → IsSubseq (q ∷ qs) cs
IsSubseq-miss q c qs cs e (inl (p, h)) = ground arith
IsSubseq-miss q c qs cs e (inr h) = h

IsSubseq-rev :
    (q cs q' cs' : List ℕ) → IsSubseq q cs → IsSubseq q' cs' → IsSubseq (rev q q') (rev cs cs')
IsSubseq-rev [] [] q' cs' h k = k
IsSubseq-rev [] (c ∷ cs) q' cs' h k =
    IsSubseq-rev [] cs q' (c ∷ cs') tt (IsSubseq-weaken c q' cs' k)
IsSubseq-rev (q ∷ qs) [] q' cs' h k = elim h [ ]
IsSubseq-rev (q ∷ qs) (c ∷ cs) q' cs' (inl (e, h)) k =
    IsSubseq-rev qs cs (q ∷ q') (c ∷ cs') h (inl (e, k))
IsSubseq-rev (q ∷ qs) (c ∷ cs) q' cs' (inr h) k =
    IsSubseq-rev (q ∷ qs) cs q' (c ∷ cs') h (IsSubseq-weaken c q' cs' k)

length-rev : (q acc : List ℕ) → length (rev q acc) ≡ length q + length acc
length-rev [] acc = omega arith
length-rev (x ∷ q) acc = let ih = length-rev q (x ∷ acc) in omega arith

-- What is known of the end of the earliest match.
abbrev EndsAt : List ℕ → List ℕ → ℕ → ℕ → Type 0
EndsAt q cs ci end = (ci ≤ end) × (end < ci + length cs) × IsSubseq q (take (end + 1 - ci) cs)

EndsAt-here : (q c ci : ℕ) (cs : List ℕ) → c ≡ q → EndsAt (q ∷ []) (c ∷ cs) ci ci
EndsAt-here q c ci cs e =
    let one : ci + 1 - ci ≡ 1 = omega arith in (omega arith, omega arith, rw one (inl (e, tt)))

EndsAt-step :
    (q c ci end : ℕ) (qs qs' cs : List ℕ)
    → EndsAt qs' cs (ci + 1) end
    → ((xs : List ℕ) → IsSubseq qs' xs → IsSubseq (q ∷ qs) (c ∷ xs))
    → EndsAt (q ∷ qs) (c ∷ cs) ci end
EndsAt-step q c ci end qs qs' cs (a, b, h) f =
    let more : end + 1 - ci ≡ suc (end + 1 - (ci + 1)) = omega arith in
    (omega arith, omega arith, rw more (f (take (end + 1 - (ci + 1)) cs) h))

forward_end_lem :
    (q : ℕ) (qs cs : List ℕ) (ci : ℕ)
    → IsSubseq (q ∷ qs) cs
    → (end : ℕ) × (forward_end (q ∷ qs) cs ci ≡ some end) × EndsAt (q ∷ qs) cs ci end
unfolding forward_end
forward_end_lem q qs [] ci h = elim h [ ]
forward_end_lem q [] (c ∷ cs) ci h = elim (Bool-cases (c == q)) [
  | inl e ↦ rw e (ci, refl, EndsAt-here q c ci cs (ground arith))
  | inr e ↦
      let (end, r, at) = forward_end_lem q [] cs (ci + 1) (IsSubseq-miss q c [] cs e h) in
      rw e (end, r, EndsAt-step q c ci end [] (q ∷ []) cs at (λ xs k. inr k))
]
forward_end_lem q (q' ∷ qs) (c ∷ cs) ci h = elim (Bool-cases (c == q)) [
  | inl e ↦
      let (end, r, at) = forward_end_lem q' qs cs (ci + 1) (IsSubseq-rest q c (q' ∷ qs) cs h) in
      let same : c ≡ q = ground arith in
      rw e (end, r, EndsAt-step q c ci end (q' ∷ qs) (q' ∷ qs) cs at (λ xs k. inl (same, k)))
  | inr e ↦
      let (end, r, at) =
        forward_end_lem q (q' ∷ qs) cs (ci + 1) (IsSubseq-miss q c (q' ∷ qs) cs e h) in
      rw e (end, r, EndsAt-step q c ci end (q' ∷ qs) (q ∷ q' ∷ qs) cs at (λ xs k. inr k))
]

forward_end-IsSubseq :
    (q : ℕ) (qs cs : List ℕ) (ci end : ℕ)
    → forward_end (q ∷ qs) cs ci ≡ some end
    → IsSubseq (q ∷ qs) cs
unfolding forward_end
forward_end-IsSubseq q qs [] ci end h = ground arith
forward_end-IsSubseq q [] (c ∷ cs) ci end h = elim (Bool-cases (c == q)) [
  | inl e ↦ inl (ground arith, tt)
  | inr e ↦ inr (forward_end-IsSubseq q [] cs (ci + 1) end (rw e at h))
]
forward_end-IsSubseq q (q' ∷ qs) (c ∷ cs) ci end h = elim (Bool-cases (c == q)) [
  | inl e ↦ inl (ground arith, forward_end-IsSubseq q' qs cs (ci + 1) end (rw e at h))
  | inr e ↦ inr (forward_end-IsSubseq q (q' ∷ qs) cs (ci + 1) end (rw e at h))
]

-- The walk goes on at the index below.
at_index :
    (q cs : List ℕ) (idx start bound n : ℕ)
    → backward_start q cs idx start + n ≤ bound + 1
    → backward_start q cs (suc idx - 1) start + n ≤ bound + 1
at_index q cs idx start bound n h =
    let same : idx ≡ suc idx - 1 = omega arith in
    subst (λ (i : ℕ). backward_start q cs i start + n ≤ bound + 1) same h

-- The walk back passes a character for each of the query.
backward_start-le :
    (q : ℕ) (qs cs : List ℕ) (idx start : ℕ)
    → IsSubseq (q ∷ qs) cs
    → length cs ≤ idx + 1
    → backward_start (q ∷ qs) cs idx start + length (q ∷ qs) ≤ idx + 1
unfolding backward_start
backward_start-le q qs [] idx start h l = elim h [ ]
backward_start-le q qs (c ∷ cs) zero start h l = elim (Bool-cases (c == q)) [
  | inl e ↦ rw e (none_left qs cs (IsSubseq-rest q c qs cs h) (omega arith))
  | inr e ↦ absurd (no_more q qs cs (omega arith) (IsSubseq-miss q c qs cs e h))
]
  where
    no_more : (q : ℕ) (qs cs : List ℕ) → length cs ≤ 0 → IsSubseq (q ∷ qs) cs → ⊥
    no_more q qs [] l h = h
    no_more q qs (c ∷ cs) l h = absurd (omega arith)

    none_left :
        (qs cs : List ℕ)
        → IsSubseq qs cs
        → length cs ≤ 0
        → backward_start qs cs 0 0 + suc (length qs) ≤ 1
    none_left [] cs h l = omega arith
    none_left (q ∷ qs) cs h l = absurd (no_more q qs cs l h)
backward_start-le q [] (c ∷ cs) (suc idx) start h l = elim (Bool-cases (c == q)) [
  | inl e ↦ rw e (omega arith)
  | inr e ↦
      let ih = backward_start-le q [] cs idx start (IsSubseq-miss q c [] cs e h) (omega arith) in
      rw e (at_index (q ∷ []) cs idx start (suc idx) 1 (omega arith))
]
backward_start-le q (q' ∷ qs) (c ∷ cs) (suc idx) start h l = elim (Bool-cases (c == q)) [
  | inl e ↦
      let rest = IsSubseq-rest q c (q' ∷ qs) cs h in
      let ih = backward_start-le q' qs cs idx (suc idx) rest (omega arith) in
      rw e (at_index (q' ∷ qs) cs idx (suc idx) (suc idx) (length (q ∷ q' ∷ qs)) (omega arith))
  | inr e ↦
      let rest = IsSubseq-miss q c (q' ∷ qs) cs e h in
      let ih = backward_start-le q (q' ∷ qs) cs idx start rest (omega arith) in
      rw e (at_index (q ∷ q' ∷ qs) cs idx start (suc idx) (length (q ∷ q' ∷ qs)) (omega arith))
]

rev-cons : (q : ℕ) (qs acc : List ℕ) → (r : ℕ) × (rs : List ℕ) × (rev (q ∷ qs) acc ≡ r ∷ rs)
rev-cons q [] acc = (q, acc, refl)
rev-cons q (q' ∷ qs) acc = rev-cons q' qs (q ∷ acc)

-- The walk back over what is before the end, both reversed.
backward_start-rev :
    (q : ℕ) (qs p : List ℕ) (end : ℕ)
    → IsSubseq (q ∷ qs) p
    → length p ≤ end + 1
    → backward_start (rev (q ∷ qs) []) (rev p []) end end + length (q ∷ qs) ≤ end + 1
backward_start-rev q qs p end h l =
    let (r, rs, e) = rev-cons q qs [] in
    let h' : IsSubseq (r ∷ rs) (rev p []) =
      subst (λ (x : List ℕ). IsSubseq x (rev p [])) e (IsSubseq-rev (q ∷ qs) p [] [] h tt) in
    let size : length (r ∷ rs) ≡ length (q ∷ qs) =
      ap length (sym e) ∙ (length-rev (q ∷ qs) [] ∙ omega arith) in
    let short = length-rev p [] in
    let le = backward_start-le r rs (rev p []) end end h' (omega arith) in
    subst (λ (x : List ℕ). backward_start x (rev p []) end end + length (q ∷ qs) ≤ end + 1) (sym e)
      (omega arith)

-- For a nonempty query: a name has a span exactly where the query is a subsequence of it, and the span
-- is at least as long as the query and at most as long as the name.
pub fuzzy_span-IsSubseq :
    (q : ℕ) (qs cs : List ℕ)
    → (((span : ℕ) × (fuzzy_span cs (q ∷ qs) ≡ some span)) ↔ IsSubseq (q ∷ qs) cs)
      × ((span : ℕ)
          → fuzzy_span cs (q ∷ qs) ≡ some span
          → (length (q ∷ qs) ≤ span) × (span ≤ length cs))
unfolding fuzzy_span
fuzzy_span-IsSubseq q qs cs = (
  (found_of_span, λ h. (let (end, e, at) = forward_end_lem q qs cs 0 h in rw e (_, refl))),
  bounded,
)
  where
    found_of_some :
        (r : Option ℕ)
        → forward_end (q ∷ qs) cs 0 ≡ r
        → (span : ℕ) → span_to cs (q ∷ qs) r ≡ some span
        → IsSubseq (q ∷ qs) cs
    found_of_some none e span h = ground arith
    found_of_some (some end) e span h = forward_end-IsSubseq q qs cs 0 end e

    found_of_span :
        (span : ℕ) × (span_to cs (q ∷ qs) (forward_end (q ∷ qs) cs 0) ≡ some span)
        → IsSubseq (q ∷ qs) cs
    found_of_span (span, h) = found_of_some (forward_end (q ∷ qs) cs 0) refl span h

    bounded :
        (span : ℕ)
        → span_to cs (q ∷ qs) (forward_end (q ∷ qs) cs 0) ≡ some span
        → (length (q ∷ qs) ≤ span) × (span ≤ length cs)
    bounded span h =
        let (end, e, (_, below, part)) = forward_end_lem q qs cs 0 (found_of_span (span, h)) in
        let whole : end + 1 - 0 ≡ end + 1 = omega arith in
        let pre = subst (λ (n : ℕ). IsSubseq (q ∷ qs) (take n cs)) whole part in
        let le =
          backward_start-rev q qs (take (end + 1) cs) end pre (length-take_le (end + 1) cs) in
        let h' : span_to cs (q ∷ qs) (some end) ≡ some span = rw e at h in
        let start = backward_start (rev (q ∷ qs) []) (rev (take (end + 1) cs) []) end end in
        let size : end - start + 1 ≡ span = ground arith in (omega arith, omega arith)

-- ---- the cut

-- Where the counts reach the cap: what is above the depth `k` stays below the cap.
cut_from_lem :
    (d acc : ℕ) (ns : List ℕ)
    → acc < fuzzy_cap
    → fuzzy_cap ≤ acc + sum ns
    → (k : ℕ) × (cut_from d acc ns ≡ (d + k, fuzzy_cap - (acc + sum (take k ns))))
      × (acc + sum (take k ns) < fuzzy_cap)
      × (fuzzy_cap ≤ acc + sum (take k ns) + get_or ns k 0)
unfolding cut_from
cut_from_lem d acc [] a b = absurd (omega arith)
cut_from_lem d acc (n ∷ ns) a b = elim (Bool-cases (leb fuzzy_cap (acc + n))) [
  | inl e ↦
      let here : acc + sum (take 0 ns) ≡ acc = omega arith in
      let at : d + 0 ≡ d = omega arith in (0, rw (e, here, at) refl, omega arith, ground arith)
  | inr e ↦
      let (k, r, lo, hi) = cut_from_lem (d + 1) (acc + n) ns (ground arith) (omega arith) in
      let at : d + 1 + k ≡ d + suc k = omega arith in
      let above : acc + n + sum (take k ns) ≡ acc + (n + sum (take k ns)) = omega arith in
      (suc k, rw e (rw (at, above) at r), omega arith, omega arith)
]

sum-take : (k : ℕ) (ns : List ℕ) → length ns ≡ suc k → sum (take k ns) + get_or ns k 0 ≡ sum ns
sum-take k [] h = absurd (omega arith)
sum-take zero (n ∷ []) h = omega arith
sum-take zero (n ∷ m ∷ ns) h = absurd (omega arith)
sum-take (suc k) (n ∷ ns) h = let ih = sum-take k ns (omega arith) in omega arith

-- How many candidates the cut keeps: all above its depth, and its quota at it.
abbrev pub retained : List ℕ → ℕ × ℕ → ℕ
retained by_depth (cut, quota) = sum (take cut by_depth) + min (get_or by_depth cut 0) quota

retained-cut_from : (ns : List ℕ) → fuzzy_cap ≤ sum ns → retained ns (cut_from 0 0 ns) ≡ fuzzy_cap
retained-cut_from ns h = at (cut_from_lem 0 0 ns (omega arith) (omega arith))
  where
    at :
        (k : ℕ) × (cut_from 0 0 ns ≡ (0 + k, fuzzy_cap - (0 + sum (take k ns))))
          × (0 + sum (take k ns) < fuzzy_cap)
          × (fuzzy_cap ≤ 0 + sum (take k ns) + get_or ns k 0)
        → retained ns (cut_from 0 0 ns) ≡ fuzzy_cap
    at (k, r, lo, hi) = let same : 0 + k ≡ k = omega arith in rw r (rw same (omega arith))

-- Where the 128 counts sum to the candidates, the cut keeps them all up to the cap, and else as many
-- as the cap allows.
pub fuzzy_cap_cut-retained :
    (by_depth : List ℕ)
    → length by_depth ≡ 128
    → retained by_depth (fuzzy_cap_cut by_depth (sum by_depth)) ≡ min (sum by_depth) fuzzy_cap
unfolding fuzzy_cap_cut
fuzzy_cap_cut-retained by_depth h = elim (Bool-cases (leb (sum by_depth) fuzzy_cap)) [
  | inl e ↦
      let all = sum-take 127 by_depth h in rw e (omega (arith, leb→le (sum by_depth) fuzzy_cap e))
  | inr e ↦
      let more : fuzzy_cap < sum by_depth = ground arith in
      let whole = retained-cut_from by_depth (omega arith) in rw e (omega arith)
]
