-- ===== src/Calc/Parser/Fuel.antt =====
-- As much fuel as there are tokens, and one, is enough for the parser: more does not change what it answers.
use yspot.Prelude.{
  ℕ, zero, suc, ◌+◌, ◌≤◌, ◌<◌, ◌≡◌, refl, ap, ◌∙◌, inl, inr, Bool, true, false, Bool-cases, not,
  ◌&&◌, List, [], ◌∷◌, Option, none, some, ltb, length, arith,
}
use yspot.Calc.Tokens.{
  Tok, num, plus, minus, star, slash, percent, caret, amp, pipe, xor, shl, shr, tilde, lparen,
  rparen,
}
use yspot.Calc.Parser.{
  F64, Value, Job, expr, climb, Parsed, parsed, failed, unfinished, parse, operand, go_on, applied,
  operator, as_percent, round, prefixed, closed, not_int, apply, infix_bp, is_percent, is_rparen,
  starts_term, hundred,
}

-- A parse came to its end, and what it leaves is within the bound.
abbrev pub Leaves : ℕ → Parsed → Type 0
Leaves n failed = Unit
Leaves n unfinished = ⊥
Leaves n (parsed r rest) = length rest ≤ n

-- A parser that comes to its end on at most `n` tokens, and leaves no more than it is given.
abbrev Shrinks : ℕ → (Job → List Tok → Parsed) → Type 0
Shrinks n rec = (j : Job) (ts : List Tok) → length ts ≤ n → Leaves (length ts) (rec j ts)

-- Two parsers that agree on at most `n` tokens.
abbrev Agree : ℕ → (Job → List Tok → Parsed) → (Job → List Tok → Parsed) → Type 0
Agree n rec other = (j : Job) (ts : List Tok) → length ts ≤ n → rec j ts ≡ other j ts

Leaves-le : (n m : ℕ) (p : Parsed) → n ≤ m → Leaves n p → Leaves m p
Leaves-le n m failed h l = tt
Leaves-le n m unfinished h l = l
Leaves-le n m (parsed r rest) h l = omega arith

Leaves-branch :
    (n : ℕ) (c : Bool) (p q : Parsed)
    → Leaves n p
    → Leaves n q
    → Leaves n (elim c [ true ↦ p | false ↦ q ])
Leaves-branch n true p q a b = a
Leaves-branch n false p q a b = b

module _ (f : F64) where
  Leaves-prefixed : (g : ℕ → Option ℕ) (n : ℕ) (p : Parsed) → Leaves n p → Leaves n (prefixed f g p)
  Leaves-prefixed g n failed l = tt
  Leaves-prefixed g n unfinished l = l
  Leaves-prefixed g n (parsed r rest) l = at (g r.v)
    where
      at :
          (o : Option ℕ)
          → Leaves n
              (elim o [ none ↦ failed | some v ↦ parsed (record { v = v; percent = false }) rest ])
      at none = tt
      at (some v) = l

  Leaves-closed : (n : ℕ) (p : Parsed) → Leaves n p → Leaves n (closed f p)
  Leaves-closed n failed l = tt
  Leaves-closed n unfinished l = l
  Leaves-closed n (parsed r []) l = tt
  Leaves-closed n (parsed r (t ∷ rest)) l = elim (Bool-cases (is_rparen t)) [
    | inl e ↦ rw e (omega arith)
    | inr e ↦ rw e tt
  ]

  Leaves-applied :
      (t : Tok) (lhs : Value) (n : ℕ) (p : Parsed) → Leaves n p → Leaves n (applied f t lhs p)
  Leaves-applied t lhs n failed l = tt
  Leaves-applied t lhs n unfinished l = l
  Leaves-applied t lhs n (parsed rhs rest) l = at (apply f t lhs.v rhs.v rhs.percent)
    where
      at :
          (o : Option ℕ)
          → Leaves n
              (elim o [ none ↦ failed | some v ↦ parsed (record { v = v; percent = false }) rest ])
      at none = tt
      at (some v) = l

  module _ (n : ℕ) (rec : Job → List Tok → Parsed) (shrinks : Shrinks n rec) where
    Leaves-go_on :
        (min_bp m : ℕ) (p : Parsed) → m ≤ n → Leaves m p → Leaves m (go_on f rec min_bp p)
    Leaves-go_on min_bp m failed h l = tt
    Leaves-go_on min_bp m unfinished h l = l
    Leaves-go_on min_bp m (parsed lhs rest) h l =
        Leaves-le (length rest) m (rec (climb min_bp lhs) rest) l
          (shrinks (climb min_bp lhs) rest (omega arith))

    Leaves-operand :
        (t : Tok) (ts : List Tok) → length ts ≤ n → Leaves (length ts) (operand f rec t ts)
    Leaves-operand (num v) ts h = omega arith
    Leaves-operand plus ts h =
        Leaves-prefixed (λ v. some v) (length ts) (rec (expr 13) ts) (shrinks (expr 13) ts h)
    Leaves-operand minus ts h =
        Leaves-prefixed (λ v. some (f.neg v)) (length ts) (rec (expr 13) ts)
          (shrinks (expr 13) ts h)
    Leaves-operand tilde ts h =
        Leaves-prefixed (not_int f) (length ts) (rec (expr 13) ts) (shrinks (expr 13) ts h)
    Leaves-operand lparen ts h = Leaves-closed (length ts) (rec (expr 0) ts) (shrinks (expr 0) ts h)
    Leaves-operand star ts h = tt
    Leaves-operand slash ts h = tt
    Leaves-operand percent ts h = tt
    Leaves-operand caret ts h = tt
    Leaves-operand amp ts h = tt
    Leaves-operand pipe ts h = tt
    Leaves-operand xor ts h = tt
    Leaves-operand shl ts h = tt
    Leaves-operand shr ts h = tt
    Leaves-operand rparen ts h = tt

    Leaves-operator :
        (min_bp : ℕ) (lhs : Value) (t : Tok) (ts : List Tok) (o : Option (ℕ × ℕ))
        → length ts ≤ n
        → Leaves (length (t ∷ ts)) (operator f rec min_bp lhs t ts o)
    Leaves-operator min_bp lhs t ts none h = omega arith
    Leaves-operator min_bp lhs t ts (some (lbp, rbp)) h =
        let rhs = applied f t lhs (rec (expr rbp) ts) in
        let le = Leaves-applied t lhs (length ts) (rec (expr rbp) ts) (shrinks (expr rbp) ts h) in
        Leaves-branch (length (t ∷ ts)) (ltb lbp min_bp) (parsed lhs (t ∷ ts))
          (go_on f rec min_bp rhs) (omega arith)
          (Leaves-le (length ts) (length (t ∷ ts)) (go_on f rec min_bp rhs) (omega arith)
            (Leaves-go_on min_bp (length ts) rhs h le))

    Leaves-as_percent :
        (min_bp : ℕ) (lhs : Value) (t : Tok) (ts : List Tok)
        → length ts ≤ n
        → Leaves (length (t ∷ ts)) (as_percent f rec min_bp lhs t ts)
    Leaves-as_percent min_bp lhs t ts h =
        let job = climb min_bp (record { v = f.div lhs.v hundred; percent = true }) in
        Leaves-branch (length (t ∷ ts)) (ltb 12 min_bp) (parsed lhs (t ∷ ts)) (rec job ts)
          (omega arith)
          (Leaves-le (length ts) (length (t ∷ ts)) (rec job ts) (omega arith) (shrinks job ts h))

    Leaves-round :
        (j : Job) (ts : List Tok) → length ts ≤ suc n → Leaves (length ts) (round f rec j ts)
    Leaves-round (expr min_bp) [] h = tt
    Leaves-round (expr min_bp) (t ∷ ts) h =
        Leaves-le (length ts) (length (t ∷ ts)) _ (omega arith) (
          Leaves-go_on min_bp (length ts) (operand f rec t ts) (omega arith)
            (Leaves-operand t ts (omega arith)))
    Leaves-round (climb min_bp lhs) [] h = omega arith
    Leaves-round (climb min_bp lhs) (t ∷ ts) h =
        Leaves-branch (length (t ∷ ts)) (is_percent t && not (starts_term ts))
          (as_percent f rec min_bp lhs t ts) (operator f rec min_bp lhs t ts (infix_bp t))
          (Leaves-as_percent min_bp lhs t ts (omega arith))
          (Leaves-operator min_bp lhs t ts (infix_bp t) (omega arith))

  none_shrinks : (fuel : ℕ) (j : Job) → Leaves 0 (parse f (suc fuel) j [])
  unfolding parse
  none_shrinks fuel (expr min_bp) = tt
  none_shrinks fuel (climb min_bp lhs) = omega arith

  parse-Shrinks : (fuel n : ℕ) → n < fuel → Shrinks n (λ j ts. parse f fuel j ts)
  unfolding parse
  parse-Shrinks zero n a j ts h = absurd (omega arith)
  parse-Shrinks (suc fuel) zero a j [] h = none_shrinks fuel j
  parse-Shrinks (suc fuel) zero a j (t ∷ ts) h = absurd (omega arith)
  parse-Shrinks (suc fuel) (suc n) a j ts h =
      Leaves-round n (λ j ts. parse f fuel j ts) (parse-Shrinks fuel n (omega arith)) j ts h

  module _ (n : ℕ) (rec other : Job → List Tok → Parsed) (shrinks : Shrinks n rec)
      (agree : Agree n rec other) where
    go_on-Agree :
        (min_bp : ℕ) (p q : Parsed)
        → p ≡ q
        → Leaves n p
        → go_on f rec min_bp p ≡ go_on f other min_bp q
    go_on-Agree min_bp p q e l = at p l ∙ ap (go_on f other min_bp) e
      where
        at : (p : Parsed) → Leaves n p → go_on f rec min_bp p ≡ go_on f other min_bp p
        at failed l = refl
        at unfinished l = absurd l
        at (parsed lhs rest) l = agree (climb min_bp lhs) rest l

    operand-Agree :
        (t : Tok) (ts : List Tok) → length ts ≤ n → operand f rec t ts ≡ operand f other t ts
    operand-Agree (num v) ts h = refl
    operand-Agree plus ts h = ap (prefixed f (λ v. some v)) (agree (expr 13) ts h)
    operand-Agree minus ts h = ap (prefixed f (λ v. some (f.neg v))) (agree (expr 13) ts h)
    operand-Agree tilde ts h = ap (prefixed f (not_int f)) (agree (expr 13) ts h)
    operand-Agree lparen ts h = ap (closed f) (agree (expr 0) ts h)
    operand-Agree star ts h = refl
    operand-Agree slash ts h = refl
    operand-Agree percent ts h = refl
    operand-Agree caret ts h = refl
    operand-Agree amp ts h = refl
    operand-Agree pipe ts h = refl
    operand-Agree xor ts h = refl
    operand-Agree shl ts h = refl
    operand-Agree shr ts h = refl
    operand-Agree rparen ts h = refl

    operator-Agree :
        (min_bp : ℕ) (lhs : Value) (t : Tok) (ts : List Tok) (o : Option (ℕ × ℕ))
        → length ts ≤ n
        → operator f rec min_bp lhs t ts o ≡ operator f other min_bp lhs t ts o
    operator-Agree min_bp lhs t ts none h = refl
    operator-Agree min_bp lhs t ts (some (lbp, rbp)) h =
        let one = rec (expr rbp) ts in
        let le = Leaves-applied t lhs (length ts) one (shrinks (expr rbp) ts h) in
        let same =
          go_on-Agree min_bp (applied f t lhs one) (applied f t lhs (other (expr rbp) ts))
            (ap (applied f t lhs) (agree (expr rbp) ts h))
            (Leaves-le (length ts) n (applied f t lhs one) h le) in
        ap (λ (p : Parsed). elim (ltb lbp min_bp) [ true ↦ parsed lhs (t ∷ ts) | false ↦ p ]) same

    round-Agree :
        (j : Job) (ts : List Tok) → length ts ≤ suc n → round f rec j ts ≡ round f other j ts
    round-Agree (expr min_bp) [] h = refl
    round-Agree (expr min_bp) (t ∷ ts) h =
        go_on-Agree min_bp (operand f rec t ts) (operand f other t ts)
          (operand-Agree t ts (omega arith))
          (Leaves-le (length ts) n (operand f rec t ts) (omega arith)
            (Leaves-operand n rec shrinks t ts (omega arith)))
    round-Agree (climb min_bp lhs) [] h = refl
    round-Agree (climb min_bp lhs) (t ∷ ts) h =
        let job = climb min_bp (record { v = f.div lhs.v hundred; percent = true }) in
        let share : as_percent f rec min_bp lhs t ts ≡ as_percent f other min_bp lhs t ts =
          ap (λ (p : Parsed). elim (ltb 12 min_bp) [ true ↦ parsed lhs (t ∷ ts) | false ↦ p ])
            (agree job ts (omega arith)) in
        let same = operator-Agree min_bp lhs t ts (infix_bp t) (omega arith) in
        ap
          (λ (p : Parsed). elim (is_percent t && not (starts_term ts)) [
            | true ↦ p
            | false ↦ operator f rec min_bp lhs t ts (infix_bp t)
          ])
          share
        ∙ ap
            (λ (p : Parsed). elim (is_percent t && not (starts_term ts)) [
              | true ↦ as_percent f other min_bp lhs t ts
              | false ↦ p
            ])
            same

  none_left : (fuel more : ℕ) (j : Job) → parse f (suc fuel) j [] ≡ parse f (suc more) j []
  unfolding parse
  none_left fuel more (expr min_bp) = refl
  none_left fuel more (climb min_bp lhs) = refl

  -- A parse with more fuel than there are tokens answers the same whatever the fuel.
  parse-Agree :
      (fuel more n : ℕ)
      → n < fuel
      → n < more
      → Agree n (λ j ts. parse f fuel j ts) (λ j ts. parse f more j ts)
  unfolding parse
  parse-Agree zero more n a b j ts h = absurd (omega arith)
  parse-Agree (suc fuel) zero n a b j ts h = absurd (omega arith)
  parse-Agree (suc fuel) (suc more) zero a b j [] h = none_left fuel more j
  parse-Agree (suc fuel) (suc more) zero a b j (t ∷ ts) h = absurd (omega arith)
  parse-Agree (suc fuel) (suc more) (suc n) a b j ts h =
      round-Agree n (λ j ts. parse f fuel j ts) (λ j ts. parse f more j ts)
        (parse-Shrinks fuel n (omega arith)) (parse-Agree fuel more n (omega arith) (omega arith)) j
        ts h

-- On more fuel than there are tokens a parse comes to its end, with a value or a failure; what it leaves is no longer
-- than what it was given, and more fuel does not change what it answers.
pub parse-ends :
    (f : F64) (fuel : ℕ) (j : Job) (ts : List Tok)
    → length ts < fuel
    → Leaves (length ts) (parse f fuel j ts) × (parse f fuel j ts ≡ parse f (length ts + 1) j ts)
parse-ends f fuel j ts h = (
  parse-Shrinks f fuel (length ts) h j ts (omega arith),
  parse-Agree f fuel (length ts + 1) (length ts) h (omega arith) j ts (omega arith),
)
