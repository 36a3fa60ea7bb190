-- ===== src/Calc/Parser.antt =====
-- The parser of expressions: apps/shell/src-tauri/src/calc.rs (`Parser::expr`, `infix_bp`, `apply`, `to_int`). An `f64`
-- is its bits and its arithmetic a parameter; an `i64` is its 64 bits, in two's complement. The tokens are those
-- that are left. The loop of `expr` and its calls of itself are the two jobs of one function on fuel.
pub mod Fuel
use Prim.Native.Nat.{◌-◌, bit_and, bit_or, bit_xor}
use yspot.Prelude.{
  ℕ, zero, suc, ◌+◌, ◌*◌, ◌/◌, ◌^◌, Bool, true, false, not, ◌&&◌, List, [], ◌∷◌, Option, none, some,
  ltb, leb, ◌==◌, if◌then◌else◌, length, ◌>>=◌,
}
use yspot.Calc.Tokens.{
  Tok, num, plus, minus, star, slash, percent, caret, amp, pipe, xor, shl, shr, tilde, lparen,
  rparen,
}

pub record F64 : Type 0 where
  pub neg : ℕ → ℕ
  pub add : ℕ → ℕ → ℕ
  pub sub : ℕ → ℕ → ℕ
  pub mul : ℕ → ℕ → ℕ
  pub div : ℕ → ℕ → ℕ
  pub rem : ℕ → ℕ → ℕ
  pub powf : ℕ → ℕ → ℕ
  -- The value as an `i64`, if it is whole and smaller than 2 ^ 53.
  pub to_int : ℕ → Option ℕ
  pub of_int : ℕ → ℕ
  pub is_finite : ℕ → Bool

abbrev hundred : ℕ
hundred = 0x4059000000000000

pub record Value : Type 0 where
  pub v : ℕ
  pub percent : Bool

abbrev pub plain : ℕ → Value
plain v = record { v = v; percent = false }

abbrev pub infix_bp : Tok → Option (ℕ × ℕ)
infix_bp pipe = some (1, 2)
infix_bp xor = some (3, 4)
infix_bp amp = some (5, 6)
infix_bp shl = some (7, 8)
infix_bp shr = some (7, 8)
infix_bp plus = some (9, 10)
infix_bp minus = some (9, 10)
infix_bp star = some (11, 12)
infix_bp slash = some (11, 12)
infix_bp percent = some (11, 12)
infix_bp caret = some (16, 15)
infix_bp _ = none

-- `starts_term`
abbrev pub starts_term : List Tok → Bool
starts_term [] = false
starts_term (num _ ∷ _) = true
starts_term (lparen ∷ _) = true
starts_term (minus ∷ _) = true
starts_term (plus ∷ _) = true
starts_term (tilde ∷ _) = true
starts_term _ = false

abbrev pub is_percent : Tok → Bool
is_percent percent = true
is_percent _ = false

abbrev pub is_rparen : Tok → Bool
is_rparen rparen = true
is_rparen _ = false

abbrev word : ℕ
word = 2 ^ 64

-- `checked_shl` and `checked_shr`, for a shift that is a `u32`.
abbrev checked_shl : ℕ → ℕ → Option ℕ
checked_shl a k = if ltb k 64 then some (yspot.Prelude.◌%◌ (a * 2 ^ k) word) else none

abbrev checked_shr : ℕ → ℕ → Option ℕ
checked_shr a k =
    let sign = if leb (2 ^ 63) a then word - 2 ^ (64 - k) else 0 in
    if ltb k 64 then some (a / 2 ^ k + sign) else none

abbrev as_u32 : ℕ → Option ℕ
as_u32 a = if ltb a (2 ^ 32) then some a else none

-- What is to be parsed: an expression, or what may follow `lhs`, of operators that bind by `min_bp` or more.
pub data Job : Type 0 where
  expr : ℕ → Job
  climb : ℕ → Value → Job

-- What a parse gives: a value and what is left, a failure, or that it did not come to its end.
pub data Parsed : Type 0 where
  parsed : Value → List Tok → Parsed
  failed unfinished : Parsed

module _ (f : F64) where
  abbrev on_ints : (ℕ → ℕ → ℕ) → ℕ → ℕ → Option ℕ
  on_ints g a b = do x ← f.to_int a; y ← f.to_int b; some (f.of_int (g x y))

  abbrev on_shift : (ℕ → ℕ → Option ℕ) → ℕ → ℕ → Option ℕ
  on_shift g a b = do x ← f.to_int a; y ← f.to_int b; k ← as_u32 y; z ← g x k; some (f.of_int z)

  abbrev share : ℕ → ℕ → Bool → ℕ
  share lhs rhs p = if p then f.mul lhs rhs else rhs

  unfoldable pub apply : Tok → ℕ → ℕ → Bool → Option ℕ
  apply plus lhs rhs p = some (f.add lhs (share lhs rhs p))
  apply minus lhs rhs p = some (f.sub lhs (share lhs rhs p))
  apply star lhs rhs p = some (f.mul lhs rhs)
  apply slash lhs rhs p = some (f.div lhs rhs)
  apply percent lhs rhs p = some (f.rem lhs rhs)
  apply caret lhs rhs p = some (f.powf lhs rhs)
  apply amp lhs rhs p = on_ints bit_and lhs rhs
  apply pipe lhs rhs p = on_ints bit_or lhs rhs
  apply xor lhs rhs p = on_ints bit_xor lhs rhs
  apply shl lhs rhs p = on_shift checked_shl lhs rhs
  apply shr lhs rhs p = on_shift checked_shr lhs rhs
  apply _ lhs rhs p = none

  abbrev pub prefixed : (ℕ → Option ℕ) → Parsed → Parsed
  prefixed g failed = failed
  prefixed g unfinished = unfinished
  prefixed g (parsed r rest) = elim (g r.v) [ none ↦ failed | some v ↦ parsed (plain v) rest ]

  abbrev pub closed : Parsed → Parsed
  closed failed = failed
  closed unfinished = unfinished
  closed (parsed r []) = failed
  closed (parsed r (t ∷ rest)) = if is_rparen t then parsed r rest else failed

  abbrev pub not_int : ℕ → Option ℕ
  not_int v = elim (f.to_int v) [ none ↦ none | some i ↦ some (f.of_int (word - 1 - i)) ]

  -- The first operand, whose first token is `t`.
  abbrev pub operand : (Job → List Tok → Parsed) → Tok → List Tok → Parsed
  operand rec (num v) ts = parsed (plain v) ts
  operand rec minus ts = prefixed (λ v. some (f.neg v)) (rec (expr 13) ts)
  operand rec plus ts = prefixed (λ v. some v) (rec (expr 13) ts)
  operand rec tilde ts = prefixed not_int (rec (expr 13) ts)
  operand rec lparen ts = closed (rec (expr 0) ts)
  operand rec _ ts = failed

  abbrev pub go_on : (Job → List Tok → Parsed) → ℕ → Parsed → Parsed
  go_on rec min_bp failed = failed
  go_on rec min_bp unfinished = unfinished
  go_on rec min_bp (parsed lhs rest) = rec (climb min_bp lhs) rest

  abbrev pub applied : Tok → Value → Parsed → Parsed
  applied t lhs failed = failed
  applied t lhs unfinished = unfinished
  applied t lhs (parsed rhs rest) = elim (apply t lhs.v rhs.v rhs.percent) [
    | none ↦ failed
    | some v ↦ parsed (plain v) rest
  ]

  -- An infix operator: with the powers it binds by.
  abbrev pub operator :
      (Job → List Tok → Parsed) → ℕ → Value → Tok → List Tok → Option (ℕ × ℕ) → Parsed
  operator rec min_bp lhs t ts none = parsed lhs (t ∷ ts)
  operator rec min_bp lhs t ts (some (lbp, rbp)) = elim (ltb lbp min_bp) [
    | true ↦ parsed lhs (t ∷ ts)
    | false ↦ go_on rec min_bp (applied t lhs (rec (expr rbp) ts))
  ]

  abbrev pub as_percent : (Job → List Tok → Parsed) → ℕ → Value → Tok → List Tok → Parsed
  as_percent rec min_bp lhs t ts = elim (ltb 12 min_bp) [
    | true ↦ parsed lhs (t ∷ ts)
    | false ↦ rec (climb min_bp (record { v = f.div lhs.v hundred; percent = true })) ts
  ]

  abbrev pub follow : (Job → List Tok → Parsed) → ℕ → Value → List Tok → Parsed
  follow rec min_bp lhs [] = parsed lhs []
  follow rec min_bp lhs (t ∷ ts) = elim (is_percent t && not (starts_term ts)) [
    | true ↦ as_percent rec min_bp lhs t ts
    | false ↦ operator rec min_bp lhs t ts (infix_bp t)
  ]

  abbrev pub start : (Job → List Tok → Parsed) → ℕ → List Tok → Parsed
  start rec min_bp [] = failed
  start rec min_bp (t ∷ ts) = go_on rec min_bp (operand rec t ts)

  abbrev pub round : (Job → List Tok → Parsed) → Job → List Tok → Parsed
  round rec (expr min_bp) toks = start rec min_bp toks
  round rec (climb min_bp lhs) toks = follow rec min_bp lhs toks

  unfoldable pub parse : ℕ → Job → List Tok → Parsed
  unfolding apply
  parse zero job toks = unfinished
  parse (suc fuel) job toks = round (λ j ts. parse fuel j ts) job toks

  abbrev whole : Parsed → Option ℕ
  whole (parsed r []) = if f.is_finite r.v then some r.v else none
  whole _ = none

  -- `arithmetic_value` of the tokens: as much fuel as there are tokens, and one.
  unfoldable pub value_of : List Tok → Option ℕ
  unfolding parse
  value_of toks = whole (parse (length toks + 1) (expr 0) toks)
