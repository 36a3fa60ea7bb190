-- ===== src/Calc/Tokens.antt =====
-- The tokens of an expression: apps/shell/src-tauri/src/calc.rs (`Tok`, `tokenize`, `number`). The text is what is left
-- of it, as its characters; one that is not ASCII ends it like any other foreign one. Reading an `f64` from its
-- text and from a `u64` are parameters, and an `f64` is its bits.
use Prim.Native.Nat.{◌-◌}
use yspot.Prelude.{
  ℕ, zero, suc, ◌+◌, ◌*◌, ◌^◌, Bool, true, false, not, ◌&&◌, ◌||◌, List, [], ◌∷◌, Option, none,
  some, ltb, leb, ◌==◌, if◌then◌else◌, length, ◌>>=◌,
}
use yspot.Calc.Words.{Chars, is_digit, lower, to_ascii_lowercase}

pub data Tok : Type 0 where
  num : ℕ → Tok
  plus minus star slash percent caret amp pipe xor shl shr tilde lparen rparen : Tok

pub record Reals : Type 0 where
  pub parse : Chars → Option ℕ
  pub of_u64 : ℕ → ℕ

abbrev pub is_alphabetic : ℕ → Bool
is_alphabetic c = let l = lower c in leb b'a' l && leb l b'z'

-- The value of a digit, or 99 for none.
abbrev digit_value : ℕ → ℕ
digit_value c =
    let l = lower c in
    if is_digit c then c - b'0' else if leb b'a' l && leb l b'z' then l - b'a' + 10 else 99

-- The longest front of the text that `p` holds for, and the rest.
unfoldable pub span : (ℕ → Bool) → Chars → Chars × Chars
span p [] = ([], [])
span p (c ∷ cs) =
    let rest = span p cs in
    let taken : Chars × Chars = (c ∷ rest.0, rest.1) in
    let ended : Chars × Chars = ([], c ∷ cs) in if p c then taken else ended

unfoldable pub radix_value : ℕ → ℕ → Chars → ℕ
radix_value radix acc [] = acc
radix_value radix acc (c ∷ cs) = radix_value radix (acc * radix + digit_value c) cs

abbrev radix_of : ℕ → ℕ
radix_of c =
    let l = lower c in
    if l == b'x' then 16 else if l == b'b' then 2 else if l == b'o' then 8 else 10

-- A token, what is left of the text, and whether the token is of a base of its own.
abbrev Read : Type 0
Read = (Tok × Chars) × Bool

-- The digits behind the mark of a base: some, within a `u64`.
abbrev based_number : Reals → ℕ → Chars × Chars → Option Read
based_number f radix ([], rest) = none
based_number f radix (d ∷ ds, rest) =
    let v = radix_value radix 0 (d ∷ ds) in
    let read : Option Read = some ((num (f.of_u64 v), rest), true) in
    if ltb v (2 ^ 64) then read else none

abbrev starts_exponent : Chars → Bool
starts_exponent [] = false
starts_exponent (c ∷ _) = is_digit c || c == b'+' || c == b'-'

abbrev exponent_from : Chars → Chars × Chars
exponent_from [] = ([], [])
exponent_from (c ∷ cs) = let rest = span is_digit cs in (c ∷ rest.0, rest.1)

-- The text of a decimal number, from behind its first character on if `behind`.
unfoldable pub decimal_span : Bool → Bool → Chars → Chars × Chars
unfolding span
decimal_span behind dot [] = ([], [])
decimal_span behind dot (c ∷ cs) =
    let digits = decimal_span true dot cs in
    let dotted = decimal_span true true cs in
    let exponent = exponent_from cs in
    let ended : Chars × Chars = ([], c ∷ cs) in
    let on : Chars × Chars → Chars × Chars = λ r. (c ∷ r.0, r.1) in
    if is_digit c
    then on digits
    else if c == b'.' && not dot
    then on dotted
    else if lower c == b'e' && behind && starts_exponent cs
    then on exponent
    else ended

abbrev decimal_number : Reals → Chars × Chars → Option Read
decimal_number f (text, rest) = do v ← f.parse text; some ((num v, rest), false)

unfoldable pub number : Reals → Chars → Option Read
unfolding decimal_span span radix_value
number f [] = none
number f (a ∷ []) = decimal_number f (decimal_span false false (a ∷ []))
number f (a ∷ b ∷ cs) =
    let radix = radix_of b in
    let based = based_number f radix (span (λ c. ltb (digit_value c) radix) cs) in
    let plain = decimal_number f (decimal_span false false (a ∷ b ∷ cs)) in
    if a == b'0' && not (radix == 10) then based else plain

abbrev same_text : Chars → Chars → Bool
same_text [] [] = true
same_text [] (_ ∷ _) = false
same_text (_ ∷ _) [] = false
same_text (a ∷ xs) (b ∷ ys) = a == b && same_text xs ys

abbrev word_token : Chars → Option Tok
word_token w =
    if same_text w (b'x' ∷ b'o' ∷ b'r' ∷ [])
    then some xor
    else if same_text w (b'a' ∷ b'n' ∷ b'd' ∷ [])
    then some amp
    else if same_text w (b'o' ∷ b'r' ∷ [])
    then some pipe
    else if same_text w (b'm' ∷ b'o' ∷ b'd' ∷ [])
    then some percent
    else none

abbrev starts_with : ℕ → Chars → Bool
starts_with c [] = false
starts_with c (d ∷ _) = c == d

abbrev tail : Chars → Chars
tail [] = []
tail (_ ∷ cs) = cs

abbrev sign_token : ℕ → Option Tok
sign_token c =
    if c == b'+'
    then some plus
    else if c == b'-'
    then some minus
    else if c == b'*'
    then some star
    else if c == b'/'
    then some slash
    else if c == b'%'
    then some percent
    else if c == b'^'
    then some caret
    else if c == b'&'
    then some amp
    else if c == b'|'
    then some pipe
    else if c == b'~'
    then some tilde
    else if c == b'('
    then some lparen
    else if c == b')'
    then some rparen
    else none

abbrev plain_read : Chars → Option Tok → Option Read
plain_read rest none = none
plain_read rest (some t) = some ((t, rest), false)

abbrev is_space : ℕ → Bool
is_space c = c == b' ' || c == 9 || c == b',' || c == b'_'

-- The token that the character `c` begins, where it is not a space.
unfoldable pub read_token : Reals → ℕ → Chars → Option Read
unfolding number span to_ascii_lowercase
read_token f c cs =
    let doubled = starts_with c cs in
    let word = span is_alphabetic (c ∷ cs) in
    if c == b'*' && doubled
    then some ((caret, tail cs), false)
    else if c == b'<' && doubled
    then some ((shl, tail cs), false)
    else if c == b'>' && doubled
    then some ((shr, tail cs), false)
    else if is_digit c || c == b'.'
    then number f (c ∷ cs)
    else if is_alphabetic c
    then plain_read word.1 (word_token (to_ascii_lowercase word.0))
    else plain_read cs (sign_token c)

-- The tokens of the text, for at most `fuel` characters, and whether one is of a base of its own.
unfoldable pub tokens_from : Reals → ℕ → Chars → Option (List Tok × Bool)
unfolding read_token
tokens_from f zero cs = some ([], false)
tokens_from f (suc fuel) [] = some ([], false)
tokens_from f (suc fuel) (c ∷ cs) = elim (is_space c) [
  | true ↦ tokens_from f fuel cs
  | false ↦ elim (read_token f c cs) [
    | none ↦ none
    | some read ↦ elim (tokens_from f fuel read.0.1) [
      | none ↦ none
      | some rest ↦ some (read.0.0 ∷ rest.0, read.1 || rest.1)
    ]
  ]
]

abbrev unless_empty : Option (List Tok × Bool) → Option (List Tok × Bool)
unless_empty none = none
unless_empty (some ([], based)) = none
unless_empty (some (t ∷ ts, based)) = some (t ∷ ts, based)

unfoldable pub tokenize : Reals → Chars → Option (List Tok × Bool)
unfolding tokens_from
tokenize f s = unless_empty (tokens_from f (length s) s)
