-- ===== src/Calc/Words.antt =====
-- Texts of the calculator, as lists of characters: what apps/shell/src-tauri/src/calc.rs uses of the language's
-- library (`trim`, `split_whitespace`, `split_once`, `strip_prefix`, `to_ascii_lowercase`, `parse`, `to_string`), and
-- its `group`.
use Prim.Native.Nat.{◌-◌}
use yspot.Prelude.{
  ℕ, zero, suc, ◌+◌, ◌*◌, ◌/◌, ◌%◌, Bool, true, false, not, ◌&&◌, ◌||◌, List, [], ◌∷◌, ◌++◌, Option,
  none, some, ltb, leb, ◌==◌, if◌then◌else◌, length, replicate,
}

abbrev pub Chars : Type 0
Chars = List ℕ

abbrev pub is_digit : ℕ → Bool
is_digit c = leb b'0' c && leb c b'9'

-- `char::is_whitespace`
abbrev pub is_whitespace : ℕ → Bool
is_whitespace c =
    leb 9 c && leb c 13
    || c == 32
    || c == 0x85
    || c == 0xa0
    || c == 0x1680
    || leb 0x2000 c && leb c 0x200a
    || c == 0x2028
    || c == 0x2029
    || c == 0x202f
    || c == 0x205f
    || c == 0x3000

abbrev pub lower : ℕ → ℕ
lower c = if leb b'A' c && leb c b'Z' then c + 32 else c

unfoldable pub to_ascii_lowercase : Chars → Chars
to_ascii_lowercase [] = []
to_ascii_lowercase (c ∷ cs) = lower c ∷ to_ascii_lowercase cs

abbrev pub reverse_onto : Chars → Chars → Chars
reverse_onto [] acc = acc
reverse_onto (c ∷ cs) acc = reverse_onto cs (c ∷ acc)

abbrev pub drop_while : (ℕ → Bool) → Chars → Chars
drop_while p [] = []
drop_while p (c ∷ cs) = if p c then drop_while p cs else c ∷ cs

-- `trim_end_matches`
abbrev pub drop_while_end : (ℕ → Bool) → Chars → Chars
drop_while_end p cs = reverse_onto (drop_while p (reverse_onto cs [])) []

abbrev pub trim : Chars → Chars
trim cs = drop_while_end is_whitespace (drop_while is_whitespace cs)

abbrev nonempty_word : Chars → List Chars → List Chars
nonempty_word [] ws = ws
nonempty_word (c ∷ cs) ws = (c ∷ cs) ∷ ws

-- The words, where `word` is the one that is being read, reversed.
unfoldable pub words_from : Chars → Chars → List Chars
words_from word [] = nonempty_word (reverse_onto word []) []
words_from word (c ∷ cs) =
    let ended = nonempty_word (reverse_onto word []) (words_from [] cs) in
    let more = words_from (c ∷ word) cs in if is_whitespace c then ended else more

unfoldable pub split_whitespace : Chars → List Chars
unfolding words_from
split_whitespace cs = words_from [] cs

abbrev before : ℕ → Option (Chars × Chars) → Option (Chars × Chars)
before c none = none
before c (some (a, b)) = some (c ∷ a, b)

-- At the first `sep`.
unfoldable pub split_once : ℕ → Chars → Option (Chars × Chars)
split_once sep [] = none
split_once sep (c ∷ cs) =
    let found : Option (Chars × Chars) = some ([], cs) in
    let rest = before c (split_once sep cs) in if c == sep then found else rest

unfoldable pub strip_prefix : Chars → Chars → Option Chars
strip_prefix [] cs = some cs
strip_prefix (p ∷ ps) [] = none
strip_prefix (p ∷ ps) (c ∷ cs) = let rest = strip_prefix ps cs in if p == c then rest else none

unfoldable pub digits_from : ℕ → Chars → Option ℕ
digits_from acc [] = some acc
digits_from acc (c ∷ cs) =
    let rest = digits_from (acc * 10 + (c - b'0')) cs in if is_digit c then rest else none

abbrev within : ℕ → Option ℕ → Option ℕ
within most none = none
within most (some n) = if leb n most then some n else none

abbrev unsigned : ℕ → Chars → Option ℕ
unsigned most [] = none
unsigned most (c ∷ cs) = within most (digits_from 0 (c ∷ cs))

-- `parse` of an integer that is at most `most` and has no minus sign.
unfoldable pub parse_int : ℕ → Chars → Option ℕ
unfolding digits_from
parse_int most [] = none
parse_int most (c ∷ cs) = if c == b'+' then unsigned most cs else unsigned most (c ∷ cs)

-- The decimal digits of `n` in front of `acc`; a number has fewer digits than its successor is large.
unfoldable pub decimal_from : ℕ → ℕ → Chars → Chars
decimal_from zero n acc = acc
decimal_from (suc fuel) n acc =
    let digits = (b'0' + n % 10) ∷ acc in
    let more = decimal_from fuel (n / 10) digits in if ltb n 10 then digits else more

unfoldable pub decimal : ℕ → Chars
unfolding decimal_from
decimal n = decimal_from (n + 1) n []

-- `{n:0width$}`
abbrev pub padded : ℕ → ℕ → Chars
padded width n = replicate (width - length (decimal n)) b'0' ++ decimal n

-- The digits `cs` with a comma in front of every third that is not the first: `first` says whether none came before.
unfoldable pub group_digits : Bool → Chars → Chars
group_digits first [] = []
group_digits first (c ∷ cs) =
    let rest = group_digits false cs in
    let comma = b',' ∷ c ∷ rest in
    if not first && (length (c ∷ cs) % 3 == 0) then comma else c ∷ rest

-- `group`
unfoldable pub group_thousands : Chars → Chars
unfolding group_digits
group_thousands [] = []
group_thousands (c ∷ cs) =
    if c == b'-' then b'-' ∷ group_digits true cs else group_digits true (c ∷ cs)
