-- ===== src/Calc/Question.antt =====
-- Questions about dates: apps/shell/src-tauri/src/calc.rs (`date_math`, `parse_date`). The seconds since 1970 are an
-- argument. A year in front of the first minus sign has no sign of its own but a plus.
pub mod Laws
use Prim.Native.Nat.{◌-◌}
use yspot.Prelude.{
  ℕ, zero, suc, ◌+◌, ◌*◌, ◌/◌, ◌%◌, ◌^◌, Bool, true, false, not, ◌&&◌, ◌||◌, List, [], ◌∷◌, ◌++◌,
  Option, none, some, ltb, leb, ◌==◌, if◌then◌else◌, ◌>>=◌,
}
use yspot.Calc.Words.{
  Chars, is_digit, to_ascii_lowercase, drop_while_end, trim, split_whitespace, split_once,
  strip_prefix, parse_int, decimal, padded,
}
use yspot.Calc.Dates.{
  Date, ℤ, pos, negsuc, minus, valid, day_number, days_from_civil, civil_from_days,
}

-- The sign of a question: 1 for what is ahead, -1 for what is past.
pub data Direction : Type 0 where
  until since : Direction

pub record CalcResult : Type 0 where
  pub display : Chars
  pub copy : Chars

abbrev months : List Chars
months =
    (b'j' ∷ b'a' ∷ b'n' ∷ [])
    ∷ (b'f' ∷ b'e' ∷ b'b' ∷ [])
    ∷ (b'm' ∷ b'a' ∷ b'r' ∷ [])
    ∷ (b'a' ∷ b'p' ∷ b'r' ∷ [])
    ∷ (b'm' ∷ b'a' ∷ b'y' ∷ [])
    ∷ (b'j' ∷ b'u' ∷ b'n' ∷ [])
    ∷ (b'j' ∷ b'u' ∷ b'l' ∷ [])
    ∷ (b'a' ∷ b'u' ∷ b'g' ∷ [])
    ∷ (b's' ∷ b'e' ∷ b'p' ∷ [])
    ∷ (b'o' ∷ b'c' ∷ b't' ∷ [])
    ∷ (b'n' ∷ b'o' ∷ b'v' ∷ [])
    ∷ (b'd' ∷ b'e' ∷ b'c' ∷ [])
    ∷ []

-- The number of the first month of the list that the word starts with.
unfoldable pub month_from : ℕ → List Chars → Chars → Option ℕ
month_from n [] word = none
month_from n (m ∷ ms) word =
    let rest = month_from (n + 1) ms word in
    elim (strip_prefix m word) [ none ↦ rest | some _ ↦ some n ]

abbrev pub if_valid : Date → Option Date
if_valid t = if valid t then some t else none

unfoldable pub parse_iso : Chars → Chars → Option Date
unfolding parse_int valid
parse_iso y rest = do
  (m, d) ← split_once b'-' rest
  year ← parse_int (2 ^ 63 - 1) y
  month ← parse_int (2 ^ 32 - 1) m
  day ← parse_int (2 ^ 32 - 1) d
  if_valid (record { year = year; month = month; day = day })

-- The nearest such date in the direction of the question.
unfoldable pub nearest : Date → Direction → ℕ → ℕ → Date
nearest today until m day =
    let passed = ltb m today.month || (m == today.month && ltb day today.day) in
    record { year = if passed then today.year + 1 else today.year; month = m; day = day }
nearest today since m day =
    let ahead = ltb today.month m || (m == today.month && ltb today.day day) in
    record { year = if ahead then today.year - 1 else today.year; month = m; day = day }

abbrev this_year : Date → ℕ → ℕ → Date
this_year today m day = record { year = today.year; month = m; day = day }

unfoldable pub named_date : Date → Direction → List Chars → Option Date
unfolding month_from parse_int nearest valid
named_date today sign (word ∷ number ∷ []) = do
  day ← parse_int (2 ^ 32 - 1) (drop_while_end (λ c. not (is_digit c)) number)
  m ← month_from 1 months word
  now ← if_valid (this_year today m day)
  some (nearest today sign m day)
named_date today sign _ = none

unfoldable pub parse_date : Chars → Date → Direction → Option Date
unfolding split_once parse_iso named_date split_whitespace
parse_date s today sign = elim (split_once b'-' s) [
  | some halves ↦ parse_iso halves.0 halves.1
  | none ↦ named_date today sign (split_whitespace s)
]

abbrev pub sub : ℤ → ℤ → ℤ
sub (pos a) (pos b) = minus a b
sub (pos a) (negsuc b) = pos (a + b + 1)
sub (negsuc a) (pos b) = negsuc (a + b)
sub (negsuc a) (negsuc b) = minus b a

abbrev pub negate : ℤ → ℤ
negate (pos a) = minus 0 a
negate (negsuc a) = pos (a + 1)

abbrev pub signed : Direction → ℤ → ℤ
signed until n = n
signed since n = negate n

-- The days to the target, or from it.
unfoldable pub days_between : Direction → Date → Date → ℤ
unfolding days_from_civil
days_between sign target today = signed sign (sub (days_from_civil target) (days_from_civil today))

abbrev int_text : ℤ → Chars
int_text (pos n) = decimal n
int_text (negsuc n) = b'-' ∷ decimal (n + 1)

abbrev was_text : ℤ → Chars
was_text (pos n) = []
was_text (negsuc n) = b'w' ∷ b'a' ∷ b's' ∷ b' ' ∷ []

abbrev days_text : Chars
days_text = b' ' ∷ b'd' ∷ b'a' ∷ b'y' ∷ b's' ∷ b' ' ∷ b'(' ∷ []

unfoldable pub answer : ℤ → Date → CalcResult
unfolding decimal
answer days t =
    let plain = int_text days in
    record {
      display =
          plain
          ++ (days_text
              ++ (was_text days
                  ++ (padded 4 t.year
                      ++ (b'-' ∷ padded 2 t.month ++ (b'-' ∷ padded 2 t.day ++ b')' ∷ [])))));
      copy = plain;
    }

abbrev pub days_until : Chars
days_until = b'd' ∷ b'a' ∷ b'y' ∷ b's' ∷ b' ' ∷ b'u' ∷ b'n' ∷ b't' ∷ b'i' ∷ b'l' ∷ b' ' ∷ []

abbrev days_to : Chars
days_to = b'd' ∷ b'a' ∷ b'y' ∷ b's' ∷ b' ' ∷ b't' ∷ b'o' ∷ b' ' ∷ []

abbrev days_since : Chars
days_since = b'd' ∷ b'a' ∷ b'y' ∷ b's' ∷ b' ' ∷ b's' ∷ b'i' ∷ b'n' ∷ b'c' ∷ b'e' ∷ b' ' ∷ []

abbrev asked : Direction → Option Chars → Option (Direction × Chars) → Option (Direction × Chars)
asked sign none next = next
asked sign (some rest) next = some (sign, rest)

-- The question's direction, and what is behind its first words.
unfoldable pub question : Chars → Option (Direction × Chars)
unfolding strip_prefix
question q =
    asked until (strip_prefix days_until q)
      (asked until (strip_prefix days_to q) (asked since (strip_prefix days_since q) none))

unfoldable pub date_math : ℕ → Chars → Option CalcResult
unfolding question parse_date civil_from_days days_between answer to_ascii_lowercase
date_math secs q = do
  (sign, rest) ← question (to_ascii_lowercase q)
  let today = civil_from_days (secs / 86400)
  target ← parse_date (trim rest) today sign
  some (answer (days_between sign target today) target)
