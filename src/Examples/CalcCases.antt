-- ===== src/Examples/CalcCases.antt =====
-- Expressions and questions of the calculator, and the theorems about it.
use yspot.Prelude.{
  ℕ, ◌+◌, ◌*◌, ◌-◌, ◌/◌, ◌%◌, ◌≡◌, refl, true, false, List, [], ◌∷◌, ◌++◌, some, length, arith,
}
use yspot.Calc.Dates.{Date, pos, valid, days_in_month, day_number, days_from_civil, civil_from_days}
use yspot.Calc.Dates.RoundTrip.{civil_from_days-days_from_civil}
use yspot.Calc.Dates.Tomorrow.{tomorrow, day_number-tomorrow}
use yspot.Calc.Question.{until, since, nearest, days_between, date_math, days_until, answer}
use yspot.Calc.Question.Laws.{
  OnSide, NoFarther, nearest-OnSide, february, feb_29, date_math-feb_29, after, days_between-after,
}
use yspot.Calc.Tokens.{Tok, num, plus, star}
use yspot.Calc.Parser.{F64, expr, parse}
use yspot.Calc.Parser.Fuel.{Leaves, parse-ends}

abbrev date : ℕ → ℕ → ℕ → Date
date y m d = record { year = y; month = m; day = d }

leap_day-valid : valid (date 2024 2 29) ≡ true
unfolding valid days_in_month
leap_day-valid = refl

civil_from_days-days_from_civil_example :
    (z : ℕ) × (days_from_civil (date 2024 2 29) ≡ pos z) × (civil_from_days z ≡ date 2024 2 29)
civil_from_days-days_from_civil_example =
    civil_from_days-days_from_civil (date 2024 2 29) leap_day-valid (omega arith)

day_number-tomorrow_example :
    day_number (tomorrow (date 2024 2 29)) ≡ day_number (date 2024 2 29) + 1
day_number-tomorrow_example = day_number-tomorrow (date 2024 2 29) leap_day-valid

days_between-after_example :
    (days_between until (after 40 (date 2024 2 29)) (date 2024 2 29) ≡ pos 40)
    × (days_between since (date 2024 2 29) (after 40 (date 2024 2 29)) ≡ pos 40)
days_between-after_example =
    days_between-after 40 (date 2024 2 29) leap_day-valid (unfold days_in_month in omega arith)

nearest-OnSide_example :
    OnSide until (date 2024 7 4) (nearest (date 2024 7 4) until 7 3)
    × ((y : ℕ)
        → OnSide until (date 2024 7 4) (date y 7 3)
        → NoFarther until (nearest (date 2024 7 4) until 7 3) y)
nearest-OnSide_example = nearest-OnSide (date 2024 7 4) until 7 3 (omega arith)

-- July 4, 2024.
abbrev seconds : ℕ
seconds = 19908 * 86400

date_math-feb_29_example :
    (date_math seconds (days_until ++ feb_29)
      ≡ some (answer (days_between until (february 2025) (date 2024 7 4)) (february 2025)))
    × (valid (february 2025) ≡ false)
date_math-feb_29_example =
    date_math-feb_29 seconds (date 2024 7 4) (unfold civil_from_days in refl) refl (omega arith)
      (omega arith) (omega arith)

-- An arithmetic of numbers.
abbrev numbers : F64
numbers = record {
  neg = λ a. a;
  add = λ a b. a + b;
  sub = λ a b. a - b;
  mul = λ a b. a * b;
  div = λ a b. a / b;
  rem = λ a b. a % b;
  powf = λ a b. a;
  to_int = λ a. some a;
  of_int = λ a. a;
  is_finite = λ a. true;
}

abbrev sum_tokens : List Tok
sum_tokens = num 2 ∷ plus ∷ num 3 ∷ star ∷ num 4 ∷ []

parse-ends_example :
    Leaves (length sum_tokens) (parse numbers 9 (expr 0) sum_tokens)
    × (parse numbers 9 (expr 0) sum_tokens
        ≡ parse numbers (length sum_tokens + 1) (expr 0) sum_tokens)
parse-ends_example = parse-ends numbers 9 (expr 0) sum_tokens (omega arith)
