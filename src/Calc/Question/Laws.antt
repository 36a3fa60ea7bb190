-- ===== src/Calc/Question/Laws.antt =====
-- The date that a month and a day name, and the days to it.
use Prim.Native.Nat.{◌-◌}
use yspot.Prelude.{
  ◌>>=◌, [], ◌∷◌, ◌++◌, Option, some, ◌/◌, ℕ, zero, suc, ◌+◌, ◌%◌, ◌≤◌, ◌<◌, ◌≡◌, refl, sym, ap,
  ◌∙◌, inl, inr, Bool, true, false, Bool-cases, ◌&&◌, ◌||◌, ltb, leb, ◌==◌, arith,
}
use yspot.Calc.Dates.{
  Date, pos, negsuc, minus, valid, days_in_month, is_leap, day_number, days_from_civil,
  civil_from_days,
}
use mathlib.Core.Path.{subst}
use yspot.Calc.Words.{Chars, split_once, split_whitespace, strip_prefix, parse_int}
use yspot.Calc.Question.{
  Direction, until, since, nearest, sub, negate, days_between, parse_date, named_date, month_from,
  date_math, answer, days_until, CalcResult,
}
use yspot.Calc.Dates.Tomorrow.{tomorrow, year_of_valid, day_number-tomorrow}
use yspot.Calc.Dates.RoundTrip.{IsDate, IsDate-valid}

-- The order of dates.
abbrev pub earlier : Date → Date → Bool
earlier a b =
    ltb a.year b.year
    || (a.year == b.year && (ltb a.month b.month || (a.month == b.month && ltb a.day b.day)))

abbrev pub OnSide : Direction → Date → Date → Type 0
OnSide until today t = earlier t today ≡ false
OnSide since today t = earlier today t ≡ false

abbrev pub NoFarther : Direction → Date → ℕ → Type 0
NoFarther until t y = t.year ≤ y
NoFarther since t y = y ≤ t.year

-- From a year that is not 0: the date is on the asked side of today or today, and no year gives that month and
-- day a date on this side that is closer.
pub nearest-OnSide :
    (today : Date) (sign : Direction) (m day : ℕ)
    → 1 ≤ today.year
    → OnSide sign today (nearest today sign m day)
      × ((y : ℕ)
          → OnSide sign today (record { year = y; month = m; day = day })
          → NoFarther sign (nearest today sign m day) y)
unfolding nearest
nearest-OnSide today until m day h =
    elim (Bool-cases (ltb m today.month || (m == today.month && ltb day today.day))) [
      | inl e ↦ rw e (ground arith, λ y k. ground arith)
      | inr e ↦ rw e (ground arith, λ y k. ground arith)
    ]
nearest-OnSide today since m day h =
    elim (Bool-cases (ltb today.month m || (m == today.month && ltb today.day day))) [
      | inl e ↦ rw e (ground arith, λ y k. ground arith)
      | inr e ↦ rw e (ground arith, λ y k. ground arith)
    ]

not_leap : (y : ℕ) → is_leap y ≡ true → is_leap (y + 1) ≡ false
not_leap y l =
    let four : y % 4 ≡ 0 = elim (Bool-cases (y % 400 == 0)) [
      | inl e ↦ let z : y % 400 ≡ 0 = ground arith in omega arith
      | inr e ↦ ground arith
    ] in
    let a : ((y + 1) % 4 == 0) ≡ false = let n : (y + 1) % 4 ≡ 1 = omega arith in rw n refl in
    let b : ((y + 1) % 400 == 0) ≡ false =
      let n : (y + 1) % 400 % 4 ≡ 1 = omega arith in ground arith in
    rw (a, b) refl

abbrev pub february : ℕ → Date
february y = record { year = y; month = 2; day = 29 }

-- `feb 29`
abbrev pub feb_29 : Chars
feb_29 = b'f' ∷ b'e' ∷ b'b' ∷ b' ' ∷ b'2' ∷ b'9' ∷ []

no_such_day : (y : ℕ) → is_leap y ≡ true → valid (february (y + 1)) ≡ false
unfolding valid days_in_month
no_such_day y l = let odd : is_leap (y + 1) ≡ false = not_leap y l in rw odd (ground arith)

such_day : (y : ℕ) → is_leap y ≡ true → 1 ≤ y → y ≤ 9999 → valid (february y) ≡ true
unfolding valid days_in_month
such_day y l a b = rw l (ground arith)

parse_date-feb_29 :
    (today : Date)
    → valid (february today.year) ≡ true
    → 2 < today.month
    → parse_date feb_29 today until ≡ some (february (today.year + 1))
unfolding parse_date split_once named_date split_whitespace month_from parse_int strip_prefix
    nearest
parse_date-feb_29 today v m =
    let late : ltb 2 today.month ≡ true = ground arith in rw (v, late) refl

abbrev answer_to : Date → Option Date → Option CalcResult
answer_to today o = do t ← o; some (answer (days_between until t today) t)

asks_feb_29 :
    (secs : ℕ)
    → date_math secs (days_until ++ feb_29)
      ≡ answer_to
          (civil_from_days (secs / 86400))
          (parse_date feb_29 (civil_from_days (secs / 86400)) until)
unfolding date_math
asks_feb_29 secs = refl

-- Where today is in a leap year from 1 to 9999, and after February: `days until feb 29` is answered, with the days to
-- the February 29 of the next year, which is no date.
pub date_math-feb_29 :
    (secs : ℕ) (today : Date)
    → civil_from_days (secs / 86400) ≡ today
    → is_leap today.year ≡ true
    → 1 ≤ today.year
    → today.year ≤ 9999
    → 2 < today.month
    → (date_math secs (days_until ++ feb_29)
        ≡ some (
            answer
              (days_between until (february (today.year + 1)) today)
              (february (today.year + 1))))
      × (valid (february (today.year + 1)) ≡ false)
date_math-feb_29 secs today e l a b m =
    let now = civil_from_days (secs / 86400) in
    let v =
      subst (λ (t : Date). valid (february t.year) ≡ true) (sym e) (such_day today.year l a b) in
    let late = subst (λ (t : Date). 2 < t.month) (sym e) m in
    let asked = asks_feb_29 secs ∙ ap (answer_to now) (parse_date-feb_29 now v late) in
    (
      subst
          (λ (t : Date).
            date_math secs (days_until ++ feb_29)
            ≡ some (answer (days_between until (february (t.year + 1)) t) (february (t.year + 1))))
          e asked,
      no_such_day today.year l,
    )

minus_le : (a b n : ℕ) → a ≡ b + n → minus a b ≡ pos n
minus_le a b n h = let e : leb b a ≡ true = ground arith in rw e (ap pos (omega arith))

minus_gt : (a b n : ℕ) → b ≡ a + n + 1 → minus a b ≡ negsuc n
minus_gt a b n h = let e : leb b a ≡ false = ground arith in rw e (ap negsuc (omega arith))

minus_same : (a b c d : ℕ) → a + d ≡ b + c → minus a b ≡ minus c d
minus_same a b c d h = elim (Bool-cases (leb b a)) [
  | inl e ↦
      let l : b ≤ a = ground arith in
      minus_le a b (a - b) (omega arith) ∙ sym (minus_le c d (a - b) (omega arith))
  | inr e ↦
      let l : a < b = ground arith in
      minus_gt a b (b - a - 1) (omega arith) ∙ sym (minus_gt c d (b - a - 1) (omega arith))
]

sub-minus : (a b c : ℕ) → sub (minus a c) (minus b c) ≡ minus a b
sub-minus a b c = elim (Bool-cases (leb c a)) [
  | inl x ↦
      let ca : c ≤ a = ground arith in
      elim (Bool-cases (leb c b)) [
        | inl y ↦
            let cb : c ≤ b = ground arith in
            rw (x, y) (minus_same (a - c) (b - c) a b (omega arith))
        | inr y ↦
            let cb : b < c = ground arith in
            rw (x, y) (sym (minus_le a b (a - c + (c - b - 1) + 1) (omega arith)))
      ]
  | inr x ↦
      let ca : a < c = ground arith in
      elim (Bool-cases (leb c b)) [
        | inl y ↦
            let cb : c ≤ b = ground arith in
            rw (x, y) (sym (minus_gt a b (c - a - 1 + (b - c)) (omega arith)))
        | inr y ↦
            let cb : b < c = ground arith in
            rw (x, y) (minus_same (c - b - 1) (c - a - 1) a b (omega arith))
      ]
]

negate-minus : (a n : ℕ) → negate (minus a (a + n)) ≡ pos n
negate-minus a zero = ap negate (minus_le a (a + 0) 0 (omega arith)) ∙ minus_le 0 0 0 (omega arith)
negate-minus a (suc n) = ap negate (minus_gt a (a + suc n) n (omega arith)) ∙ ap pos (omega arith)

-- `n` days behind a date.
abbrev pub after : ℕ → Date → Date
after zero t = t
after (suc n) t = tomorrow (after n t)

first_in_month : (y m : ℕ) → 1 ≤ days_in_month y m
unfolding days_in_month
first_in_month y m = ground arith

valid_of_IsDate : (t : Date) → IsDate t → 1 ≤ t.year → t.year ≤ 9999 → valid t ≡ true
unfolding valid
valid_of_IsDate t f a b =
    let lo = f.from_january in
    let hi = f.to_december in let d = f.first_day in let k = f.in_days in ground arith

valid-tomorrow : (t : Date) → valid t ≡ true → (tomorrow t).year ≤ 9999 → valid (tomorrow t) ≡ true
valid-tomorrow t v l =
    let f = IsDate-valid t v in
    let lo = f.from_january in
    let hi = f.to_december in
    let y = year_of_valid t v in
    elim (Bool-cases (ltb t.day (days_in_month t.year t.month))) [
      | inl e ↦
          let l' : t.year ≤ 9999 = rw e at l in
          rw e (
            valid_of_IsDate _
              (record {
                from_january = lo;
                to_december = hi;
                first_day = omega arith;
                in_days = ground arith;
              })
              y l')
      | inr e ↦ elim (Bool-cases (ltb t.month 12)) [
        | inl m ↦
            let l' : t.year ≤ 9999 = rw (e, m) at l in
            rw (e, m)
              (valid_of_IsDate _
                (record {
                  from_january = omega arith;
                  to_december = ground arith;
                  first_day = omega arith;
                  in_days = first_in_month t.year (t.month + 1);
                })
                y l')
        | inr m ↦
            let l' : t.year + 1 ≤ 9999 = rw (e, m) at l in
            rw (e, m)
              (valid_of_IsDate _
                (record {
                  from_january = omega arith;
                  to_december = omega arith;
                  first_day = omega arith;
                  in_days = first_in_month (t.year + 1) 1;
                })
                (omega arith) l')
      ]
    ]

year_of_tomorrow : (t : Date) → t.year ≤ (tomorrow t).year
year_of_tomorrow t = elim (Bool-cases (ltb t.day (days_in_month t.year t.month))) [
  | inl e ↦ rw e (omega arith)
  | inr e ↦ elim (Bool-cases (ltb t.month 12)) [
    | inl m ↦ rw (e, m) (omega arith)
    | inr m ↦ rw (e, m) (omega arith)
  ]
]

valid-after :
    (n : ℕ) (t : Date) → valid t ≡ true → (after n t).year ≤ 9999 → valid (after n t) ≡ true
valid-after zero t v l = v
valid-after (suc n) t v l =
    let up = year_of_tomorrow (after n t) in
    valid-tomorrow (after n t) (valid-after n t v (omega arith)) l

day_number-after :
    (n : ℕ) (t : Date)
    → valid t ≡ true
    → (after n t).year ≤ 9999
    → day_number (after n t) ≡ day_number t + n
day_number-after zero t v l = omega arith
day_number-after (suc n) t v l =
    let up = year_of_tomorrow (after n t) in
    let w = valid-after n t v (omega arith) in
    let ih = day_number-after n t v (omega arith) in
    let step = day_number-tomorrow (after n t) w in omega arith

-- From a valid date, where the date `n` days on is not beyond the year 9999: it is `n` days until that date, and `n`
-- days since, seen from there.
pub days_between-after :
    (n : ℕ) (t : Date)
    → valid t ≡ true
    → (after n t).year ≤ 9999
    → (days_between until (after n t) t ≡ pos n) × (days_between since t (after n t) ≡ pos n)
unfolding days_between days_from_civil
days_between-after n t v l =
    let e = day_number-after n t v l in
    (
      sub-minus (day_number (after n t)) (day_number t) 719468 ∙ minus_le _ _ n e,
      ap negate (sub-minus (day_number t) (day_number (after n t)) 719468)
          ∙ (ap (λ (k : ℕ). negate (minus (day_number t) k)) e ∙ negate-minus (day_number t) n),
    )
