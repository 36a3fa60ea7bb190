-- ===== src/Calc/Dates/Tomorrow.antt =====
-- The number of a day is one more than that of the day before, by the rules of the calendar.
use yspot.Prelude.{
  ℕ, ◌+◌, ◌%◌, ◌≤◌, ◌<◌, ◌≡◌, refl, sym, ap, ◌∙◌, inl, inr, true, false, Bool-cases, ltb, ◌==◌,
  if◌then◌else◌, arith,
}
use mathlib.Core.Path.{subst}
use yspot.Calc.Dates.{Date, valid, days_in_month, is_leap, day_number}
use yspot.Calc.Dates.RoundTrip.{twelve, IsDate, IsDate-valid}

abbrev date : ℕ → ℕ → ℕ → Date
date y m d = record { year = y; month = m; day = d }

-- The day behind a date.
abbrev pub tomorrow : Date → Date
tomorrow t =
    if ltb t.day (days_in_month t.year t.month)
    then date t.year t.month (t.day + 1)
    else if ltb t.month 12
    then date t.year (t.month + 1) 1
    else date (t.year + 1) 1 1

-- The first of a month is behind the last of the one before.
abbrev EndsMonth : ℕ → ℕ → Type 0
EndsMonth y m = day_number (date y (m + 1) 1) ≡ day_number (date y m (days_in_month y m)) + 1

february_ends : (y : ℕ) → 1 ≤ y → EndsMonth y 2
unfolding day_number days_in_month
february_ends y a = elim (Bool-cases (y % 400 == 0)) [
  | inl e ↦
      let z : y % 400 ≡ 0 = ground arith in
      let l : is_leap y ≡ true = ground arith in rw l (omega arith)
  | inr e ↦ elim (Bool-cases (is_leap y)) [
    | inl l ↦
        let four : y % 4 ≡ 0 = ground arith in
        let hundred : 0 < y % 100 = ground arith in rw l (omega arith)
    | inr l ↦ elim (Bool-cases (y % 4 == 0)) [
      | inl f ↦
          let hundred : y % 100 ≡ 0 = ground arith in
          let four : 0 < y % 400 = ground arith in rw l (omega arith)
      | inr f ↦ let four : 0 < y % 4 = ground arith in rw l (omega arith)
    ]
  ]
]

month_ends : (y : ℕ) → 1 ≤ y → (m : ℕ) → 1 ≤ m → m ≤ 12 → m < 12 → EndsMonth y m
unfolding day_number days_in_month
month_ends y a =
    twelve (λ m. m < 12 → EndsMonth y m) (λ l. omega arith) (λ l. february_ends y a)
      (λ l. omega arith) (λ l. omega arith) (λ l. omega arith) (λ l. omega arith) (λ l. omega arith)
      (λ l. omega arith) (λ l. omega arith) (λ l. omega arith) (λ l. omega arith)
      (λ l. absurd (omega arith))

year_ends : (y : ℕ) → 1 ≤ y → day_number (date (y + 1) 1 1) ≡ day_number (date y 12 31) + 1
unfolding day_number
year_ends y a = omega arith

day_number-step : (y m d : ℕ) → 1 ≤ d → day_number (date y m (d + 1)) ≡ day_number (date y m d) + 1
unfolding day_number
day_number-step y m d a = omega arith

last_of :
    (t : Date)
    → IsDate t
    → ltb t.day (days_in_month t.year t.month) ≡ false
    → t.day ≡ days_in_month t.year t.month
last_of t f h = let l = f.in_days in ground arith

december_days : (y : ℕ) → days_in_month y 12 ≡ 31
unfolding days_in_month
december_days y = refl

pub year_of_valid : (t : Date) → valid t ≡ true → 1 ≤ t.year
unfolding valid
year_of_valid t v = ground arith

-- The day behind a valid date has the next number.
pub day_number-tomorrow : (t : Date) → valid t ≡ true → day_number (tomorrow t) ≡ day_number t + 1
day_number-tomorrow t v =
    let f = IsDate-valid t v in
    let y = year_of_valid t v in
    let lo = f.from_january in
    let hi = f.to_december in
    elim (Bool-cases (ltb t.day (days_in_month t.year t.month))) [
      | inl e ↦ rw e (day_number-step t.year t.month t.day f.first_day)
      | inr e ↦
          let d = last_of t f e in
          elim (Bool-cases (ltb t.month 12)) [
            | inl l ↦
                let ends = month_ends t.year y t.month lo hi (ground arith) in
                rw (e, l) (subst (λ (k : ℕ). EndsAt t.year t.month k) (sym d) ends)
            | inr l ↦
                let m : t.month ≡ 12 = ground arith in
                let k : t.day ≡ 31 = d ∙ (ap (days_in_month t.year) m ∙ december_days t.year) in
                rw (e, l)
                  (subst (λ (k : ℕ). IsNewYear t.year k t.day) (sym m)
                    (subst (λ (k : ℕ). IsNewYear t.year 12 k) (sym k) (year_ends t.year y)))
          ]
    ]
  where
    EndsAt : ℕ → ℕ → ℕ → Type 0
    EndsAt y m d = day_number (date y (m + 1) 1) ≡ day_number (date y m d) + 1

    IsNewYear : ℕ → ℕ → ℕ → Type 0
    IsNewYear y m d = day_number (date (y + 1) 1 1) ≡ day_number (date y m d) + 1
