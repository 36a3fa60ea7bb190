-- ===== src/Calc/Dates/RoundTrip.antt =====
-- A date from 1970 on is found again from the number of its days.
use Prim.Native.Nat.{◌-◌}
use yspot.Prelude.{
  ℕ, ◌+◌, ◌*◌, ◌/◌, ◌%◌, ◌≤◌, ◌<◌, ◌≡◌, refl, ◌∙◌, ◌⊎◌, inl, inr, true, Bool-cases, leb, ◌==◌,
  if◌then◌else◌, arith,
}
use mathlib.Core.Path.{subst}
use yspot.Calc.Dates.Count.{Steps, civil_from_days_lem}
use yspot.Calc.Dates.{
  Date, pos, valid, days_in_month, is_leap, day_number, days_from_civil, civil_from_days,
}

-- The year is read back off the days.
year_of_days :
    (c q s doy doe : ℕ)
    → c ≤ 3
    → q ≤ 24
    → s ≤ 3
    → doe ≡ 36524 * c + 1461 * q + 365 * s + doy
    → doy ≤ 364 ⊎ ((doy ≡ 365) × (s ≡ 3) × (q < 24 ⊎ (c ≡ 3)))
    → (doe - doe / 1460 + doe / 36524 - doe / 146096) / 365 ≡ 100 * c + 4 * q + s
year_of_days c q s doy doe hc hq hs e (inl l) = omega arith
year_of_days c q s doy doe hc hq hs e (inr (l, k, inl m)) = omega arith
year_of_days c q s doy doe hc hq hs e (inr (l, k, inr m)) = omega arith

-- Months counted from March, and the day of the year that starts there.
abbrev march : ℕ → ℕ
march m = (m + 9) % 12

abbrev day_of_year : ℕ → ℕ → ℕ
day_of_year m d = (153 * march m + 2) / 5 + d - 1

pub twelve :
    (P : ℕ → Type 0)
    → P 1
    → P 2
    → P 3
    → P 4
    → P 5
    → P 6
    → P 7
    → P 8
    → P 9
    → P 10
    → P 11
    → P 12
    → (m : ℕ) → 1 ≤ m
    → m ≤ 12
    → P m
twelve P a b c d e f g h i j k l m lo hi = elim (Bool-cases (m == 1)) [
  | inl x ↦ subst P (ground arith) a
  | inr n1 ↦ elim (Bool-cases (m == 2)) [
    | inl x ↦ subst P (ground arith) b
    | inr n2 ↦ elim (Bool-cases (m == 3)) [
      | inl x ↦ subst P (ground arith) c
      | inr n3 ↦ elim (Bool-cases (m == 4)) [
        | inl x ↦ subst P (ground arith) d
        | inr n4 ↦ elim (Bool-cases (m == 5)) [
          | inl x ↦ subst P (ground arith) e
          | inr n5 ↦ elim (Bool-cases (m == 6)) [
            | inl x ↦ subst P (ground arith) f
            | inr n6 ↦ elim (Bool-cases (m == 7)) [
              | inl x ↦ subst P (ground arith) g
              | inr n7 ↦ elim (Bool-cases (m == 8)) [
                | inl x ↦ subst P (ground arith) h
                | inr n8 ↦ elim (Bool-cases (m == 9)) [
                  | inl x ↦ subst P (ground arith) i
                  | inr n9 ↦ elim (Bool-cases (m == 10)) [
                    | inl x ↦ subst P (ground arith) j
                    | inr n10 ↦ elim (Bool-cases (m == 11)) [
                      | inl x ↦ subst P (ground arith) k
                      | inr n11 ↦ subst P (ground arith) l
                    ]
                  ]
                ]
              ]
            ]
          ]
        ]
      ]
    ]
  ]
]

-- No month is longer than the way to the next one.
month_length :
    (y m : ℕ)
    → 1 ≤ m
    → m ≤ 12
    → days_in_month y m ≤ (153 * (march m + 1) + 2) / 5 - (153 * march m + 2) / 5
unfolding days_in_month
month_length y =
    twelve (λ m. days_in_month y m ≤ (153 * (march m + 1) + 2) / 5 - (153 * march m + 2) / 5)
      (omega arith) (ground arith) (omega arith) (omega arith) (omega arith) (omega arith)
      (omega arith) (omega arith) (omega arith) (omega arith) (omega arith) (omega arith)

month_of_day :
    (m d : ℕ)
    → 1 ≤ m
    → m ≤ 12
    → 1 ≤ d
    → d ≤ (153 * (march m + 1) + 2) / 5 - (153 * march m + 2) / 5
    → (5 * day_of_year m d + 2) / 153 ≡ march m
month_of_day m d a b c e = omega arith

-- A day behind the 365th is the end of a leap February.
abbrev DayFits : ℕ → ℕ → ℕ → Type 0
DayFits y d m =
    d ≤ days_in_month y m
    → (day_of_year m d ≤ 364) ⊎ ((day_of_year m d ≡ 365) × (m ≡ 2) × (is_leap y ≡ true))

february : (y d : ℕ) → 1 ≤ d → DayFits y d 2
unfolding days_in_month
february y d a h = elim (Bool-cases (is_leap y)) [
  | inr e ↦ let h' : d ≤ 28 = rw e at h in inl (omega arith)
  | inl e ↦
      let h' : d ≤ 29 = rw e at h in
      elim (Bool-cases (d == 29)) [
        | inl k ↦ let same : d ≡ 29 = ground arith in inr (omega arith, refl, e)
        | inr k ↦ let less : d ≤ 28 = ground arith in inl (omega arith)
      ]
]

last_day : (y d : ℕ) → 1 ≤ d → (m : ℕ) → 1 ≤ m → m ≤ 12 → DayFits y d m
unfolding days_in_month
last_day y d a =
    twelve (DayFits y d) (λ l. inl (omega arith)) (february y d a) (λ l. inl (omega arith))
      (λ l. inl (omega arith)) (λ l. inl (omega arith)) (λ l. inl (omega arith))
      (λ l. inl (omega arith)) (λ l. inl (omega arith)) (λ l. inl (omega arith))
      (λ l. inl (omega arith)) (λ l. inl (omega arith)) (λ l. inl (omega arith))

abbrev march_year : Date → ℕ
march_year t = if leb t.month 2 then t.year - 1 else t.year

-- What a valid date is made of.
pub record IsDate (t : Date) : Type 0 where
  pub from_january : 1 ≤ t.month
  pub to_december : t.month ≤ 12
  pub first_day : 1 ≤ t.day
  pub in_days : t.day ≤ days_in_month t.year t.month

pub IsDate-valid : (t : Date) → valid t ≡ true → IsDate t
unfolding valid
IsDate-valid t h = record {
  from_january = ground arith;
  to_december = ground arith;
  first_day = ground arith;
  in_days = ground arith;
}

leap_year :
    (year : ℕ)
    → 1 ≤ year
    → is_leap year ≡ true
    → (((year - 1) % 400 % 4 ≡ 3)
        × ((year - 1) % 400 % 100 / 4 < 24 ⊎ ((year - 1) % 400 / 100 ≡ 3)))
leap_year year a h = elim (Bool-cases (year % 400 == 0)) [
  | inl e ↦ let z : year % 400 ≡ 0 = ground arith in (omega arith, inr (omega arith))
  | inr e ↦
      let four : year % 4 ≡ 0 = ground arith in
      let hundred : 0 < year % 100 = ground arith in (omega arith, inl (omega arith))
]

-- The day of the year, as the year's bound on it.
day_in_year :
    (t : Date)
    → valid t ≡ true
    → 1 ≤ t.year
    → (day_of_year t.month t.day ≤ 364)
      ⊎ ((day_of_year t.month t.day ≡ 365)
          × (march_year t % 400 % 4 ≡ 3)
          × (march_year t % 400 % 100 / 4 < 24 ⊎ (march_year t % 400 / 100 ≡ 3)))
day_in_year t v a =
    let f = IsDate-valid t v in
    elim (last_day t.year t.day f.first_day t.month f.from_january f.to_december f.in_days) [
      | inl l ↦ inl l
      | inr (e, m, k) ↦
          let y : march_year t ≡ t.year - 1 = ground arith in
          let (s, q) = leap_year t.year a k in inr (e, rw y s, rw y q)
    ]

abbrev day_of_era : ℕ → ℕ → ℕ
day_of_era yoe doy = yoe * 365 + yoe / 4 - yoe / 100 + doy

conversion_lem :
    (t : Date)
    → valid t ≡ true
    → 1 ≤ t.year
    → Steps
        (day_number t)
        (march_year t / 400)
        (day_of_era (march_year t - march_year t / 400 * 400) (day_of_year t.month t.day))
        (march_year t - march_year t / 400 * 400)
        (day_of_year t.month t.day)
        (march t.month)
        t
unfolding day_number
conversion_lem t v a =
    let f = IsDate-valid t v in
    let k = month_length t.year t.month f.from_january f.to_december in
    let y = march_year t in
    let yoe = y - y / 400 * 400 in
    let doy = day_of_year t.month t.day in
    let doe = day_of_era yoe doy in
    let same : y % 400 ≡ yoe = omega arith in
    let within = day_in_year t v a in
    let few : doy ≤ 365 = elim within [ inl l ↦ omega arith | inr r ↦ omega (arith, r.0) ] in
    let small : doe ≤ 146096 = omega arith in
    let back =
      year_of_days (yoe / 100) (yoe % 100 / 4) (yoe % 4) doy doe (omega arith) (omega arith)
        (omega arith) (omega arith)
        (elim within [ inl l ↦ inl l | inr (e, k, q) ↦ inr (e, rw same at k, rw same at q) ]) in
    record {
      at_era = omega arith;
      in_era = omega arith;
      at_year = back ∙ omega arith;
      in_year = omega arith;
      at_month =
          month_of_day t.month t.day f.from_january f.to_december f.first_day
            (omega (arith, f.in_days));
      in_month = omega (arith, f.first_day);
      month = ground arith;
      year = ground arith;
    }

day_number-late : (t : Date) → IsDate t → 1970 ≤ t.year → 719468 ≤ day_number t
unfolding day_number
day_number-late t f a =
    let lo = f.from_january in
    let hi = f.to_december in
    let d = f.first_day in
    elim (Bool-cases (leb t.month 2)) [
      | inl e ↦ let m : t.month ≤ 2 = ground arith in rw e (omega arith)
      | inr e ↦ let m : 2 < t.month = ground arith in rw e (omega arith)
    ]

-- A valid date from 1970 on has a number of days from 1970 on, and is the date of that number.
pub civil_from_days-days_from_civil :
    (t : Date)
    → valid t ≡ true
    → 1970 ≤ t.year
    → (z : ℕ) × (days_from_civil t ≡ pos z) × (civil_from_days z ≡ t)
unfolding days_from_civil
civil_from_days-days_from_civil t v a =
    let late : 719468 ≤ day_number t = day_number-late t (IsDate-valid t v) a in
    let e : leb 719468 (day_number t) ≡ true = ground arith in
    (
      day_number t - 719468,
      rw e refl,
      civil_from_days_lem (day_number t - 719468) (day_number t) _ _ _ _ _ t (omega arith)
          (conversion_lem t v (omega arith)),
    )
