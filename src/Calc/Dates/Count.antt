-- ===== src/Calc/Dates/Count.antt =====
-- What the two conversions compute, step by step.
use Prim.Native.Nat.{◌-◌}
use yspot.Prelude.{ℕ, ◌+◌, ◌*◌, ◌/◌, ◌≡◌, refl, ltb, leb, if◌then◌else◌}
use yspot.Calc.Dates.{Date, civil_from_days}

-- The steps from a number of days to a date.
pub record Steps (n era doe yoe doy mp : ℕ) (t : Date) : Type 0 where
  pub at_era : n / 146097 ≡ era
  pub in_era : n - era * 146097 ≡ doe
  pub at_year : (doe - doe / 1460 + doe / 36524 - doe / 146096) / 365 ≡ yoe
  pub in_year : doe - (365 * yoe + yoe / 4 - yoe / 100) ≡ doy
  pub at_month : (5 * doy + 2) / 153 ≡ mp
  pub in_month : doy - (153 * mp + 2) / 5 + 1 ≡ t.day
  pub month : (if ltb mp 10 then mp + 3 else mp - 9) ≡ t.month
  pub year : (if leb t.month 2 then yoe + era * 400 + 1 else yoe + era * 400) ≡ t.year

pub civil_from_days_lem :
    (z n era doe yoe doy mp : ℕ) (t : Date)
    → z + 719468 ≡ n
    → Steps n era doe yoe doy mp t
    → civil_from_days z ≡ t
unfolding civil_from_days
civil_from_days_lem z n era doe yoe doy mp t e s =
    rw (e, s.at_era, s.in_era, s.at_year, s.in_year, s.at_month, s.in_month, s.month, s.year) refl
