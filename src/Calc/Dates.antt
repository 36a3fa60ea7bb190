-- ===== src/Calc/Dates.antt =====
-- Dates: apps/shell/src-tauri/src/calc.rs (`parse_date`, `valid`, `days_in_month`, `days_from_civil` and
-- `civil_from_days`). A text is the list of its characters. Every date that is counted is valid or a year off
-- one, so its year is not negative; a day that is turned into a date is not before 1970, as in `today_civil`.
pub mod Count
pub mod RoundTrip
pub mod Tomorrow
use Prim.Native.Nat.{◌-◌}
use yspot.Prelude.{
  ℕ, zero, suc, ◌+◌, ◌*◌, ◌/◌, ◌%◌, ◌^◌, Bool, true, false, not, ◌&&◌, ◌||◌, List, [], ◌∷◌, Option,
  none, some, ltb, leb, ◌==◌, if◌then◌else◌, ◌>>=◌,
}

pub record Date : Type 0 where
  pub year : ℕ
  pub month : ℕ
  pub day : ℕ

-- A whole number.
pub data ℤ : Type 0 where
  pos : ℕ → ℤ
  -- `negsuc n` is `- (n + 1)`
  negsuc : ℕ → ℤ

abbrev pub minus : ℕ → ℕ → ℤ
minus a b = if leb b a then pos (a - b) else negsuc (b - a - 1)

abbrev pub is_leap : ℕ → Bool
is_leap y = y % 4 == 0 && not (y % 100 == 0) || y % 400 == 0

unfoldable pub days_in_month : ℕ → ℕ → ℕ
days_in_month y m =
    if m == 1 || m == 3 || m == 5 || m == 7 || m == 8 || m == 10 || m == 12
    then 31
    else if m == 4 || m == 6 || m == 9 || m == 11
    then 30
    else if is_leap y
    then 29
    else 28

unfoldable pub valid : Date → Bool
unfolding days_in_month
valid t =
    if not (leb 1 t.month && leb t.month 12) || t.day == 0 || not (leb 1 t.year && leb t.year 9999)
    then false
    else leb t.day (days_in_month t.year t.month)

-- The days from 0000-03-01 on: `era * 146_097 + doe`.
unfoldable pub day_number : Date → ℕ
day_number t =
    let y = if leb t.month 2 then t.year - 1 else t.year in
    let era = y / 400 in
    let yoe = y - era * 400 in
    let mp = (t.month + 9) % 12 in
    let doy = (153 * mp + 2) / 5 + t.day - 1 in
    let doe = yoe * 365 + yoe / 4 - yoe / 100 + doy in era * 146097 + doe

unfoldable pub days_from_civil : Date → ℤ
unfolding day_number
days_from_civil t = minus (day_number t) 719468

unfoldable pub civil_from_days : ℕ → Date
civil_from_days z =
    let n = z + 719468 in
    let era = n / 146097 in
    let doe = n - era * 146097 in
    let yoe = (doe - doe / 1460 + doe / 36524 - doe / 146096) / 365 in
    let y = yoe + era * 400 in
    let doy = doe - (365 * yoe + yoe / 4 - yoe / 100) in
    let mp = (5 * doy + 2) / 153 in
    let d = doy - (153 * mp + 2) / 5 + 1 in
    let m = if ltb mp 10 then mp + 3 else mp - 9 in
    record { year = if leb m 2 then y + 1 else y; month = m; day = d }
