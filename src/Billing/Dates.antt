-- ===== src/Billing/Dates.antt =====
-- Dates of the billing service: `addMonths` of billing-service/app/lib/payments.js and
-- `stateForDate` of billing-service/app/lib/validation.js.
use hosting_control_panel.Common.{
  ℕ, ◌+◌, ◌-◌, ◌*◌, ◌/◌, ◌%◌, min, Bool, not, ◌&&◌, ◌||◌, Option, none, some, ltb, leb, ◌==◌,
  if◌then◌else◌,
}

-- A day of the calendar in UTC, months counted from 1.
pub record Date : Type 0 where
  pub year : ℕ
  pub month : ℕ
  pub day : ℕ

abbrev pub is_leap : ℕ → Bool
is_leap y = (y % 4 == 0) && (not (y % 100 == 0) || (y % 400 == 0))

-- `new Date(Date.UTC(year, month, 0)).getUTCDate()`
unfoldable pub last_day : ℕ → ℕ → ℕ
last_day y m =
    if (m == 4) || (m == 6) || (m == 9) || (m == 11)
    then 30
    else if m == 2
    then 28 + (if is_leap y then 1 else 0)
    else 31

-- `a > b`, on days.
unfoldable pub later : Date → Date → Bool
later a b =
    ltb b.year a.year
    || ((b.year == a.year) && (ltb b.month a.month || ((b.month == a.month) && ltb b.day a.day)))

-- `current > today ? current : today`, where an empty date stands for today.
unfoldable pub base_date : Option Date → Date → Date
unfolding later
base_date none today = today
base_date (some current) today = if later current today then current else today

-- The months since the year 0, by which `Date.UTC` carries into the year.
abbrev pub month_index : Date → ℕ
month_index d = d.year * 12 + (d.month - 1)

-- `addMonths(dateValue, months, now)`
unfoldable pub add_months : Option Date → ℕ → Date → Date
unfolding base_date last_day
add_months date months today =
    let base = base_date date today in
    let index = month_index base + months in
    let y = index / 12 in
    let m = index % 12 + 1 in record { year = y; month = m; day = min base.day (last_day y m) }

abbrev pub day_ms : ℕ
day_ms = 86400000

pub data Standing : Type 0 where
  active reminder grace suspended exempt : Standing

-- `stateForDate(paidThrough, settings, manualState, now)` on the days since the epoch. The paid day
-- counts up to its last second, and today from its midnight; `paid - reminder` is on the other side
-- of the comparison, since it may be negative.
unfoldable pub state_for_date : Option ℕ → ℕ → ℕ → Option Standing → ℕ → Standing
state_for_date paid_through reminder_days grace_days (some manual) today_day = manual
state_for_date none reminder_days grace_days none today_day = exempt
state_for_date (some paid_day) reminder_days grace_days none today_day =
    let paid = paid_day * 86400000 + 86399000 in
    let today = today_day * 86400000 in
    if leb (today + reminder_days * 86400000) paid
    then active
    else if leb today paid
    then reminder
    else if leb today (paid + grace_days * 86400000)
    then grace
    else suspended
