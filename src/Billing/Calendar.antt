-- ===== src/Billing/Calendar.antt =====
-- What `addMonths` and `stateForDate` compute.
use hosting_control_panel.Common.{
  ℕ, ◌+◌, ◌/◌, ◌%◌, ◌≤◌, ◌<◌, ◌≡◌, ◌↔◌, refl, true, Option, none, some, arith,
}
use hosting_control_panel.Billing.Dates.{
  Date, last_day, later, base_date, month_index, add_months, active, reminder, grace, suspended,
  state_for_date,
}

-- A day that the calendar has.
pub record IsDate (d : Date) : Type 0 where
  pub month_low : 1 ≤ d.month
  pub month_high : d.month ≤ 12
  pub day_low : 1 ≤ d.day
  pub day_high : d.day ≤ last_day d.year d.month

last_day_bounds : (y m : ℕ) → (28 ≤ last_day y m) × (last_day y m ≤ 31)
unfolding last_day
last_day_bounds y m = ground arith

base_date-IsDate :
    (today : Date) (date : Option Date)
    → IsDate today
    → ((d : Date) → date ≡ some d → IsDate d)
    → IsDate (base_date date today)
unfolding base_date
base_date-IsDate today none t h = t
base_date-IsDate today (some d) t h = ground (arith, h d refl)

-- A renewal ends on a day that the calendar has, in the month that lies so many months after the later of
-- the old end and today: on the same day of the month where that month has it, and on its last day
-- otherwise.
pub add_months_date :
    (date : Option Date) (months : ℕ) (today : Date)
    → IsDate today
    → ((d : Date) → date ≡ some d → IsDate d)
    → IsDate (add_months date months today)
      × (month_index (add_months date months today) ≡ month_index (base_date date today) + months)
      × ((base_date date today).day
            ≤ last_day (add_months date months today).year (add_months date months today).month
          → (add_months date months today).day ≡ (base_date date today).day)
      × (last_day (add_months date months today).year (add_months date months today).month
            < (base_date date today).day
          → (add_months date months today).day
            ≡ last_day (add_months date months today).year (add_months date months today).month)
unfolding add_months
add_months_date date months today t h =
    let base = base_date date today in
    let valid : IsDate base = base_date-IsDate today date t h in
    let index = month_index base + months in
    let bounds = last_day_bounds (index / 12) (index % 12 + 1) in
    (
      record {
        month_low = omega arith;
        month_high = omega arith;
        day_low = omega (arith, valid.day_low, bounds);
        day_high = omega arith;
      },
      omega arith,
      λ small. omega arith,
      λ large. omega arith,
    )

later_of_index :
    (a b : Date) → IsDate a → IsDate b → month_index b < month_index a → later a b ≡ true
unfolding later
later_of_index a b va vb h = ground arith

base_date-index :
    (date : Option Date) (today : Date)
    → IsDate today
    → ((d : Date) → date ≡ some d → IsDate d)
    → (month_index today ≤ month_index (base_date date today))
      × ((d : Date) → date ≡ some d → month_index d ≤ month_index (base_date date today))
unfolding base_date later
base_date-index none today t h = (omega arith, λ d e. cc)
base_date-index (some current) today t h =
    (ground (arith, h current refl), λ d e. ground (arith, h current refl))

-- A paid renewal of a month or more always moves the end forward: past today, and past the old end.
pub add_months-later :
    (date : Option Date) (months : ℕ) (today : Date)
    → IsDate today
    → ((d : Date) → date ≡ some d → IsDate d)
    → 1 ≤ months
    → (later (add_months date months today) today ≡ true)
      × ((d : Date) → date ≡ some d → later (add_months date months today) d ≡ true)
add_months-later date months today t h pos =
    let (valid, index, _, _) = add_months_date date months today t h in
    let (past_today, past) = base_date-index date today t h in
    (
      later_of_index _ today valid t (omega arith),
      λ d e. later_of_index _ d valid (h d e) (omega (arith, past d e)),
    )

-- The thresholds in days: a service is active until the reminder days before its last paid day, in
-- reminder until that day, in grace for the grace days after it, and suspended from then on. A
-- manual state goes first, and a service with no paid day is exempt.
pub state_for_date_days :
    (paid reminder_days grace_days today : ℕ)
    → let s = state_for_date (some paid) reminder_days grace_days none today in
      ((s ≡ active) ↔ (today + reminder_days ≤ paid))
      × ((s ≡ reminder) ↔ ((paid < today + reminder_days) × (today ≤ paid)))
      × ((s ≡ grace) ↔ ((paid < today) × (today ≤ paid + grace_days)))
      × ((s ≡ suspended) ↔ (paid + grace_days < today))
unfolding state_for_date
state_for_date_days paid r g today = ground arith
