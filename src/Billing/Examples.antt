-- ===== src/Billing/Examples.antt =====
-- A service with one pending link, on which the theorems about the payments of billing-service are
-- applied.
use hosting_control_panel.Common.{
  All, ℕ, ◌+◌, ◌≤◌, ◌<◌, ◌≡◌, ◌≢◌, ◌⊎◌, refl, true, false, Option, none, some, [], ◌∷◌, text,
  length, text_eq, find, any, select, arith,
}
use hosting_control_panel.Billing.Dates.{
  grace, active, Date, last_day, base_date, month_index, add_months,
}
use hosting_control_panel.Billing.Calendar.{IsDate, add_months_date}
use hosting_control_panel.Billing.Payment.{hosting, both, pending, Payment, Service, Database, ok}
use hosting_control_panel.Billing.Ledger.{
  newest, active_payment, expire, update_where, service, create_payment, audit_entry,
}
use hosting_control_panel.Billing.Webhook.{
  Delivery, Reply, order_status, update_services, extended, process_webhook, dispatch, on_completed,
  settle, order_payment, outcome_text,
}
use hosting_control_panel.Billing.Settlement.{Entitled, webhook_once, webhook-Entitled}
use hosting_control_panel.Billing.Rows.{Evolved}
use hosting_control_panel.Billing.Lifecycle.{swept, Step-Evolved}
use hosting_control_panel.Billing.Checkout.{
  absent, null, blank, number, CreateInput, Draft, Order, Terms, terms, integer, override_amounts,
  parse_selection, replacement, draft, begin_create, complete_create,
}
use hosting_control_panel.Billing.Renewals.{View, preview}
use hosting_control_panel.Billing.Renewals.Clear.{IsClear, preview-IsClear}
use hosting_control_panel.Billing.Links.{open_links, IsPriced, terms-IsPriced, create_race}

abbrev leap_day_before : Date
leap_day_before = record { year = 2024; month = 1; day = 31 }

leap_day_before-IsDate : IsDate leap_day_before
unfolding last_day
leap_day_before-IsDate = ground arith

add_months_date_example :
    IsDate (add_months none 1 leap_day_before)
    × (month_index (add_months none 1 leap_day_before)
        ≡ month_index (base_date none leap_day_before) + 1)
    × (31 ≤ last_day 2024 2 → (add_months none 1 leap_day_before).day ≡ 31)
    × (last_day 2024 2 < 31 → (add_months none 1 leap_day_before).day ≡ last_day 2024 2)
unfolding add_months base_date
add_months_date_example = add_months_date none 1 leap_day_before leap_day_before-IsDate (λ d e. cc)

abbrev next_year : Option Date
next_year = some (record { year = 2025; month = 6; day = 1 })

abbrev link : Payment
link = record {
  payment_id = text "p";
  service_id = text "s";
  token_hash = text "h";
  nonce = text "n";
  woo_order_id = 7;
  checkout_url = text "https://shop.example/pay";
  amount_minor = 1200;
  currency = text "EUR";
  months = 12;
  resulting_paid_through = next_year;
  selection = hosting;
  hosting_months = 12;
  domain_months = 0;
  resulting_hosting = next_year;
  resulting_domain = none;
  status = pending;
  expires_at = 100;
  paid_at = none;
  created_at = 1;
  review_required = false;
  review_reason = [];
  review_opened_at = none;
  review_resolved_at = none;
}

abbrev customer : Service
customer = record {
  service_id = text "s";
  archived = false;
  location = text "local";
  currency = text "EUR";
  primary_domain = text "site.example";
  contact_email = text "a@site.example";
  hosting_paid_through = none;
  domain_paid_through = none;
  renewal_months = 12;
  domain_renewal_months = 12;
  hosting_price_minor = 1200;
  domain_price_minor = 1500;
  updated_at = 0;
}

abbrev books : Database
books = record {
  services = customer ∷ [];
  payments = link ∷ [];
  deliveries = [];
  events = [];
  audit = [];
}

abbrev order_paid : Delivery
order_paid = record {
  delivery_id = text "d";
  topic = text "order.updated";
  resource_id = 7;
  status = text "processing";
  total_minor = 1200;
  currency = text "EUR";
}

abbrev order_refunded : Delivery
order_refunded = record order_paid { status = text "refunded" }

-- The database and the reply after the order is paid.
books_after : (r : Database × Reply) × (process_webhook books order_paid 50 ≡ ok r)
unfolding process_webhook find order_payment order_status dispatch on_completed settle update_where
    update_services text text_eq outcome_text audit_entry
books_after = (_, refl)

webhook_once_example :
    process_webhook books_after.0.0 order_refunded 60
    ≡ ok (books_after.0.0, record { duplicate = true; result = books_after.0.1.result })
webhook_once_example = webhook_once books order_paid order_refunded 50 60 books_after.1 refl

webhook-Entitled_example :
    (books_after.0.0.services ≡ books.services)
    ⊎ ((p : Payment) × Entitled books order_paid p
        × (books_after.0.0.services ≡ update_services p.service_id (extended p 50) books.services))
webhook-Entitled_example = webhook-Entitled books order_paid 50 books_after.1

Step-Evolved_example : Evolved books.payments (expire books 200).payments
Step-Evolved_example = Step-Evolved {db = books} (tt, tt) (swept 200)

abbrev priced : Terms
priced = record {
  hosting_months = 12;
  domain_months = 24;
  hosting_amount = 1200;
  domain_amount = 1500;
}

number-null : number 2700 ≢ null
number-null e = absurd (cc (e))

number-blank : number 2700 ≢ blank
number-blank e = absurd (cc (e))

-- A price that is an empty text makes a link that costs nothing.
blank_price :
    terms hosting (number 12) (number 12) blank (number 1500) absent
    ≡ ok (record { hosting_months = 12; domain_months = 0; hosting_amount = 0; domain_amount = 0 })
unfolding terms integer override_amounts
blank_price = refl

terms-IsPriced_example : IsPriced both priced
unfolding terms integer override_amounts
terms-IsPriced_example =
    terms-IsPriced both 12 24 1200 1500 (number 2700) refl number-null number-blank refl

abbrev no_links : Database
no_links = record books { payments = [] }

abbrev today : Date
today = record { year = 2024; month = 6; day = 1 }

abbrev ask : CreateInput
ask = record {
  selection = [];
  replace_payment_id = [];
  hosting_months = absent;
  domain_months = absent;
  months = absent;
  hosting_amount_minor = absent;
  domain_amount_minor = absent;
  amount_minor = absent;
}

asked_first :
    (db : Database) × ((d : Draft) × (begin_create no_links (text "s") ask true 5 today
        ≡ (db, ok d)))
unfolding begin_create parse_selection active_payment expire newest draft replacement terms integer
    override_amounts service find select text text_eq update_where
asked_first = (_, (_, refl))

asked_second :
    (db : Database) × ((d : Draft) × (begin_create asked_first.0 (text "s") ask true 6 today
        ≡ (db, ok d)))
unfolding asked_first begin_create parse_selection active_payment expire newest draft replacement
    terms integer override_amounts service find select text text_eq update_where
asked_second = (_, (_, refl))

abbrev order_of : ℕ → Order
order_of n = record {
  payment_id = n ∷ [];
  token_hash = n ∷ [];
  nonce = n ∷ [];
  order_id = n;
  order_key = text "key";
  checkout_url = text "https://shop.example/pay";
}

recorded_first :
    (db : Database) × (complete_create asked_second.0 asked_first.1.0
        (order_of 1)
        72
        (text "admin")
        7
      ≡ ok db)
unfolding asked_first asked_second complete_create create_payment any service find text text_eq
recorded_first = (_, refl)

recorded_second :
    (db : Database) × (complete_create recorded_first.0 asked_second.1.0
        (order_of 2)
        72
        (text "admin")
        8
      ≡ ok db)
unfolding asked_first asked_second recorded_first complete_create create_payment any service find
    text text_eq
recorded_second = (_, refl)

create_race_example :
    length (open_links asked_first.1.0.service_id asked_first.1.0.selection recorded_second.0) ≡ 2
create_race_example =
    create_race no_links (text "s") ask ask true true 5 6 today today (order_of 1) (order_of 2) 72
      (text "admin") 7 8 refl refl refl asked_first.1.1 asked_second.1.1 recorded_first.1
      recorded_second.1

abbrev renewing : View
renewing = record {
  service = record customer { hosting_paid_through = next_year };
  hosting_state = grace;
  domain_state = active;
}

one_offer : length (preview no_links (renewing ∷ []) 5).1 ≡ 1
unfolding preview select
one_offer = refl

preview-IsClear_example : All (IsClear 5 (expire no_links 5)) (preview no_links (renewing ∷ []) 5).1
preview-IsClear_example = preview-IsClear no_links (renewing ∷ []) 5
