-- ===== src/Billing/Settlement.antt =====
-- What a webhook delivery may do, and that it does it once.
use hosting_control_panel.Common.{
  ℕ, ◌≡◌, ◌⊎◌, refl, sym, ap, ◌∙◌, Bool, true, Option, none, some, find, inl, inr, Option-cases,
  Text, text_eq, text_eq_sound, text_eq_refl, arith,
}
use hosting_control_panel.Billing.Payment.{
  pending, Payment, Database, Result, ok, ◌>>=◌, >>=-eq-ok, Delivered,
}
use hosting_control_panel.Billing.Webhook.{
  Delivery, OrderStatus, completed, closed, ignored, order_status, Outcome, outcome_text, Reply,
  dispatch, on_completed, on_closed, settle, require_review, extended, update_services, finish,
  order_payment, process_webhook,
}

abbrev pub delivered_as : Text → Delivered → Bool
delivered_as id r = text_eq r.delivery_id id

abbrev pub again : Database → Text → Result (Database × Reply)
again db result = ok (db, record { duplicate = true; result = result })

abbrev pub already : Database → Delivered → Result (Database × Reply)
already db row = again db row.result

pub already_inverts :
    (db : Database) (row : Delivered) {db' : Database} {r : Reply}
    → already db row ≡ ok (db', r)
    → (db' ≡ db) × (row.result ≡ r.result)
already_inverts db row e = ground arith

-- A delivery seen before is passed over.
pub process_webhook-seen :
    (db : Database) (d : Delivery) (now : ℕ) (row : Delivered)
    → find (delivered_as d.delivery_id) db.deliveries ≡ some row
    → process_webhook db d now ≡ already db row
unfolding process_webhook
process_webhook-seen db d now row seen = rw (seen, process_webhook)

-- Any other is dispatched, and recorded with its outcome.
pub process_webhook-new :
    (db : Database) (d : Delivery) (now : ℕ)
    → find (delivered_as d.delivery_id) db.deliveries ≡ none
    → process_webhook db d now ≡ (
        dispatch (order_payment db d.resource_id) (order_status d.status) d now db >>= λ done.
        ok (finish d now done))
unfolding process_webhook
process_webhook-new db d now unseen = rw (unseen, process_webhook)

find-finish :
    (d : Delivery) (now : ℕ) (done : Database × Outcome)
    → (row : Delivered) × (find (delivered_as d.delivery_id) (finish d now done).0.deliveries
        ≡ some row)
      × (row.result ≡ (finish d now done).1.result)
unfolding find
find-finish d now done = (
  record {
    delivery_id = d.delivery_id;
    topic = d.topic;
    resource_id = d.resource_id;
    result = outcome_text done.1;
    created_at = now;
  },
  rw (text_eq_refl d.delivery_id),
  refl,
)

remembered :
    (db : Database) (d : Delivery) (now : ℕ) {db' : Database} {r : Reply}
    → process_webhook db d now ≡ ok (db', r)
    → (row : Delivered) × (find (delivered_as d.delivery_id) db'.deliveries ≡ some row)
      × (row.result ≡ r.result)
remembered db d now {db'} {r} e =
    elim (Option-cases (find (delivered_as d.delivery_id) db.deliveries)) [
      | inr (row, seen) ↦
          let (same, result) =
            already_inverts db row (sym (process_webhook-seen db d now row seen) ∙ e) in
          (row, rw same seen, result)
      | inl unseen ↦
          let (done, _, made) =
            >>=-eq-ok (dispatch (order_payment db d.resource_id) (order_status d.status) d now db)
              (λ done. ok (finish d now done)) (sym (process_webhook-new db d now unseen) ∙ e) in
          let (row, found, same) = find-finish d now done in
          (row, ground (arith, found), ground (arith, same))
    ]

-- A delivery that was processed is remembered: when it comes again, whatever it says then, the reply
-- is the first result, marked as a duplicate, and the database stays as it is.
pub webhook_once :
    (db : Database) (d d' : Delivery) (now now' : ℕ) {db' : Database} {r : Reply}
    → process_webhook db d now ≡ ok (db', r)
    → d'.delivery_id ≡ d.delivery_id
    → process_webhook db' d' now' ≡ ok (db', record { duplicate = true; result = r.result })
webhook_once db d d' now now' {db'} {r} e same =
    let (row, found, result) = remembered db d now e in
    process_webhook-seen db' d' now' row (rw same found) ∙ ap (again db') result

-- What entitles a delivery to move a service's dates.
pub record Entitled (db : Database) (d : Delivery) (p : Payment) : Type 0 where
  pub found : order_payment db d.resource_id ≡ some p
  pub is_open : p.status ≡ pending
  pub amount : d.total_minor ≡ p.amount_minor
  pub currency : d.currency ≡ p.currency
  pub order : order_status d.status ≡ completed

on_completed-services :
    (db : Database) (p : Payment) (d : Delivery) (now : ℕ) {db' : Database} {o : Outcome}
    → on_completed p d now db ≡ ok (db', o)
    → (db'.services ≡ db.services)
      ⊎ ((p.status ≡ pending)
          × (d.total_minor ≡ p.amount_minor)
          × (d.currency ≡ p.currency)
          × (db'.services ≡ update_services p.service_id (extended p now) db.services))
unfolding on_completed settle require_review
on_completed-services db p d now e = ground (arith, text_eq_sound d.currency p.currency)

dispatch-services :
    (db : Database) (found : Option Payment) (s : OrderStatus) (d : Delivery) (now : ℕ)
    {db' : Database} {o : Outcome}
    → dispatch found s d now db ≡ ok (db', o)
    → (db'.services ≡ db.services)
      ⊎ ((p : Payment) × (found ≡ some p)
          × (p.status ≡ pending)
          × (d.total_minor ≡ p.amount_minor)
          × (d.currency ≡ p.currency)
          × (s ≡ completed)
          × (db'.services ≡ update_services p.service_id (extended p now) db.services))
unfolding dispatch on_closed require_review
dispatch-services db none s d now e = inl (ground arith)
dispatch-services db (some p) completed d now e = elim (on_completed-services db p d now e) [
  | inl same ↦ inl same
  | inr (waits, amount, currency, moved) ↦ inr (p, refl, waits, amount, currency, refl, moved)
]
dispatch-services db (some p) closed d now e = inl (ground arith)
dispatch-services db (some p) ignored d now e = inl (ground arith)

-- A delivery changes no service unless it is entitled to: its order has a payment that is pending,
-- the amount and the currency are the payment's, and the order is processing or completed. Then
-- exactly the payment's service gets the dates that were stored with the payment.
pub webhook-Entitled :
    (db : Database) (d : Delivery) (now : ℕ) {db' : Database} {r : Reply}
    → process_webhook db d now ≡ ok (db', r)
    → (db'.services ≡ db.services)
      ⊎ ((p : Payment) × Entitled db d p
          × (db'.services ≡ update_services p.service_id (extended p now) db.services))
webhook-Entitled db d now {db'} {r} e =
    elim (Option-cases (find (delivered_as d.delivery_id) db.deliveries)) [
      | inr (row, seen) ↦
          let (same, result) =
            already_inverts db row (sym (process_webhook-seen db d now row seen) ∙ e) in
          inl (ap (λ (x : Database). x.services) same)
      | inl unseen ↦
          let (done, went, made) =
            >>=-eq-ok (dispatch (order_payment db d.resource_id) (order_status d.status) d now db)
              (λ done. ok (finish d now done)) (sym (process_webhook-new db d now unseen) ∙ e) in
          elim (dispatch-services db (order_payment db d.resource_id) (order_status d.status) d now
            went) [
              | inl same ↦ inl (ground (arith, same))
              | inr (p, found, waits, amount, currency, order, moved) ↦ inr (
                p,
                record {
                  found = found;
                  is_open = waits;
                  amount = amount;
                  currency = currency;
                  order = order;
                },
                ground (arith, moved),
              )
            ]
    ]
