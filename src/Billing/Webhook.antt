-- ===== src/Billing/Webhook.antt =====
-- `processWebhook` of billing-service/app/lib/database.js: a delivery of the shop about an order.
use hosting_control_panel.Common.{
  number_text, ℕ, Bool, true, false, not, ◌&&◌, ◌||◌, Option, none, some, List, [], ◌∷◌, ◌++◌, find,
  is_empty, ◌==◌, if◌then◌else◌, Text, text, text_eq,
}
use hosting_control_panel.Billing.Payment.{
  Selection, hosting, domain, both, other, PaymentStatus, pending, paid, expired, cancelled, review,
  on_order, Payment, Service, Database, Result, ok, err, ◌>>=◌, server_error, is_pending, is_paid,
  is_cancelled,
}
use hosting_control_panel.Billing.Ledger.{update_where, has_id, audit_entry}

pub record Delivery : Type 0 where
  pub delivery_id : Text
  pub topic : Text
  pub resource_id : ℕ
  pub status : Text
  pub total_minor : ℕ
  pub currency : Text

-- The statuses of an order that the code tells apart.
pub data OrderStatus : Type 0 where
  completed closed ignored : OrderStatus

-- `["processing", "completed"].includes(status)` and `["refunded", "cancelled", "failed"]…`
unfoldable pub order_status : Text → OrderStatus
unfolding text text_eq
order_status s =
    if text_eq s (text "processing") || text_eq s (text "completed")
    then completed
    else if text_eq s (text "refunded") || text_eq s (text "cancelled") || text_eq s (text "failed")
    then closed
    else ignored

pub data Outcome : Type 0 where
  was_ignored amount_mismatch already_paid review_required was_paid cancel_confirmed : Outcome

unfoldable pub outcome_text : Outcome → Text
unfolding text
outcome_text was_ignored = text "ignored"
outcome_text amount_mismatch = text "amount_mismatch"
outcome_text already_paid = text "already_paid"
outcome_text review_required = text "review_required"
outcome_text was_paid = text "paid"
outcome_text cancel_confirmed = text "cancel_confirmed"

-- `requireReview(reason, disablePending)`
unfoldable pub require_review : Payment → Text → Bool → ℕ → Database → Database
unfolding update_where
require_review p reason disable_pending now db = record db {
  payments =
      update_where (has_id p.payment_id)
        (λ q. record q {
          review_required = true;
          review_reason = reason;
          review_opened_at = some now;
          review_resolved_at = none;
          status = if disable_pending && is_pending q.status then review else q.status;
        })
        db.payments;
}

abbrev pub add_event : Text → Payment → ℕ → Database → Database
add_event event_type p now db = record db {
  events =
      record {
        service_id = p.service_id;
        event_type = event_type;
        payment_id = p.payment_id;
        happened_at = now;
      }
      ∷ db.events;
}

-- `UPDATE services SET … WHERE service_id=?`
unfoldable pub update_services : Text → (Service → Service) → List Service → List Service
update_services id f [] = []
update_services id f (s ∷ ss) =
    (if text_eq s.service_id id then f s else s) ∷ update_services id f ss

-- The dates that a payment's selection moves.
abbrev pub extended : Payment → ℕ → Service → Service
extended p now s = elim p.selection [
  | hosting ↦ record s { hosting_paid_through = p.resulting_hosting; updated_at = now }
  | domain ↦ record s { domain_paid_through = p.resulting_domain; updated_at = now }
  | both ↦ record s {
    hosting_paid_through = p.resulting_hosting;
    domain_paid_through = p.resulting_domain;
    updated_at = now;
  }
  | other _ ↦ s
]

abbrev pub is_known : Selection → Bool
is_known (other _) = false
is_known _ = true

-- The branch that takes the payment, or throws on a selection that it does not know.
unfoldable pub settle : Payment → ℕ → Database → Result Database
unfolding update_where update_services text
settle p now db =
    if is_known p.selection
    then ok (
        add_event (text "payment.completed") p now (record db {
          payments =
              update_where (has_id p.payment_id)
                (λ q. record q { status = paid; paid_at = some now }) db.payments;
          services = update_services p.service_id (extended p now) db.services;
        }))
    else err server_error

status_text : PaymentStatus → Text
status_text pending = text "pending"
status_text paid = text "paid"
status_text expired = text "expired"
status_text cancelled = text "cancelled"
status_text review = text "review"

unfoldable pub mismatch_reason : Payment → Delivery → Text
unfolding text
mismatch_reason p d =
    text "WooCommerce reported "
    ++ (number_text d.total_minor
        ++ (text " "
            ++ ((if is_empty d.currency then text "unknown" else d.currency)
                ++ (text "; expected "
                    ++ (number_text p.amount_minor ++ (text " " ++ p.currency))))))

unfoldable pub late_reason : Payment → Delivery → Text
unfolding status_text text
late_reason p d =
    text "WooCommerce reported "
    ++ (d.status ++ (text " after local payment status " ++ status_text p.status))

-- The event of a completion that comes after the payment has ended otherwise.
abbrev pub noted_late : Payment → ℕ → Database → Database
noted_late p now db = add_event (text "payment.late_completion") p now db

unfoldable pub on_completed : Payment → Delivery → ℕ → Database → Result (Database × Outcome)
unfolding require_review settle text mismatch_reason late_reason
on_completed p d now db =
    if not (d.total_minor == p.amount_minor) || not (text_eq d.currency p.currency)
    then ok (require_review p (mismatch_reason p d) true now db, amount_mismatch)
    else if is_paid p.status
    then ok (db, already_paid)
    else if not (is_pending p.status)
    then ok (require_review p (late_reason p d) false now (noted_late p now db), review_required)
    else (settle p now db >>= λ db'. ok (db', was_paid))

abbrev pub noted_closed : Payment → Delivery → ℕ → Database → Database
noted_closed p d now db = add_event (text "payment." ++ d.status) p now db

unfoldable pub on_closed : Payment → Delivery → ℕ → Database → Database × Outcome
unfolding require_review text_eq late_reason
on_closed p d now db =
    let noted = noted_closed p d now db in
    if text_eq d.status (text "cancelled") && is_cancelled p.status
    then (noted, cancel_confirmed)
    else (require_review p (late_reason p d) true now noted, review_required)

-- What the delivery does to the order's payment, if there is one.
unfoldable pub dispatch :
    Option Payment → OrderStatus → Delivery → ℕ → Database → Result (Database × Outcome)
unfolding on_completed on_closed
dispatch none s d now db = ok (db, was_ignored)
dispatch (some p) completed d now db = on_completed p d now db
dispatch (some p) closed d now db = ok (on_closed p d now db)
dispatch (some p) ignored d now db = ok (db, was_ignored)

-- The reply, `{ duplicate, result }`.
pub record Reply : Type 0 where
  pub duplicate : Bool
  pub result : Text

abbrev pub finish : Delivery → ℕ → Database × Outcome → Database × Reply
finish d now (db, outcome) = (
  record db {
    deliveries =
        record {
          delivery_id = d.delivery_id;
          topic = d.topic;
          resource_id = d.resource_id;
          result = outcome_text outcome;
          created_at = now;
        }
        ∷ db.deliveries;
    audit =
        audit_entry
          (record {
            actor = text "woocommerce-webhook";
            action = text "payment.webhook";
            target = on_order d.resource_id;
          })
          db.audit;
  },
  record { duplicate = false; result = outcome_text outcome },
)

-- `SELECT * FROM payments WHERE woo_order_id=?`
unfoldable pub order_payment : Database → ℕ → Option Payment
unfolding find
order_payment db order = find (λ p. p.woo_order_id == order) db.payments

-- `processWebhook(delivery)`
unfoldable pub process_webhook : Database → Delivery → ℕ → Result (Database × Reply)
unfolding find order_payment order_status dispatch outcome_text text audit_entry
process_webhook db d now = elim (find (λ r. text_eq r.delivery_id d.delivery_id) db.deliveries) [
  | some r ↦ ok (db, record { duplicate = true; result = r.result })
  | none ↦ dispatch (order_payment db d.resource_id) (order_status d.status) d now db >>= λ done.
      ok (finish d now done)
]
