-- ===== src/Billing/Ledger.antt =====
-- The payment operations of billing-service/app/lib/database.js but for the webhook. A transaction
-- that throws leaves the database as it was.
use hosting_control_panel.Common.{
  ℕ, Bool, false, not, ◌&&◌, ◌||◌, Option, none, some, List, [], ◌∷◌, ◌++◌, find, select, any,
  length, take, leb, ◌==◌, if◌then◌else◌, Text, text, text_eq,
}
use hosting_control_panel.Billing.Validation.{bounded}
use hosting_control_panel.Billing.Payment.{
  Selection, selection_eq, PaymentStatus, pending, expired, cancelled, Payment, Service, AuditRow,
  on_service, Database, Result, ok, err, ◌>>=◌, ◌>>◌, guard, or_fail, bad_request, not_found,
  conflict, gone, server_error, is_pending, is_expired,
}

-- `UPDATE payments SET … WHERE …`
unfoldable pub update_where : (Payment → Bool) → (Payment → Payment) → List Payment → List Payment
update_where test f [] = []
update_where test f (p ∷ ps) = (if test p then f p else p) ∷ update_where test f ps

abbrev pub set_status : PaymentStatus → Payment → Payment
set_status s p = record p { status = s }

abbrev pub has_id : Text → Payment → Bool
has_id id p = text_eq p.payment_id id

-- `SELECT … FROM payments p JOIN services s … WHERE p.payment_id=?`
unfoldable pub payment : Database → Text → Option Payment
unfolding find
payment db id = find (has_id id) db.payments

unfoldable pub service : Database → Text → Option Service
unfolding find
service db id = find (λ s. text_eq s.service_id id) db.services

abbrev pub overdue : ℕ → Payment → Bool
overdue now p = is_pending p.status && leb p.expires_at now

-- `UPDATE payments SET status='expired' WHERE status='pending' AND expires_at<=?`
unfoldable pub expire : Database → ℕ → Database
unfolding update_where
expire db now = record db { payments = update_where (overdue now) (set_status expired) db.payments }

-- `ORDER BY created_at DESC LIMIT 1`
unfoldable pub newest : List Payment → Option Payment
newest [] = none
newest (p ∷ ps) = elim (newest ps) [
  | none ↦ some p
  | some q ↦ if leb q.created_at p.created_at then some p else some q
]

abbrev pub open_for : Text → Selection → Payment → Bool
open_for service_id selection p =
    text_eq p.service_id service_id && selection_eq p.selection selection && is_pending p.status

-- `activePayment(serviceId, selection, now)`: the database with its overdue rows expired, and the
-- newest pending row.
unfoldable pub active_payment : Database → Text → Selection → ℕ → Database × Option Payment
unfolding expire newest select
active_payment db service_id selection now =
    let db' = expire db now in (db', newest (select (open_for service_id selection) db'.payments))

-- `latestPayment(serviceId, selection)`
unfoldable pub latest_payment : Database → Text → Selection → Option Payment
unfolding newest select
latest_payment db service_id selection = newest (
    select (λ p. text_eq p.service_id service_id && selection_eq p.selection selection) db.payments)

-- `String(reason || "").replace(/[\r\n\t]+/g, " ").trim().slice(0, 500)` has three characters.
unfoldable pub bounded_reason : Text → Text
unfolding bounded
bounded_reason reason = bounded reason 500

-- `auditEntry(actor, action, target, …)`: the newest 5000 rows are kept.
unfoldable pub audit_entry : AuditRow → List AuditRow → List AuditRow
audit_entry row rows = take 5000 (row ∷ rows)

abbrev pub log : Text → Text → Text → ℕ → Payment → Database → Database
log actor action event_type now p db = record db {
  events =
      record {
        service_id = p.service_id;
        event_type = event_type;
        payment_id = p.payment_id;
        happened_at = now;
      }
      ∷ db.events;
  audit =
      audit_entry (record { actor = actor; action = action; target = on_service p.service_id })
        db.audit;
}

-- The `UNIQUE` and `PRIMARY KEY` columns of the table.
abbrev pub collides : Payment → Payment → Bool
collides p q =
    text_eq q.payment_id p.payment_id
    || text_eq q.token_hash p.token_hash
    || text_eq q.nonce p.nonce
    || (q.woo_order_id == p.woo_order_id)

-- `createPayment(payment, actor)`: the row is inserted as pending.
unfoldable pub create_payment : Database → Payment → Text → ℕ → Result Database
unfolding any text service find
create_payment db p actor now = do
  guard (not (any (collides p) db.payments)) server_error
  s ← or_fail (service db p.service_id) server_error
  let row = record p {
    status = pending;
    created_at = now;
    paid_at = none;
    review_required = false;
    review_reason = [];
    review_opened_at = none;
    review_resolved_at = none;
  }
  ok (
      log actor (text "payment.link_create") (text "payment.link_created") now row
        (record db { payments = db.payments ++ row ∷ [] }))

-- `cancelPayment(paymentId, reason, actor)`
unfoldable pub cancel_payment : Database → Text → Text → Text → ℕ → Result Database
unfolding bounded_reason payment update_where text
cancel_payment db id reason actor now = do
  guard (leb 3 (length (bounded_reason reason))) bad_request
  p ← or_fail (payment db id) not_found
  guard (is_pending p.status) conflict
  ok (
      log actor (text "payment.cancel") (text "payment.cancelled") now p (record db {
        payments =
            update_where (λ q. has_id p.payment_id q && is_pending q.status) (set_status cancelled)
              db.payments;
      }))

-- `cancelExpiredPayment(paymentId, reason, actor)`
unfoldable pub cancel_expired_payment : Database → Text → Text → ℕ → Result Database
unfolding payment update_where text
cancel_expired_payment db id actor now = do
  p ← or_fail (payment db id) not_found
  guard (is_expired p.status) conflict
  ok (
      log actor (text "payment.expired_order_cancel") (text "payment.expired_order_cancelled") now p
        (record db {
          payments =
              update_where (λ q. has_id p.payment_id q && is_expired q.status)
                (set_status cancelled) db.payments;
        }))

-- `resolvePayment(hash, now)`: the row that the token's hash finds, and what the call leaves behind.
unfoldable pub resolve_payment : Database → Text → ℕ → Database × Result Text
unfolding find update_where
resolve_payment db hash now = elim (find (λ p. text_eq p.token_hash hash) db.payments) [
  | none ↦ (db, err not_found)
  | some p ↦
      if not (is_pending p.status)
      then (db, err gone)
      else if leb p.expires_at now
      then (
        record db {
          payments =
              update_where (λ q. has_id p.payment_id q && is_pending q.status) (set_status expired)
                db.payments;
        },
        err gone,
      )
      else (db, ok p.checkout_url)
]

-- `resolvePublicPayment(serviceId, paymentId, now)`
unfoldable pub resolve_public_payment : Database → Text → Text → ℕ → Database × Result Text
unfolding find update_where
resolve_public_payment db service_id id now =
    elim (find (λ p. has_id id p && text_eq p.service_id service_id) db.payments) [
      | none ↦ (db, err not_found)
      | some p ↦
          if not (is_pending p.status) || leb p.expires_at now
          then (
            (if is_pending p.status
                then record db {
                  payments = update_where (has_id p.payment_id) (set_status expired) db.payments;
                }
                else db),
            err gone,
          )
          else (db, ok p.checkout_url)
    ]

-- `resolvePaymentReview(paymentId, reason, actor)`
unfoldable pub resolve_payment_review : Database → Text → Text → Text → ℕ → Result Database
unfolding bounded_reason payment update_where text
resolve_payment_review db id reason actor now = do
  guard (leb 3 (length (bounded_reason reason))) bad_request
  p ← or_fail (payment db id) not_found
  guard p.review_required conflict
  ok (
      log actor (text "payment.review_resolve") (text "payment.review_resolved") now p (record db {
        payments =
            update_where (λ q. has_id p.payment_id q && q.review_required)
              (λ q. record q { review_required = false; review_resolved_at = some now })
              db.payments;
      }))
