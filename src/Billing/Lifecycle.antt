-- ===== src/Billing/Lifecycle.antt =====
-- The life of a payment: which statuses follow which, over every operation on the table.
use hosting_control_panel.Common.{
  ℕ, ◌≡◌, ◌⊎◌, refl, sym, subst, ◌∙◌, Bool, true, false, ◌&&◌, Option, none, some, List, [], ◌∷◌,
  ◌++◌, find, ◌==◌, Bool-cases, Option-cases, inl, inr, Memᴰ, Text, text, text_eq, leb, arith,
}
use hosting_control_panel.Billing.Payment.{
  PaymentStatus, pending, paid, expired, cancelled, Payment, Database, Result, ok, is_pending,
  is_expired, is_cancelled, >>=-eq-ok,
}
use hosting_control_panel.Billing.Rows.{
  follows, Moved, Evolved, Keyed, follows_refl, Evolved-refl, Evolved-append, Evolved-update_where,
  find-mem, Evolved-at,
}
use hosting_control_panel.Billing.Ledger.{
  update_where, set_status, has_id, overdue, payment, expire, create_payment, cancel_payment,
  cancel_expired_payment, resolve_payment, resolve_public_payment, resolve_payment_review,
}
use hosting_control_panel.Billing.Settlement.{
  delivered_as, already_inverts, process_webhook-seen, process_webhook-new,
}
use hosting_control_panel.Billing.Webhook.{
  Delivery, OrderStatus, completed, closed, ignored, order_status, Outcome, Reply, dispatch,
  noted_late, noted_closed, mismatch_reason, late_reason, on_completed, on_closed, settle,
  require_review, finish, order_payment, process_webhook,
}

-- The operations of the table.
pub data Step (db : Database) : Database → Type 0 where
  created :
      (p : Payment) (actor : Text) (now : ℕ) {db' : Database}
      → create_payment db p actor now ≡ ok db'
      → Step db db'
  was_cancelled :
      (id reason actor : Text) (now : ℕ) {db' : Database}
      → cancel_payment db id reason actor now ≡ ok db'
      → Step db db'
  retired :
      (id actor : Text) (now : ℕ) {db' : Database}
      → cancel_expired_payment db id actor now ≡ ok db'
      → Step db db'
  reviewed :
      (id reason actor : Text) (now : ℕ) {db' : Database}
      → resolve_payment_review db id reason actor now ≡ ok db'
      → Step db db'
  swept : (now : ℕ) → Step db (expire db now)
  resolved : (hash : Text) (now : ℕ) → Step db (resolve_payment db hash now).0
  resolved_public :
      (service_id id : Text) (now : ℕ) → Step db (resolve_public_payment db service_id id now).0
  delivered :
      (d : Delivery) (now : ℕ) {db' : Database} {r : Reply}
      → process_webhook db d now ≡ ok (db', r)
      → Step db db'

reviewed_payment :
    (p : Payment) (reason : Text) (disable : Bool) (now : ℕ) (db base : Database)
    → Keyed base.payments
    → Memᴰ p base.payments
    → db.payments ≡ base.payments
    → Evolved base.payments (require_review p reason disable now db).payments
unfolding require_review
reviewed_payment p reason disable now db base k here same = rw same (
    Evolved-at base.payments p _ k here (record {
      payment_id = refl;
      order = refl;
      amount = refl;
      currency = refl;
      arrow = ground arith;
    }))

settled_payment :
    (db : Database) (p : Payment) (now : ℕ) {db' : Database}
    → Keyed db.payments
    → Memᴰ p db.payments
    → p.status ≡ pending
    → settle p now db ≡ ok db'
    → Evolved db.payments db'.payments
unfolding settle
settled_payment db p now {db'} k here waits e =
    let paid_now =
      Evolved-at db.payments p (λ q. record q { status = paid; paid_at = some now }) k here
        (record {
          payment_id = refl;
          order = refl;
          amount = refl;
          currency = refl;
          arrow = rw waits;
        }) in
    subst (Evolved db.payments) (ground arith) paid_now

-- What a completed order comes to: nothing, a review of the payment, or its settlement.
on_completed-cases :
    (db : Database) (p : Payment) (d : Delivery) (now : ℕ) {db' : Database} {o : Outcome}
    → on_completed p d now db ≡ ok (db', o)
    → (db' ≡ db)
      ⊎ (db' ≡ require_review p (mismatch_reason p d) true now db)
      ⊎ (db' ≡ require_review p (late_reason p d) false now (noted_late p now db))
      ⊎ ((p.status ≡ pending) × (settle p now db ≡ ok db'))
unfolding on_completed
on_completed-cases db p d now e = ground arith

on_completed-Evolved :
    (db : Database) (p : Payment) (d : Delivery) (now : ℕ) {db' : Database} {o : Outcome}
    → Keyed db.payments
    → Memᴰ p db.payments
    → on_completed p d now db ≡ ok (db', o)
    → Evolved db.payments db'.payments
on_completed-Evolved db p d now k here e = elim (on_completed-cases db p d now e) [
  | inl same ↦ rw same (Evolved-refl db.payments)
  | inr (inl opened) ↦ rw opened (reviewed_payment p _ true now db db k here refl)
  | inr (inr (inl opened)) ↦
      rw opened (reviewed_payment p _ false now (noted_late p now db) db k here refl)
  | inr (inr (inr (waits, made))) ↦ settled_payment db p now k here waits made
]

on_closed-Evolved :
    (db : Database) (p : Payment) (d : Delivery) (now : ℕ)
    → Keyed db.payments
    → Memᴰ p db.payments
    → Evolved db.payments (on_closed p d now db).0.payments
unfolding on_closed
on_closed-Evolved db p d now k here =
    elim (Bool-cases (text_eq d.status (text "cancelled") && is_cancelled p.status)) [
      | inl expected ↦ rw expected (Evolved-refl db.payments)
      | inr other ↦
          rw other (reviewed_payment p _ true now (noted_closed p d now db) db k here refl)
    ]

abbrev returns : Database → Outcome → Result (Database × Outcome)
returns db o = ok (db, o)

ok_first : {db db' : Database} {o o' : Outcome} → returns db o ≡ returns db' o' → db' ≡ db
ok_first e = ground arith

dispatch-Evolved :
    (db : Database) (found : Option Payment) (s : OrderStatus) (d : Delivery) (now : ℕ)
    {db' : Database} {o : Outcome}
    → Keyed db.payments
    → ((p : Payment) → found ≡ some p → Memᴰ p db.payments)
    → dispatch found s d now db ≡ ok (db', o)
    → Evolved db.payments db'.payments
unfolding dispatch
dispatch-Evolved db none s d now k m e = rw (ok_first e) (Evolved-refl db.payments)
dispatch-Evolved db (some p) completed d now k m e = on_completed-Evolved db p d now k (m p refl) e
dispatch-Evolved db (some p) closed d now k m e =
    rw (ok_first e) (on_closed-Evolved db p d now k (m p refl))
dispatch-Evolved db (some p) ignored d now k m e = rw (ok_first e) (Evolved-refl db.payments)

process_webhook-cases :
    (db : Database) (d : Delivery) (now : ℕ) {db' : Database} {r : Reply}
    → process_webhook db d now ≡ ok (db', r)
    → (db' ≡ db)
      ⊎ ((done : Database × Outcome) × (dispatch
              (order_payment db d.resource_id)
              (order_status d.status)
              d
              now
              db
            ≡ ok done)
          × (db'.payments ≡ done.0.payments))
process_webhook-cases db d now {db'} {r} e =
    elim (Option-cases (find (delivered_as d.delivery_id) db.deliveries)) [
      | inr (row, seen) ↦
          inl (already_inverts db row (sym (process_webhook-seen db d now row seen) ∙ e)).0
      | inl unseen ↦
          let (done, went, made) =
            >>=-eq-ok (dispatch (order_payment db d.resource_id) (order_status d.status) d now db)
              (λ done. ok (finish d now done)) (sym (process_webhook-new db d now unseen) ∙ e) in
          inr (done, went, ground (arith, made))
    ]

order_payment-mem :
    (db : Database) (order : ℕ) (p : Payment) → order_payment db order ≡ some p → Memᴰ p db.payments
unfolding order_payment
order_payment-mem db order p e = find-mem (λ q. q.woo_order_id == order) db.payments e

webhook-Evolved :
    (db : Database) (d : Delivery) (now : ℕ) {db' : Database} {r : Reply}
    → Keyed db.payments
    → process_webhook db d now ≡ ok (db', r)
    → Evolved db.payments db'.payments
webhook-Evolved db d now k e = elim (process_webhook-cases db d now e) [
  | inl same ↦ rw same (Evolved-refl db.payments)
  | inr (done, went, rows) ↦ rw rows (
      dispatch-Evolved db (order_payment db d.resource_id) (order_status d.status) d now k
        (order_payment-mem db d.resource_id) went)
]

same_sale : (p : Payment) (s : PaymentStatus) → follows p.status s ≡ true → Moved p (set_status s p)
same_sale p s h = record {
  payment_id = refl;
  order = refl;
  amount = refl;
  currency = refl;
  arrow = h;
}

pending_follows : (s t : PaymentStatus) → is_pending s ≡ true → follows s t ≡ true
pending_follows pending t h = refl
pending_follows _ t h = cc

expired_follows : (s : PaymentStatus) → is_expired s ≡ true → follows s cancelled ≡ true
expired_follows expired h = refl
expired_follows _ h = cc

-- `UPDATE … SET status=? WHERE … AND status='pending'`
Evolved-pending :
    (ps : List Payment) (test : Payment → Bool) (s : PaymentStatus)
    → Evolved ps (update_where (λ q. test q && is_pending q.status) (set_status s) ps)
Evolved-pending ps test s =
    Evolved-update_where _ (set_status s) ps
      (λ p m t. same_sale p s (pending_follows p.status s (ground arith)))

expire-Evolved : (db : Database) (now : ℕ) → Evolved db.payments (expire db now).payments
unfolding expire
expire-Evolved db now =
    Evolved-update_where (overdue now) (set_status expired) db.payments
      (λ p m t. same_sale p expired (pending_follows p.status expired (ground arith)))

resolve_payment-Evolved :
    (db : Database) (hash : Text) (now : ℕ)
    → Evolved db.payments (resolve_payment db hash now).0.payments
unfolding resolve_payment
resolve_payment-Evolved db hash now =
    elim (Option-cases (find (λ (p : Payment). text_eq p.token_hash hash) db.payments)) [
      | inl missing ↦ rw (missing, resolve_payment) (Evolved-refl db.payments)
      | inr (p, found) ↦
          rw (found, resolve_payment)
            (elim (Bool-cases (is_pending p.status)) [
              | inr ended ↦ rw ended (Evolved-refl db.payments)
              | inl waits ↦ rw waits (elim (Bool-cases (leb p.expires_at now)) [
                | inl late ↦ rw late (Evolved-pending db.payments (has_id p.payment_id) expired)
                | inr timely ↦ rw timely (Evolved-refl db.payments)
              ])
            ])
    ]

resolve_public_payment-Evolved :
    (db : Database) (service_id id : Text) (now : ℕ)
    → Keyed db.payments
    → Evolved db.payments (resolve_public_payment db service_id id now).0.payments
unfolding resolve_public_payment
resolve_public_payment-Evolved db service_id id now k =
    let test : Payment → Bool = λ p. has_id id p && text_eq p.service_id service_id in
    elim (Option-cases (find test db.payments)) [
      | inl missing ↦ rw (missing, resolve_public_payment) (Evolved-refl db.payments)
      | inr (p, found) ↦
          rw (found, resolve_public_payment)
            (elim (Bool-cases (is_pending p.status)) [
              | inr ended ↦ rw ended (Evolved-refl db.payments)
              | inl waits ↦
                  let expires =
                    Evolved-at db.payments p (set_status expired) k
                      (find-mem test db.payments found)
                      (same_sale p expired (pending_follows p.status expired waits)) in
                  rw waits (elim (Bool-cases (leb p.expires_at now)) [
                    | inl late ↦ rw late expires
                    | inr timely ↦ rw timely (Evolved-refl db.payments)
                  ])
            ])
    ]

cancel_payment-rows :
    (db : Database) (id reason actor : Text) (now : ℕ) {db' : Database}
    → cancel_payment db id reason actor now ≡ ok db'
    → (p : Payment) × (db'.payments
        ≡ update_where
            (λ q. has_id p.payment_id q && is_pending q.status)
            (set_status cancelled)
            db.payments)
unfolding cancel_payment
cancel_payment-rows db id reason actor now e = elim (Option-cases (payment db id)) [
  | inl missing ↦ absurd (ground (arith, missing))
  | inr (p, found) ↦ (p, ground (arith, found))
]

cancel_expired_payment-rows :
    (db : Database) (id actor : Text) (now : ℕ) {db' : Database}
    → cancel_expired_payment db id actor now ≡ ok db'
    → (p : Payment) × (db'.payments
        ≡ update_where
            (λ q. has_id p.payment_id q && is_expired q.status)
            (set_status cancelled)
            db.payments)
unfolding cancel_expired_payment
cancel_expired_payment-rows db id actor now e = elim (Option-cases (payment db id)) [
  | inl missing ↦ absurd (ground (arith, missing))
  | inr (p, found) ↦ (p, ground (arith, found))
]

abbrev closed_review : ℕ → Payment → Payment
closed_review now q = record q { review_required = false; review_resolved_at = some now }

resolve_payment_review-rows :
    (db : Database) (id reason actor : Text) (now : ℕ) {db' : Database}
    → resolve_payment_review db id reason actor now ≡ ok db'
    → (p : Payment) × (db'.payments
        ≡ update_where
            (λ q. has_id p.payment_id q && q.review_required)
            (closed_review now)
            db.payments)
unfolding resolve_payment_review
resolve_payment_review-rows db id reason actor now e = elim (Option-cases (payment db id)) [
  | inl missing ↦ absurd (ground (arith, missing))
  | inr (p, found) ↦ (p, ground (arith, found))
]

create_payment-rows :
    (db : Database) (p : Payment) (actor : Text) (now : ℕ) {db' : Database}
    → create_payment db p actor now ≡ ok db'
    → (q : Payment) × (q.status ≡ pending) × (db'.payments ≡ db.payments ++ q ∷ [])
unfolding create_payment
create_payment-rows db p actor now e = (
  record p {
    status = pending;
    created_at = now;
    paid_at = none;
    review_required = false;
    review_reason = [];
    review_opened_at = none;
    review_resolved_at = none;
  },
  refl,
  ground arith,
)

-- Every operation on the table of payments keeps each row's sale (its id, order, amount and
-- currency) and moves its status along the diagram only; the rows that it adds are pending. The
-- payment ids are distinct, as the primary key has it.
pub Step-Evolved :
    {db db' : Database} → Keyed db.payments → Step db db' → Evolved db.payments db'.payments
Step-Evolved {db} k (created p actor now e) =
    let (q, new, rows) = create_payment-rows db p actor now e in
    rw rows (Evolved-append db.payments (q ∷ []) (new, tt))
Step-Evolved {db} k (was_cancelled id reason actor now e) =
    let (p, rows) = cancel_payment-rows db id reason actor now e in
    rw rows (Evolved-pending db.payments (has_id p.payment_id) cancelled)
Step-Evolved {db} k (retired id actor now e) =
    let (p, rows) = cancel_expired_payment-rows db id actor now e in
    rw rows (
      Evolved-update_where _ (set_status cancelled) db.payments
        (λ q m t. same_sale q cancelled (expired_follows q.status (ground arith))))
Step-Evolved {db} k (reviewed id reason actor now e) =
    let (p, rows) = resolve_payment_review-rows db id reason actor now e in
    rw rows (
      Evolved-update_where _ (closed_review now) db.payments (λ q m t. record {
        payment_id = refl;
        order = refl;
        amount = refl;
        currency = refl;
        arrow = follows_refl q.status;
      }))
Step-Evolved {db} k (swept now) = expire-Evolved db now
Step-Evolved {db} k (resolved hash now) = resolve_payment-Evolved db hash now
Step-Evolved {db} k (resolved_public service_id id now) =
    resolve_public_payment-Evolved db service_id id now k
Step-Evolved {db} k (delivered d now e) = webhook-Evolved db d now k e
