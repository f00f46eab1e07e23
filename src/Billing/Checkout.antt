-- ===== src/Billing/Checkout.antt =====
-- `PaymentManager` of billing-service/app/lib/payments.js: a payment link is checked and drafted,
-- the shop makes an order, and the link is recorded. Other requests run while the shop is awaited.
use hosting_control_panel.Common.{
  lower, ℕ, ◌+◌, ◌*◌, Bool, true, false, not, ◌&&◌, ◌||◌, Option, none, some, [], ◌∷◌, ltb, leb,
  ◌==◌, is_empty, if◌then◌else◌, Text, text, text_eq, map, length,
}
use hosting_control_panel.Billing.Dates.{Date, add_months}
use hosting_control_panel.Billing.Payment.{
  Selection, hosting, domain, both, selection_eq, pending, Payment, Service, Database, Result, ok,
  err, ◌>>=◌, ◌>>◌, guard, or_fail, bad_request, not_found, conflict, server_error, is_pending,
  is_expired,
}
use hosting_control_panel.Billing.Ledger.{
  service, payment, active_payment, latest_payment, create_payment, cancel_payment,
  cancel_expired_payment, bounded_reason,
}

-- What a JSON request can hold where a number is expected: nothing, `null`, `""`, a natural number, or a
-- number that is none. Other texts, Booleans and lists are not modelled.
pub data Raw : Type 0 where
  absent null blank improper : Raw
  number : ℕ → Raw

-- The request: an absent text is empty.
pub record CreateInput : Type 0 where
  pub selection : Text
  pub replace_payment_id : Text
  pub hosting_months : Raw
  pub domain_months : Raw
  pub months : Raw
  pub hosting_amount_minor : Raw
  pub domain_amount_minor : Raw
  pub amount_minor : Raw

-- What `create` has decided when it turns to the shop.
pub record Draft : Type 0 where
  pub service_id : Text
  pub currency : Text
  pub selection : Selection
  pub hosting_months : ℕ
  pub domain_months : ℕ
  pub hosting_amount : ℕ
  pub domain_amount : ℕ
  pub resulting_hosting : Option Date
  pub resulting_domain : Option Date
  pub replaces : Option Payment

-- `String(input.selection || "hosting").toLowerCase()`, and `SELECTIONS.has(selection)`
unfoldable pub parse_selection : Text → Option Selection
unfolding text text_eq
parse_selection t =
    let s = map lower t in
    if is_empty t || text_eq s (text "hosting")
    then some hosting
    else if text_eq s (text "domain")
    then some domain
    else if text_eq s (text "both")
    then some both
    else none

abbrev pub includes_hosting : Selection → Bool
includes_hosting hosting = true
includes_hosting both = true
includes_hosting _ = false

abbrev pub includes_domain : Selection → Bool
includes_domain domain = true
includes_domain both = true
includes_domain _ = false

-- `integer(value, minimum, maximum, fallback)`
unfoldable pub integer : Raw → ℕ → ℕ → ℕ → Result ℕ
integer absent minimum maximum fallback = ok fallback
integer null minimum maximum fallback = ok fallback
integer blank minimum maximum fallback = ok fallback
integer improper minimum maximum fallback = err bad_request
integer (number value) minimum maximum fallback =
    if ltb value minimum || ltb maximum value then err bad_request else ok value

-- `a || b`
abbrev pub or_number : Raw → Raw → Raw
or_number absent other = other
or_number null other = other
or_number blank other = other
or_number improper other = improper
or_number (number n) other = if n == 0 then other else number n

-- `a ?? b`
abbrev pub given : Raw → Raw → Raw
given absent other = other
given null other = other
given blank other = blank
given improper other = improper
given (number n) other = number n

abbrev max_amount : ℕ
max_amount = 10000000000

-- A number that only counts when the selection includes it.
abbrev included : Bool → Result ℕ → Result ℕ
included true r = r
included false r = ok 0

-- The amounts under `input.amount_minor`, which only an absent one leaves alone.
unfoldable pub override_amounts : Selection → Raw → ℕ → ℕ → Result (ℕ × ℕ)
unfolding integer
override_amounts s absent h d = ok (h, d)
override_amounts s value h d = do
  amount ← integer value 1 10000000000 0
  elim s [
    | hosting ↦ ok (amount, d)
    | domain ↦ ok (h, amount)
    | _ ↦ if amount == h + d then ok (h, d) else err bad_request
  ]

pub record Terms : Type 0 where
  pub hosting_months : ℕ
  pub domain_months : ℕ
  pub hosting_amount : ℕ
  pub domain_amount : ℕ

-- The months and the amounts, from the values that the request and the service give for them.
unfoldable pub terms : Selection → Raw → Raw → Raw → Raw → Raw → Result Terms
unfolding integer override_amounts
terms selection hosting_term domain_term hosting_price domain_price override = do
  let h = includes_hosting selection
  let d = includes_domain selection
  hosting_months ← included h (integer hosting_term 1 120 0)
  domain_months ← included d (integer domain_term 1 120 0)
  hosting_amount ← included h (integer hosting_price 1 max_amount 0)
  domain_amount ← included d (integer domain_price 1 max_amount 0)
  amounts ← override_amounts selection override hosting_amount domain_amount
  ok (record {
    hosting_months = hosting_months;
    domain_months = domain_months;
    hosting_amount = amounts.0;
    domain_amount = amounts.1;
  })

-- The row that a request asks to replace: still pending, of this service and selection, and the
-- active one.
abbrev replaceable : Text → Selection → Option Payment → Payment → Bool
replaceable service_id s active p =
    text_eq p.service_id service_id
    && selection_eq p.selection s
    && is_pending p.status
    && elim active [ none ↦ false | some a ↦ text_eq a.payment_id p.payment_id ]

unfoldable pub replacement :
    Database → Text → Selection → Option Payment → Text → Result (Option Payment)
replacement db service_id s none [] = ok none
replacement db service_id s (some a) [] = err conflict
replacement db service_id s active (c ∷ cs) = do
  p ← or_fail (payment db (c ∷ cs)) conflict
  guard (replaceable service_id s active p) conflict
  ok (some p)

abbrev resulting : Bool → Option Date → ℕ → Date → Option Date
resulting false paid_through months today = none
resulting true paid_through months today = some (add_months paid_through months today)

-- The rest of `create` before the shop is asked, on the active row that it found.
unfoldable pub draft :
    Database → Service → Selection → Option Payment → CreateInput → Bool → Date → Result Draft
unfolding replacement terms
draft db s selection active input ready today = do
  replaces ← replacement db s.service_id selection active input.replace_payment_id
  t ←
      terms selection
        (or_number input.hosting_months (or_number input.months (number s.renewal_months)))
        (or_number input.domain_months (number s.domain_renewal_months))
        (given input.hosting_amount_minor (number s.hosting_price_minor))
        (given input.domain_amount_minor (number s.domain_price_minor)) input.amount_minor
  guard ready bad_request
  ok (record {
    service_id = s.service_id;
    currency = s.currency;
    selection = selection;
    hosting_months = t.hosting_months;
    domain_months = t.domain_months;
    hosting_amount = t.hosting_amount;
    domain_amount = t.domain_amount;
    resulting_hosting =
        resulting (includes_hosting selection) s.hosting_paid_through t.hosting_months today;
    resulting_domain =
        resulting (includes_domain selection) s.domain_paid_through t.domain_months today;
    replaces = replaces;
  })

-- `create` up to the first `await`. Looking for the active payment expires the overdue ones, which
-- stays done when the request then fails.
unfoldable pub begin_create :
    Database → Text → CreateInput → Bool → ℕ → Date → Database × Result Draft
unfolding service parse_selection
begin_create db service_id input ready now today = elim (service db service_id) [
  | none ↦ (db, err not_found)
  | some s ↦ if s.archived then (db, err bad_request) else elim (parse_selection input.selection) [
    | none ↦ (db, err bad_request)
    | some selection ↦
        let (db', active) = active_payment db s.service_id selection now in
        (db', draft db' s selection active input ready today)
  ]
]

-- What the shop and the random generator give.
pub record Order : Type 0 where
  pub payment_id : Text
  pub token_hash : Text
  pub nonce : Text
  pub order_id : ℕ
  pub order_key : Text
  pub checkout_url : Text

abbrev or_date : Option Date → Option Date → Option Date
or_date none b = b
or_date (some a) b = some a

abbrev pub payment_of : Draft → Order → ℕ → ℕ → Payment
payment_of d o link_hours now = record {
  payment_id = o.payment_id;
  service_id = d.service_id;
  token_hash = o.token_hash;
  nonce = o.nonce;
  woo_order_id = o.order_id;
  checkout_url = o.checkout_url;
  amount_minor = d.hosting_amount + d.domain_amount;
  currency = d.currency;
  months = if d.hosting_months == 0 then d.domain_months else d.hosting_months;
  resulting_paid_through = or_date d.resulting_hosting d.resulting_domain;
  selection = d.selection;
  hosting_months = d.hosting_months;
  domain_months = d.domain_months;
  resulting_hosting = d.resulting_hosting;
  resulting_domain = d.resulting_domain;
  status = pending;
  expires_at = now + link_hours * 3600000;
  paid_at = none;
  created_at = now;
  review_required = false;
  review_reason = [];
  review_opened_at = none;
  review_resolved_at = none;
}

-- `create` after the shop has made the order.
unfoldable pub complete_create : Database → Draft → Order → ℕ → Text → ℕ → Result Database
complete_create db d o link_hours actor now = do
  guard (leb 1 o.order_id && not (is_empty o.order_key)) server_error
  create_payment db (payment_of d o link_hours now) actor now

-- The shop's answer to a cancellation.
pub record OrderReply : Type 0 where
  pub id : ℕ
  pub status : Text

unfoldable pub confirms_cancel : OrderReply → Payment → Bool
unfolding text text_eq
confirms_cancel r p = (r.id == p.woo_order_id) && text_eq (map lower r.status) (text "cancelled")

-- `cancel(paymentId, reason, actor)`; the shop is asked between the checks and the update, and the
-- database may be another one by then.
unfoldable pub begin_cancel : Database → Text → Text → Result Payment
begin_cancel db id reason = do
  guard (leb 3 (length (bounded_reason reason))) bad_request
  p ← or_fail (payment db id) not_found
  guard (is_pending p.status) conflict
  ok p

unfoldable pub complete_cancel : Database → Payment → OrderReply → Text → Text → ℕ → Result Database
complete_cancel db p reply reason actor now = do
  guard (confirms_cancel reply p) server_error
  cancel_payment db p.payment_id (bounded_reason reason) actor now

-- `refreshExpired(serviceId, selection, actor)`, likewise; `create` follows when it succeeds.
unfoldable pub begin_refresh : Database → Text → Selection → ℕ → Database × Result Payment
begin_refresh db service_id selection now =
    let (db', active) = active_payment db service_id selection now in
    (
      db',
      or_fail (latest_payment db' service_id selection) conflict >>= λ p.
          guard (is_expired p.status) conflict >> ok p,
    )

unfoldable pub complete_refresh : Database → Payment → OrderReply → Text → ℕ → Result Database
complete_refresh db p reply actor now = do
  guard (confirms_cancel reply p) server_error
  cancel_expired_payment db p.payment_id actor now
