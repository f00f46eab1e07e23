-- ===== src/Billing/Links.antt =====
-- How many open payment links a service has, and what a link asks for.
use hosting_control_panel.Common.{
  ℕ, ◌+◌, ◌≤◌, ◌≡◌, ◌≢◌, refl, sym, ap, ◌∙◌, find_holds, text_eq, text_eq_sound, Bool, true, false,
  Option, none, some, List, [], ◌∷◌, ◌++◌, select, length, Option-cases, inl, inr, Text,
  text_eq_refl, arith,
}
use hosting_control_panel.Billing.Dates.{Date}
use hosting_control_panel.Billing.Payment.{
  Selection, hosting, domain, both, other, selection_eq, Payment, Service, Database, Result, ok,
  >>=-eq-ok, guard, bad_request,
}
use hosting_control_panel.Billing.Webhook.{is_known}
use hosting_control_panel.Billing.Ledger.{
  open_for, newest, active_payment, expire, create_payment, service,
}
use hosting_control_panel.Billing.Checkout.{
  Raw, absent, null, blank, improper, number, CreateInput, Draft, Order, Terms, terms,
  includes_hosting, includes_domain, replacement, draft, parse_selection, begin_create, or_number,
  given, payment_of, complete_create,
}

-- The pending payments of a service for a selection.
abbrev pub open_links : Text → Selection → Database → List Payment
open_links service_id s db = select (open_for service_id s) db.payments

newest-none : (ps : List Payment) → newest ps ≡ none → ps ≡ []
unfolding newest
newest-none [] e = refl
newest-none (p ∷ ps) e = ground arith

-- A link asks for at least one minor unit for each part that its selection includes and nothing for
-- the others, and renews an included part by 1 to 120 months.
pub record IsPriced (selection : Selection) (t : Terms) : Type 0 where
  pub hosting_price : includes_hosting selection ≡ true → 1 ≤ t.hosting_amount
  pub hosting_free : includes_hosting selection ≡ false → t.hosting_amount ≡ 0
  pub domain_price : includes_domain selection ≡ true → 1 ≤ t.domain_amount
  pub domain_free : includes_domain selection ≡ false → t.domain_amount ≡ 0
  pub hosting_term :
      includes_hosting selection ≡ true → (1 ≤ t.hosting_months) × (t.hosting_months ≤ 120)
  pub domain_term :
      includes_domain selection ≡ true → (1 ≤ t.domain_months) × (t.domain_months ≤ 120)
  pub bounded : t.hosting_amount + t.domain_amount ≤ 20000000000

-- When the months and the prices are numbers, and the total is absent or a number, the terms of a link
-- that is drafted are in order: every included part costs something and has a term of 1 to 120 months,
-- and an excluded part costs nothing. The selection is one that a request can name.
pub terms-IsPriced :
    (selection : Selection) (hm dm hp dp : ℕ) (override : Raw) {t : Terms}
    → is_known selection ≡ true
    → override ≢ null
    → override ≢ blank
    → terms selection (number hm) (number dm) (number hp) (number dp) override ≡ ok t
    → IsPriced selection t
unfolding terms
terms-IsPriced s hm dm hp dp null k a b e = absurd (a refl)
terms-IsPriced s hm dm hp dp blank k a b e = absurd (b refl)
terms-IsPriced hosting hm dm hp dp improper k a b e = absurd (ground arith)
terms-IsPriced domain hm dm hp dp improper k a b e = absurd (ground arith)
terms-IsPriced both hm dm hp dp improper k a b e = absurd (ground arith)
terms-IsPriced hosting hm dm hp dp absent k a b e = ground arith
terms-IsPriced hosting hm dm hp dp (number n) k a b e = ground arith
terms-IsPriced domain hm dm hp dp absent k a b e = ground arith
terms-IsPriced domain hm dm hp dp (number n) k a b e = ground arith
terms-IsPriced both hm dm hp dp absent k a b e = ground arith
terms-IsPriced both hm dm hp dp (number n) k a b e = ground arith
terms-IsPriced (other t) hm dm hp dp o k a b e = cc

selection_eq_refl : (s : Selection) → selection_eq s s ≡ true
unfolding selection_eq
selection_eq_refl hosting = refl
selection_eq_refl domain = refl
selection_eq_refl both = refl
selection_eq_refl (other t) = text_eq_refl t

length-select_snoc :
    (p : Payment → Bool) (xs : List Payment) (x : Payment)
    → p x ≡ true
    → length (select p (xs ++ x ∷ [])) ≡ length (select p xs) + 1
unfolding select
length-select_snoc p [] x t = rw t
length-select_snoc p (y ∷ ys) x t = ground (arith, length-select_snoc p ys x t)

complete_create-rows :
    (db : Database) (d : Draft) (o : Order) (link_hours : ℕ) (actor : Text) (now : ℕ)
    {db' : Database}
    → complete_create db d o link_hours actor now ≡ ok db'
    → db'.payments ≡ db.payments ++ payment_of d o link_hours now ∷ []
unfolding complete_create create_payment
complete_create-rows db d o link_hours actor now e = ground arith

-- Recording a link adds one open link for the draft's service and selection.
length-complete_create :
    (db : Database) (d : Draft) (o : Order) (link_hours : ℕ) (actor : Text) (now : ℕ)
    {db' : Database}
    → complete_create db d o link_hours actor now ≡ ok db'
    → length (open_links d.service_id d.selection db')
      ≡ length (open_links d.service_id d.selection db) + 1
length-complete_create db d o link_hours actor now e =
    ap (λ (ps : List Payment). length (select (open_for d.service_id d.selection) ps))
      (complete_create-rows db d o link_hours actor now e)
    ∙ (length-select_snoc (open_for d.service_id d.selection) db.payments
        (payment_of d o link_hours now)
        (rw (text_eq_refl d.service_id, selection_eq_refl d.selection)))

draft-new :
    (db : Database) (s : Service) (selection : Selection) (active : Option Payment)
    (input : CreateInput) (ready : Bool) (today : Date) {d : Draft}
    → input.replace_payment_id ≡ []
    → draft db s selection active input ready today ≡ ok d
    → (active ≡ none) × (d.service_id ≡ s.service_id) × (d.selection ≡ selection)
unfolding draft
draft-new db s selection active input ready today r e =
    let (replaces, free, e1) =
      >>=-eq-ok (replacement db s.service_id selection active input.replace_payment_id) _ e in
    let (t, priced, e2) =
      >>=-eq-ok
        (terms selection
          (or_number input.hosting_months (or_number input.months (number s.renewal_months)))
          (or_number input.domain_months (number s.domain_renewal_months))
          (given input.hosting_amount_minor (number s.hosting_price_minor))
          (given input.domain_amount_minor (number s.domain_price_minor)) input.amount_minor)
        _ e1 in
    let (u, set_up, e3) = >>=-eq-ok (guard ready bad_request) _ e2 in
    (
      replaces_nothing active (rw r at free),
      ap (λ (x : Draft). x.service_id) (sym (ok-injective e3)),
      ap (λ (x : Draft). x.selection) (sym (ok-injective e3)),
    )
  where
    ok-injective : {a b : Draft} → Result.ok a ≡ ok b → a ≡ b
    ok-injective h = cc

    replaces_nothing :
        (active : Option Payment) {o : Option Payment}
        → replacement db s.service_id selection active [] ≡ ok o
        → active ≡ none
    replaces_nothing none h = refl
    replaces_nothing (some a) h = absurd (unfold replacement in cc (h))

service-named :
    (db : Database) (id : Text) {s : Service} → service db id ≡ some s → s.service_id ≡ id
unfolding service
service-named db id {s} e =
    text_eq_sound s.service_id id
      (find_holds (λ (x : Service). text_eq x.service_id id) db.services e)

begin_create-inverts :
    (db : Database) (service_id : Text) (input : CreateInput) (ready : Bool) (now : ℕ)
    (today : Date) {db' : Database} {d : Draft}
    → begin_create db service_id input ready now today ≡ (db', ok d)
    → (s : Service) × (selection : Selection) × (db' ≡ expire db now)
      × (s.service_id ≡ service_id)
      × (parse_selection input.selection ≡ some selection)
      × (draft db' s selection (newest (open_links s.service_id selection db')) input ready today
          ≡ ok d)
unfolding begin_create active_payment
begin_create-inverts db service_id input ready now today e =
    elim (Option-cases (service db service_id)) [
      | inl missing ↦ absurd (ground (arith, missing))
      | inr (s, found) ↦ elim (Option-cases (parse_selection input.selection)) [
        | inl unknown ↦ absurd (ground (arith, found, unknown))
        | inr (selection, known) ↦ (
          s,
          selection,
          ground (arith, found, known),
          service-named db service_id found,
          known,
          ground (arith, found, known),
        )
      ]
    ]

-- What a draft that replaces nothing is about.
begin_create-about :
    (db : Database) (service_id : Text) (input : CreateInput) (ready : Bool) (now : ℕ)
    (today : Date) {db' : Database} {d : Draft}
    → input.replace_payment_id ≡ []
    → begin_create db service_id input ready now today ≡ (db', ok d)
    → (d.service_id ≡ service_id) × (parse_selection input.selection ≡ some d.selection)
begin_create-about db service_id input ready now today {db'} {d} r e =
    let (s, selection, _, named, known, made) =
      begin_create-inverts db service_id input ready now today e in
    let (_, same_service, same_selection) = draft-new db' s selection _ input ready today r made in
    (same_service ∙ named, known ∙ ap (λ x. some x) (sym same_selection))

-- A request that names no payment to replace is drafted only if the service has no open link for
-- the selection, after those that are overdue were expired.
pub begin_create-none_open :
    (db : Database) (service_id : Text) (input : CreateInput) (ready : Bool) (now : ℕ)
    (today : Date) {db' : Database} {d : Draft}
    → input.replace_payment_id ≡ []
    → begin_create db service_id input ready now today ≡ (db', ok d)
    → open_links d.service_id d.selection db' ≡ []
begin_create-none_open db service_id input ready now today {db'} {d} r e =
    let (s, selection, _, _, _, made) =
      begin_create-inverts db service_id input ready now today e in
    let (none_active, same_service, same_selection) =
      draft-new db' s selection _ input ready today r made in
    ap (λ (i : Text). open_links i d.selection db') same_service
    ∙ ap (λ (x : Selection). open_links s.service_id x db') same_selection
    ∙ newest-none _ none_active

-- The defect: two requests for one service and selection, neither of which names a payment to replace,
-- are both drafted before a link is recorded, and both links are recorded. Then the service has two open
-- links for the selection, though each request had looked for an open one.
pub create_race :
    (db : Database) (service_id : Text) (input later : CreateInput) (ready ready' : Bool)
    (now now' : ℕ) (today today' : Date) {db1 db2 db3 db4 : Database} {d e : Draft} (o p : Order)
    (link_hours : ℕ) (actor : Text) (answered answered' : ℕ)
    → input.replace_payment_id ≡ []
    → later.replace_payment_id ≡ []
    → later.selection ≡ input.selection
    → begin_create db service_id input ready now today ≡ (db1, ok d)
    → begin_create db1 service_id later ready' now' today' ≡ (db2, ok e)
    → complete_create db2 d o link_hours actor answered ≡ ok db3
    → complete_create db3 e p link_hours actor answered' ≡ ok db4
    → length (open_links d.service_id d.selection db4) ≡ 2
create_race db service_id input later ready ready' now now' today today' {db1} {db2} {db3} {db4} {d}
      {e} o p link_hours actor answered answered' r r' named begun begun' first second =
    let (mine, known) = begin_create-about db service_id input ready now today r begun in
    let (its, known') = begin_create-about db1 service_id later ready' now' today' r' begun' in
    let same_service : e.service_id ≡ d.service_id = its ∙ sym mine in
    let same_selection : e.selection ≡ d.selection =
      some-injective (sym known' ∙ ap parse_selection named ∙ known) in
    let closed : open_links d.service_id d.selection db2 ≡ [] =
      rw (same_service, same_selection) at
        (begin_create-none_open db1 service_id later ready' now' today' r' begun') in
    let one = length-complete_create db2 d o link_hours actor answered first in
    let two : length (open_links d.service_id d.selection db4)
        ≡ length (open_links d.service_id d.selection db3) + 1 =
      rw (same_service, same_selection) at
        (length-complete_create db3 e p link_hours actor answered' second) in
    omega (arith, one, two, ap length closed)
  where
    some-injective : {a b : Selection} → some a ≡ some b → a ≡ b
    some-injective h = cc
