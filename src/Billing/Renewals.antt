-- ===== src/Billing/Renewals.antt =====
-- The offers of renewals that billing-service/app/lib/payment-reconciler.js finds missing.
pub mod Clear
use hosting_control_panel.Common.{
  ℕ, ◌+◌, ◌-◌, Bool, true, false, not, ◌&&◌, ◌||◌, Option, none, some, List, [], ◌∷◌, ◌++◌, map,
  find, select, take, length, ltb, if◌then◌else◌, Text, text, number_text,
}
use hosting_control_panel.Billing.Dates.{Standing, active, reminder, grace, suspended, exempt}
use hosting_control_panel.Billing.Payment.{
  Selection, hosting, domain, both, other, selection_eq, Payment, Service, Database, is_expired,
}
use hosting_control_panel.Billing.Ledger.{active_payment, latest_payment}

-- A service as `database.services({ now })` shows it.
pub record View : Type 0 where
  pub service : Service
  pub hosting_state : Standing
  pub domain_state : Standing

-- `DUE_STATES`
abbrev pub due_state : Standing → Bool
due_state s = elim s [ reminder ↦ true | grace ↦ true | suspended ↦ true | _ ↦ false ]

abbrev pub is_some {ℓ} : {A : Type ℓ} → Option A → Bool
is_some none = false
is_some (some _) = true

abbrev pub hosting_due : View → Bool
hosting_due v =
    due_state v.hosting_state
    && is_some v.service.hosting_paid_through
    && ltb 0 v.service.hosting_price_minor

abbrev pub domain_due : View → Bool
domain_due v =
    due_state v.domain_state
    && is_some v.service.domain_paid_through
    && ltb 0 v.service.domain_price_minor

-- `overlaps(left, right)`
unfoldable pub overlaps : Selection → Selection → Bool
unfolding selection_eq
overlaps left right = selection_eq left both || selection_eq right both || selection_eq left right

pub data OfferAction : Type 0 where
  to_block to_refresh to_create : OfferAction

pub record Offer : Type 0 where
  pub service_id : Text
  pub host : Text
  pub selection : Selection
  pub action : OfferAction
  pub reason : Text
  pub amount_minor : ℕ
  pub currency : Text

-- The selections that are due and not open, by what is due and what is open.
unfoldable pub missing : Bool → Bool → Bool → Bool → Bool → List Selection
missing due_hosting due_domain open_hosting open_domain open_both =
    if open_both
    then []
    else if due_hosting && due_domain && not open_hosting && not open_domain
    then both ∷ []
    else (if due_hosting && not open_hosting then hosting ∷ [] else [])
      ++ (if due_domain && not open_domain then domain ∷ [] else [])

abbrev pub present : Option Payment → List Payment
present none = []
present (some p) = p ∷ []

-- The latest payment of each selection, of those that exist.
unfoldable pub latest : Database → Text → List Payment
unfolding latest_payment
latest db id =
    present (latest_payment db id hosting)
    ++ present (latest_payment db id domain)
    ++ present (latest_payment db id both)

abbrev selection_name : Selection → Text
selection_name hosting = text "hosting"
selection_name domain = text "domain"
selection_name both = text "both"
selection_name (other name) = name

abbrev pub price : Service → Selection → ℕ
price s hosting = s.hosting_price_minor
price s domain = s.domain_price_minor
price s _ = s.hosting_price_minor + s.domain_price_minor

abbrev conflicts : Selection → Payment → Bool
conflicts selection p =
    is_expired p.status
    && not (selection_eq p.selection selection)
    && overlaps p.selection selection

abbrev pub refreshes : Option Payment → OfferAction
refreshes none = to_create
refreshes (some p) = if is_expired p.status then to_refresh else to_create

unfoldable pub offer : List Payment → Service → Selection → Offer
unfolding find overlaps selection_eq text number_text
offer payments s selection =
    let conflicting = find (conflicts selection) payments in
    record {
      service_id = s.service_id;
      host = s.primary_domain;
      selection = selection;
      action = elim conflicting [
        | some _ ↦ to_block
        | none ↦ refreshes (find (λ p. selection_eq p.selection selection) payments)
      ];
      reason = elim conflicting [
        | none ↦ []
        | some p ↦
            text "Expired "
            ++ selection_name p.selection
            ++ text " order #"
            ++ number_text p.woo_order_id
            ++ text " overlaps this option"
      ];
      amount_minor = price s selection;
      currency = s.currency;
    }

-- The body of the loop of `preview`: the database, whose overdue payments the queries expire, and the
-- offers of one service.
unfoldable pub preview_service : Database → View → ℕ → Database × List Offer
unfolding active_payment missing latest offer
preview_service db v now =
    if not (hosting_due v) && not (domain_due v)
    then (db, [])
    else let id = v.service.service_id in
      let (db1, open_hosting) = active_payment db id hosting now in
      let (db2, open_domain) = active_payment db1 id domain now in
      let (db3, open_both) = active_payment db2 id both now in
      (
        db3,
        map (offer (latest db3 id) v.service) (
            missing (hosting_due v) (domain_due v) (is_some open_hosting) (is_some open_domain)
              (is_some open_both)),
      )

-- `preview(now)`
unfoldable pub preview : Database → List View → ℕ → Database × List Offer
unfolding preview_service
preview db [] now = (db, [])
preview db (v ∷ vs) now =
    let (db', offers) = preview_service db v now in
    let (last, more) = preview db' vs now in (last, offers ++ more)

abbrev pub acts : Offer → Bool
acts o = elim o.action [ to_block ↦ false | _ ↦ true ]

-- The offers that `run` works on, and how many it leaves for the next run.
unfoldable pub chosen : List Offer → List Offer × ℕ
unfolding select
chosen offers = let actionable = select acts offers in (take 10 actionable, length actionable - 10)
