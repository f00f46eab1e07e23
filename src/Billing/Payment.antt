-- ===== src/Billing/Payment.antt =====
-- The tables of billing-service/app/lib/database.js that payments touch, and the ways a call fails.
use hosting_control_panel.Common.{
  ◌≡◌, refl, ℕ, Bool, true, false, Option, none, some, List, Text, text_eq,
}
use hosting_control_panel.Billing.Dates.{Date}

-- A cell that the schema leaves open is `other`.
pub data Selection : Type 0 where
  hosting domain both : Selection
  other : Text → Selection

pub data PaymentStatus : Type 0 where
  pending paid expired cancelled review : PaymentStatus

unfoldable pub selection_eq : Selection → Selection → Bool
unfolding text_eq
selection_eq hosting hosting = true
selection_eq domain domain = true
selection_eq both both = true
selection_eq (other a) (other b) = text_eq a b
selection_eq _ _ = false

-- A row of `payments`. Times are in milliseconds.
pub record Payment : Type 0 where
  pub payment_id : Text
  pub service_id : Text
  pub token_hash : Text
  pub nonce : Text
  pub woo_order_id : ℕ
  pub checkout_url : Text
  pub amount_minor : ℕ
  pub currency : Text
  pub months : ℕ
  pub resulting_paid_through : Option Date
  pub selection : Selection
  pub hosting_months : ℕ
  pub domain_months : ℕ
  pub resulting_hosting : Option Date
  pub resulting_domain : Option Date
  pub status : PaymentStatus
  pub expires_at : ℕ
  pub paid_at : Option ℕ
  pub created_at : ℕ
  pub review_required : Bool
  pub review_reason : Text
  pub review_opened_at : Option ℕ
  pub review_resolved_at : Option ℕ

-- The columns of `services` that payments read or write.
pub record Service : Type 0 where
  pub service_id : Text
  pub archived : Bool
  pub location : Text
  pub currency : Text
  pub primary_domain : Text
  pub contact_email : Text
  pub hosting_paid_through : Option Date
  pub domain_paid_through : Option Date
  pub renewal_months : ℕ
  pub domain_renewal_months : ℕ
  pub hosting_price_minor : ℕ
  pub domain_price_minor : ℕ
  pub updated_at : ℕ

-- A row of `webhook_deliveries`.
pub record Delivered : Type 0 where
  pub delivery_id : Text
  pub topic : Text
  pub resource_id : ℕ
  pub result : Text
  pub created_at : ℕ

-- A row of `events` or `audit`: what happened, to which service or resource, about which payment.
pub record Event : Type 0 where
  pub service_id : Text
  pub event_type : Text
  pub payment_id : Text
  pub happened_at : ℕ

pub data Target : Type 0 where
  on_service : Text → Target
  on_order : ℕ → Target
  on_id : Text → Target

pub record AuditRow : Type 0 where
  pub actor : Text
  pub action : Text
  pub target : Target

pub record Database : Type 0 where
  pub services : List Service
  pub payments : List Payment
  pub deliveries : List Delivered
  pub events : List Event
  pub audit : List AuditRow

pub data Failure : Type 0 where
  bad_request not_found conflict gone unauthorized server_error : Failure

pub data Result {ℓ} (A : Type ℓ) : Type ℓ where
  ok : A → Result A
  err : Failure → Result A

abbrev pub or_fail {ℓ} : {A : Type ℓ} → Option A → Failure → Result A
or_fail none failure = err failure
or_fail (some found) failure = ok found

abbrev pub guard : Bool → Failure → Result (Unit {0})
guard false failure = err failure
guard true failure = ok tt

infixl 5 ◌>>=◌
abbrev pub ◌>>=◌ {ℓ κ} : {A : Type ℓ} {B : Type κ} → Result A → (A → Result B) → Result B
err failure >>= next = err failure
ok value >>= next = next value

infixl 5 ◌>>◌
abbrev pub ◌>>◌ {ℓ} : {B : Type ℓ} → Result (Unit {0}) → Result B → Result B
check >> rest = check >>= λ _. rest

abbrev pub is_pending : PaymentStatus → Bool
is_pending pending = true
is_pending _ = false

abbrev pub is_paid : PaymentStatus → Bool
is_paid paid = true
is_paid _ = false

abbrev pub is_expired : PaymentStatus → Bool
is_expired expired = true
is_expired _ = false

abbrev pub is_cancelled : PaymentStatus → Bool
is_cancelled cancelled = true
is_cancelled _ = false

-- A chain that succeeds: its first part does, and the rest does from there.
pub >>=-eq-ok {ℓ κ} :
    {A : Type ℓ} {B : Type κ} (check : Result A) (next : A → Result B) {reply : B}
    → (check >>= next) ≡ ok reply
    → (value : A) × (check ≡ ok value) × (next value ≡ ok reply)
>>=-eq-ok (err failure) next e = absurd (cc)
>>=-eq-ok (ok value) next e = (value, refl, e)
