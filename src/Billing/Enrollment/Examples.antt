-- ===== src/Billing/Enrollment/Examples.antt =====
-- A shared website whose enrollment code is issued, redeemed and revoked, on which the theorems about
-- enrollment are applied.
use hosting_control_panel.Common.{
  ◌≡◌, refl, Bool, false, none, some, [], ◌∷◌, ℕ, Text, text, text_eq, any, find, select,
  valid_host,
}
use hosting_control_panel.Billing.Payment.{Service, Result, ok, err, conflict}
use hosting_control_panel.Billing.Validation.{domain}
use hosting_control_panel.Billing.Checkout.{absent, integer}
use hosting_control_panel.Billing.Enrollment.Tables.{
  Registry, Installation, service, enrollment_active, active_installation, audited, update_codes,
  update_installations,
}
use hosting_control_panel.Billing.Enrollment.Codes.{
  create_code_for, create_enrollment_code, redeemable, consume, redeem, exchange_row,
  exchange_enrollment_code,
}
use hosting_control_panel.Billing.Enrollment.Credentials.{
  revoke_installation_credential, authenticate_installation, still_served,
}
use hosting_control_panel.Billing.Enrollment.Step.{
  empty_registry, Reach, start, next, created, exchanged, services_changed,
}
use hosting_control_panel.Billing.Enrollment.Single.{IsSound, Reach-IsSound}
use hosting_control_panel.Billing.Enrollment.Redemption.{exchange_once}
use hosting_control_panel.Billing.Enrollment.Access.{
  Authentic, revoked_stays_out, authenticate-Authentic,
}

abbrev digest : Text → Text
digest secret = 35 ∷ secret

abbrev site : Service
site = record {
  service_id = text "s";
  archived = false;
  location = text "shared";
  currency = text "EUR";
  primary_domain = text "a.io";
  contact_email = text "a@a.io";
  hosting_paid_through = none;
  domain_paid_through = none;
  renewal_months = 12;
  domain_renewal_months = 12;
  hosting_price_minor = 1200;
  domain_price_minor = 1500;
  updated_at = 0;
}

abbrev listed : Registry
listed = record empty_registry { services = site ∷ [] }

issue :
    (p : Registry × ℕ) × (create_enrollment_code digest listed
        (text "c")
        (text "secret")
        (text "s")
        (text "a.io")
        absent
        (text "admin")
        5
      ≡ ok p)
unfolding create_enrollment_code create_code_for domain service enrollment_active
    active_installation any find text text_eq integer valid_host
issue = (_, refl)

abbrev claim : Registry → ℕ → Registry × Result (Unit {0})
claim r now =
    exchange_enrollment_code digest r (text "secret") (text "a.io") (text "i") (text "key") now

redemption : (r : Registry) × (claim issue.0.0 10 ≡ (r, ok tt))
unfolding issue exchange_enrollment_code exchange_row redeemable redeem consume update_codes domain
    service enrollment_active active_installation any find select text text_eq valid_host audited
redemption = (_, refl)

redeemed-Reach : Reach digest (claim issue.0.0 10).0
redeemed-Reach =
    next
      (next (next start (services_changed (site ∷ []))) (
        created (text "c") (text "secret") (text "s") (text "a.io") absent (text "admin") 5
          issue.0.1 issue.1))
      (exchanged (text "secret") (text "a.io") (text "i") (text "key") 10)

Reach-IsSound_example : IsSound (claim issue.0.0 10).0
Reach-IsSound_example = Reach-IsSound redeemed-Reach

exchange_once_example : (claim redemption.0 20).1 ≡ err conflict
exchange_once_example =
    exchange_once digest issue.0.0 (text "secret") (text "a.io") (text "a.io") (text "i") (text "i")
      (text "key") (text "key") 10 20 redemption.1

authentication :
    (i : Installation) × (authenticate_installation digest redemption.0 (text "i") (text "key")
      ≡ some i)
unfolding redemption issue authenticate_installation still_served service enrollment_active find
    text text_eq
authentication = (_, refl)

authenticate-Authentic_example :
    Authentic digest redemption.0 (text "i") (text "key") authentication.0
authenticate-Authentic_example =
    authenticate-Authentic digest redemption.0 (text "i") (text "key") authentication.1

revocation :
    (p : Registry × Bool) × (revoke_installation_credential redemption.0
        (text "i")
        (text "admin")
        30
      ≡ ok p)
unfolding redemption issue revoke_installation_credential update_installations audited find text
    text_eq
revocation = (_, refl)

revoked_stays_out_example :
    authenticate_installation digest revocation.0.0 (text "i") (text "key") ≡ none
revoked_stays_out_example =
    revoked_stays_out digest redemption.0 (text "i") (text "admin") (text "key") 30 revocation.0.1
      revocation.1
