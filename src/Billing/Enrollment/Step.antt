-- ===== src/Billing/Enrollment/Step.antt =====
-- The registry of enrollments over the calls that change it (billing-service/app/lib/database.js).
use hosting_control_panel.Common.{ℕ, ◌≡◌, Bool, some, List, [], Text}
use hosting_control_panel.Billing.Payment.{Service, AuditRow, ok}
use hosting_control_panel.Billing.Checkout.{Raw}
use hosting_control_panel.Billing.Enrollment.Tables.{Registry}
use hosting_control_panel.Billing.Enrollment.Codes.{
  create_enrollment_code, exchange_enrollment_code, revoke_enrollment_code,
}
use hosting_control_panel.Billing.Enrollment.Credentials.{
  revoke_installation_credential, heartbeat_installation,
}

abbrev pub empty_registry : Registry
empty_registry = record { services = []; codes = []; installations = []; audit = [] }

module _ (hash : Text → Text) where
  -- The last two are what the inventory and the other calls do to the tables that all share.
  pub data Step (r : Registry) : Registry → Type 0 where
    created :
        (code_id code service_id domain : Text) (hours : Raw) (actor : Text) (now expires_at : ℕ)
        {r' : Registry}
        → create_enrollment_code hash r code_id code service_id domain hours actor now
          ≡ ok (r', expires_at)
        → Step r r'
    exchanged :
        (code claimed installation_id credential : Text) (now : ℕ)
        → Step r (exchange_enrollment_code hash r code claimed installation_id credential now).0
    code_revoked :
        (code_id actor : Text) (now : ℕ) (already : Bool) {r' : Registry}
        → revoke_enrollment_code r code_id actor now ≡ ok (r', already)
        → Step r r'
    credential_revoked :
        (id actor : Text) (now : ℕ) (already : Bool) {r' : Registry}
        → revoke_installation_credential r id actor now ≡ ok (r', already)
        → Step r r'
    beat :
        (id : Text) (contract_version : ℕ) (safe_status : Text) (now : ℕ) {r' : Registry}
        → heartbeat_installation r id contract_version safe_status now ≡ some r'
        → Step r r'
    services_changed : (services : List Service) → Step r (record r { services = services })
    others_audited : (audit : List AuditRow) → Step r (record r { audit = audit })

  pub data Reach : Registry → Type 0 where
    start : Reach empty_registry
    next : {r r' : Registry} → Reach r → Step r r' → Reach r'
