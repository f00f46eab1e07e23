-- ===== src/Billing/Enrollment/Tables.antt =====
-- The tables `enrollment_codes` and `wp_installations` of billing-service/app/lib/database.js, with the
-- queries on them. The hash of a secret is a parameter.
use hosting_control_panel.Common.{
  ℕ, Bool, true, false, not, ◌&&◌, Option, none, some, List, [], ◌∷◌, find, any, ltb, if◌then◌else◌,
  Text, text, text_eq,
}
use hosting_control_panel.Billing.Payment.{Service, AuditRow, on_id}
use hosting_control_panel.Billing.Ledger.{audit_entry}

-- A row of `enrollment_codes`; a time that is empty is `none`.
pub record Code : Type 0 where
  pub code_id : Text
  pub code_hash : Text
  pub service_id : Text
  pub canonical_domain : Text
  pub expires_at : ℕ
  pub created_at : ℕ
  pub created_by : Text
  pub used_at : Option ℕ
  pub used_by_installation_id : Text
  pub revoked_at : Option ℕ

-- A row of `wp_installations`.
pub record Installation : Type 0 where
  pub installation_id : Text
  pub service_id : Text
  pub canonical_domain : Text
  pub credential_hash : Text
  pub credential_created_at : ℕ
  pub credential_revoked_at : Option ℕ
  pub enrollment_code_id : Text
  pub created_at : ℕ
  pub updated_at : ℕ
  pub last_seen_at : Option ℕ
  pub last_success_at : Option ℕ
  pub contract_version : ℕ
  pub safe_status : Text

pub record Registry : Type 0 where
  pub services : List Service
  pub codes : List Code
  pub installations : List Installation
  pub audit : List AuditRow

abbrev pub is_set : Option ℕ → Bool
is_set none = false
is_set (some _) = true

abbrev pub is_code : Text → Code → Bool
is_code id c = text_eq c.code_id id

abbrev pub has_hash : Text → Code → Bool
has_hash h c = text_eq c.code_hash h

abbrev pub is_installation : Text → Installation → Bool
is_installation id i = text_eq i.installation_id id

-- `service(serviceId)`
unfoldable pub service : Registry → Text → Option Service
unfolding find
service r id = find (λ s. text_eq s.service_id id) r.services

-- `enrollmentActive(service)`, of a service that was found.
unfoldable pub enrollment_active : Service → Bool
unfolding text text_eq
enrollment_active s = not s.archived && text_eq s.location (text "shared")

abbrev pub holds : Text → Text → Installation → Bool
holds service_id host i =
    text_eq i.service_id service_id
    && text_eq i.canonical_domain host
    && not (is_set i.credential_revoked_at)

-- `SELECT 1 FROM wp_installations WHERE service_id=? AND canonical_domain=? AND credential_revoked_at=''`
unfoldable pub active_installation : Registry → Text → Text → Bool
unfolding any
active_installation r service_id host = any (holds service_id host) r.installations

abbrev pub waits : Text → Text → ℕ → Code → Bool
waits service_id host now c =
    text_eq c.service_id service_id
    && text_eq c.canonical_domain host
    && not (is_set c.used_at)
    && not (is_set c.revoked_at)
    && ltb now c.expires_at

-- `auditEntry(actor, action, target, …)`
unfoldable pub audited : Text → Text → Text → Registry → Registry
unfolding audit_entry
audited actor action target r = record r {
  audit = audit_entry (record { actor = actor; action = action; target = on_id target }) r.audit;
}

-- `UPDATE enrollment_codes SET … WHERE …`
unfoldable pub update_codes : (Code → Bool) → (Code → Code) → List Code → List Code
update_codes test f [] = []
update_codes test f (c ∷ cs) = (if test c then f c else c) ∷ update_codes test f cs

-- `UPDATE wp_installations SET … WHERE …`
unfoldable pub update_installations :
    (Installation → Bool) → (Installation → Installation) → List Installation → List Installation
update_installations test f [] = []
update_installations test f (i ∷ is) = (if test i then f i else i) ∷ update_installations test f is
