-- ===== src/Billing/Enrollment/Codes.antt =====
-- The life of an enrollment code: `createEnrollmentCode`, `exchangeEnrollmentCode` and
-- `revokeEnrollmentCode` of billing-service/app/lib/database.js.
use hosting_control_panel.Common.{
  ℕ, ◌+◌, ◌*◌, Bool, true, false, not, ◌&&◌, ◌||◌, none, some, [], ◌∷◌, ◌++◌, find, any, select,
  length, leb, ◌==◌, if◌then◌else◌, Text, text, text_eq,
}
use hosting_control_panel.Billing.Validation.{bounded, domain}
use hosting_control_panel.Billing.Payment.{
  Failure, Result, ok, err, ◌>>=◌, ◌>>◌, guard, or_fail, bad_request, not_found, conflict, gone,
  server_error,
}
use hosting_control_panel.Billing.Checkout.{Raw, integer}
use hosting_control_panel.Billing.Enrollment.Tables.{
  Code, Installation, Registry, is_set, is_code, has_hash, service, enrollment_active,
  active_installation, waits, audited, update_codes,
}

-- `bounded(actor, 160) || "admin"`
abbrev pub actor_name : Text → Text
actor_name actor = or_admin (bounded actor 160)
  where
    or_admin : Text → Text
    or_admin [] = text "admin"
    or_admin (c ∷ cs) = c ∷ cs

-- `integer(expiresInHours, 1, 168, 24)`
abbrev pub hours_of : Raw → Result ℕ
hours_of hours = integer hours 1 168 24

-- The `UNIQUE` and `PRIMARY KEY` columns of the codes.
abbrev code_collides : Text → Text → Code → Bool
code_collides id h c = text_eq c.code_id id || text_eq c.code_hash h

abbrev pub new_code : Text → Text → Text → Text → ℕ → ℕ → Text → Code
new_code code_id code_hash service_id target expires_at now created_by = record {
  code_id = code_id;
  code_hash = code_hash;
  service_id = service_id;
  canonical_domain = target;
  expires_at = expires_at;
  created_at = now;
  created_by = created_by;
  used_at = none;
  used_by_installation_id = [];
  revoked_at = none;
}

-- `createEnrollmentCode` once the hours are known.
unfoldable pub create_code_for :
    (Text → Text) → Registry → Text → Text → Text → Text → ℕ → Text → ℕ → Result (Registry × ℕ)
unfolding any active_installation audited text
create_code_for hash r code_id code service_id canonical_domain hours actor now = do
  target ← or_fail (domain canonical_domain) bad_request
  s ← or_fail (service r service_id) not_found
  guard (not s.archived) conflict
  guard (enrollment_active s) bad_request
  guard (text_eq target s.primary_domain) bad_request
  guard (not (active_installation r s.service_id target)) conflict
  guard (not (any (waits s.service_id target now) r.codes)) conflict
  guard (not (any (code_collides code_id (hash code)) r.codes)) server_error
  let expires_at = now + hours * 3600000
  let row = new_code code_id (hash code) s.service_id target expires_at now (bounded actor 160)
  ok (
    audited (actor_name actor) (text "enrollment.code_created") code_id
        (record r { codes = r.codes ++ row ∷ [] }),
    expires_at,
  )

-- `createEnrollmentCode({ serviceId, canonicalDomain, expiresInHours, actor })`, with the random id and
-- code: the registry and the expiry.
unfoldable pub create_enrollment_code :
    (Text → Text) → Registry → Text → Text → Text → Text → Raw → Text → ℕ → Result (Registry × ℕ)
unfolding create_code_for integer
create_enrollment_code hash r code_id code service_id canonical_domain hours actor now = do
  n ← hours_of hours
  create_code_for hash r code_id code service_id canonical_domain n actor now

-- The checks of `exchangeEnrollmentCode` on the row of the code and its service.
unfoldable pub redeemable : Registry → Code → ℕ → Result (Unit {0})
unfolding service enrollment_active
redeemable r row now = do
  guard (not (is_set row.used_at)) conflict
  guard (not (is_set row.revoked_at)) conflict
  guard (not (leb row.expires_at now)) gone
  s ← or_fail (service r row.service_id) not_found
  guard (not s.archived) conflict
  guard (enrollment_active s) bad_request
  guard (text_eq s.primary_domain row.canonical_domain) conflict

abbrev pub new_installation : Text → Text → Text → Code → ℕ → Installation
new_installation installation_id credential_hash target row now = record {
  installation_id = installation_id;
  service_id = row.service_id;
  canonical_domain = target;
  credential_hash = credential_hash;
  credential_created_at = now;
  credential_revoked_at = none;
  enrollment_code_id = row.code_id;
  created_at = now;
  updated_at = now;
  last_seen_at = none;
  last_success_at = none;
  contract_version = 0;
  safe_status = [];
}

-- The `UNIQUE` and `PRIMARY KEY` columns of the installations.
abbrev installation_collides : Text → Text → Installation → Bool
installation_collides id h i = text_eq i.installation_id id || text_eq i.credential_hash h

abbrev pub unused : Text → Code → Bool
unused id c = is_code id c && not (is_set c.used_at)

abbrev pub used : Text → ℕ → Code → Code
used installation_id now c = record c {
  used_at = some now;
  used_by_installation_id = installation_id;
}

-- The two writes of `exchangeEnrollmentCode`, of which the second must change one row.
unfoldable pub consume : Registry → Code → Text → Text → Text → ℕ → Result Registry
unfolding any select update_codes audited text
consume r row target installation_id credential_hash now = do
  guard (not (any (installation_collides installation_id credential_hash) r.installations))
      server_error
  guard (length (select (unused row.code_id) r.codes) == 1) conflict
  ok (
      audited (text "system") (text "enrollment.exchanged") installation_id (record r {
        codes = update_codes (unused row.code_id) (used installation_id now) r.codes;
        installations =
            r.installations ++ new_installation installation_id credential_hash target row now ∷ [];
      }))

-- A refusal that is audited.
abbrev pub refuse : Registry → Failure → Registry × Result (Unit {0})
refuse r why =
    (audited (text "system") (text "enrollment.exchange_rejected") (text "unknown") r, err why)

-- An error thrown in the transaction leaves the registry as it was.
abbrev pub commit : Registry → Result Registry → Registry × Result (Unit {0})
commit r (ok r') = (r', ok tt)
commit r (err e) = (r, err e)

-- The rest of the exchange once the row may be redeemed. A claim that is no domain throws.
unfoldable pub redeem : Registry → Code → Text → Text → Text → ℕ → Registry × Result (Unit {0})
unfolding domain active_installation consume
redeem r row claimed installation_id credential_hash now = elim (domain claimed) [
  | none ↦ (r, err bad_request)
  | some target ↦
      if not (text_eq target row.canonical_domain)
      then refuse r bad_request
      else if active_installation r row.service_id target
      then refuse r conflict
      else commit r (consume r row target installation_id credential_hash now)
]

unfoldable pub exchange_row :
    Registry → Code → Text → Text → Text → ℕ → Registry × Result (Unit {0})
unfolding redeemable redeem
exchange_row r row claimed installation_id credential_hash now = elim (redeemable r row now) [
  | err e ↦ refuse r e
  | ok _ ↦ redeem r row claimed installation_id credential_hash now
]

-- `exchangeEnrollmentCode({ code, domain })`, with the random id and credential.
unfoldable pub exchange_enrollment_code :
    (Text → Text) → Registry → Text → Text → Text → Text → ℕ → Registry × Result (Unit {0})
unfolding find exchange_row
exchange_enrollment_code hash r code claimed installation_id credential now =
    elim (find (has_hash (hash code)) r.codes) [
      | none ↦ refuse r not_found
      | some row ↦ exchange_row r row claimed installation_id (hash credential) now
    ]

abbrev pub revoke_code : ℕ → Code → Code
revoke_code now c = record c { revoked_at = some now }

abbrev pub unrevoked : Text → Code → Bool
unrevoked id c = is_code id c && not (is_set c.revoked_at)

-- `revokeEnrollmentCode(codeId, actor)`: the registry and `alreadyRevoked`.
unfoldable pub revoke_enrollment_code : Registry → Text → Text → ℕ → Result (Registry × Bool)
unfolding find update_codes audited text
revoke_enrollment_code r code_id actor now = do
  row ← or_fail (find (is_code code_id) r.codes) not_found
  ok (
      if is_set row.revoked_at then (r, true) else (
        audited (actor_name actor) (text "enrollment.code_revoked") row.code_id
            (record r { codes = update_codes (unrevoked row.code_id) (revoke_code now) r.codes }),
        false,
      ))

pub data CodeStatus : Type 0 where
  is_pending is_used is_revoked is_expired : CodeStatus

-- The status that `listEnrollmentCodesForService` shows.
unfoldable pub code_status : ℕ → Code → CodeStatus
code_status now c =
    if is_set c.revoked_at
    then is_revoked
    else if is_set c.used_at
    then is_used
    else if leb c.expires_at now
    then is_expired
    else is_pending
