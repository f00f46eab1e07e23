-- ===== src/Billing/Enrollment/Credentials.antt =====
-- Installation credentials: `revokeInstallationCredential`, `heartbeatInstallation` and
-- `authenticateInstallation` of billing-service/app/lib/database.js.
use hosting_control_panel.Common.{
  ℕ, ◌+◌, Bool, true, false, not, ◌&&◌, ◌||◌, Option, none, some, find, leb, ◌==◌, is_empty,
  if◌then◌else◌, Text, text, text_eq,
}
use hosting_control_panel.Billing.Validation.{bounded}
use hosting_control_panel.Billing.Payment.{Result, ok, ◌>>=◌, or_fail, not_found}
use hosting_control_panel.Billing.Enrollment.Tables.{
  Installation, Registry, is_set, is_installation, service, enrollment_active, audited,
  update_installations,
}
use hosting_control_panel.Billing.Enrollment.Codes.{actor_name}

abbrev pub revoke_credential : ℕ → Installation → Installation
revoke_credential now i = record i { credential_revoked_at = some now; updated_at = now }

abbrev pub unrevoked_installation : Text → Installation → Bool
unrevoked_installation id i = is_installation id i && not (is_set i.credential_revoked_at)

-- `revokeInstallationCredential(installationId, actor)`: the registry and `alreadyRevoked`.
unfoldable pub revoke_installation_credential :
    Registry → Text → Text → ℕ → Result (Registry × Bool)
unfolding find update_installations audited text
revoke_installation_credential r id actor now = do
  row ← or_fail (find (is_installation id) r.installations) not_found
  ok (
      if is_set row.credential_revoked_at then (r, true) else (
        audited (actor_name actor) (text "enrollment.installation_revoked") row.installation_id
            (record r {
              installations =
                  update_installations (unrevoked_installation row.installation_id)
                    (revoke_credential now) r.installations;
            }),
        false,
      ))

abbrev pub seen : ℕ → ℕ → Text → Installation → Installation
seen now contract_version safe_status i = record i {
  last_seen_at = some now;
  last_success_at = some now;
  contract_version = contract_version;
  safe_status = bounded safe_status 40;
  updated_at = now;
}

-- `!lastSeen || Date.now() - lastSeen >= HEARTBEAT_MIN_MS`: a time of 0 counts as none.
unfoldable pub heartbeat_due : Option ℕ → ℕ → Bool
heartbeat_due none now = true
heartbeat_due (some last_seen) now = (last_seen == 0) || leb (last_seen + 60000) now

-- `heartbeatInstallation(installationId, { contractVersion, safeStatus })`: `none` where there is no
-- such installation.
unfoldable pub heartbeat_installation : Registry → Text → ℕ → Text → ℕ → Option Registry
unfolding find update_installations heartbeat_due
heartbeat_installation r id contract_version safe_status now =
    elim (find (is_installation id) r.installations) [
      | none ↦ none
      | some i ↦ some (
          if heartbeat_due i.last_seen_at now
          then record r {
            installations =
                update_installations (is_installation id) (seen now contract_version safe_status)
                  r.installations;
          }
          else r)
    ]

-- What `authenticateInstallation` asks of the installation's service.
unfoldable pub still_served : Registry → Installation → Bool
unfolding service enrollment_active text_eq
still_served r i = elim (service r i.service_id) [
  | none ↦ false
  | some s ↦ not s.archived && enrollment_active s && text_eq s.primary_domain i.canonical_domain
]

-- `authenticateInstallation(installationId, credential)`. The comparison of the hashes' bytes is one of
-- the texts, which are hexadecimal of one length.
unfoldable pub authenticate_installation :
    (Text → Text) → Registry → Text → Text → Option Installation
unfolding find still_served text_eq
authenticate_installation hash r id credential =
    if is_empty id || is_empty credential
    then none
    else elim (find (is_installation id) r.installations) [
      | none ↦ none
      | some i ↦
          if not (text_eq i.credential_hash (hash credential))
          then none
          else if is_set i.credential_revoked_at
          then none
          else if still_served r i
          then some i
          else none
    ]
