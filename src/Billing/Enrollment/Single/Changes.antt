-- ===== src/Billing/Enrollment/Single/Changes.antt =====
-- What each call on the registry of billing-service/app/lib/database.js does to its two tables.
use hosting_control_panel.Common.{
  ◌+◌, ◌*◌, ℕ, ◌≡◌, ◌≢◌, refl, sym, subst, Bool, false, ◌||◌, some, List, [], ◌∷◌, ◌++◌, find, any,
  All, Bool-cases, Option-cases, inl, inr, Memᴰ, Text, text_eq, text_eq_refl, arith,
}
use hosting_control_panel.Billing.Payment.{
  Failure, Result, ok, err, >>=-eq-ok, bad_request, conflict, not_found,
}
use hosting_control_panel.Billing.Validation.{domain, bounded}
use hosting_control_panel.Billing.Checkout.{Raw}
use hosting_control_panel.Billing.Enrollment.Tables.{
  Code, Registry, is_set, is_code, is_installation, has_hash, service, active_installation, audited,
  update_codes, update_installations,
}
use hosting_control_panel.Billing.Enrollment.Codes.{
  new_code, hours_of, create_code_for, create_enrollment_code, redeemable, new_installation, unused,
  used, consume, refuse, commit, redeem, exchange_row, exchange_enrollment_code, revoke_code,
  unrevoked, revoke_enrollment_code,
}
use hosting_control_panel.Billing.Enrollment.Credentials.{
  revoke_credential, unrevoked_installation, revoke_installation_credential, seen,
  heartbeat_installation, heartbeat_due,
}
use hosting_control_panel.Billing.Enrollment.Single.Rows.{
  CodesKept, CodesKept-refl, CodesKept-update, AllKept, AllKept-refl, AllKept-update,
}

none_collides :
    (id h : Text) (cs : List Code)
    → any (λ c. text_eq c.code_id id || text_eq c.code_hash h) cs ≡ false
    → All (λ c. id ≢ c.code_id) cs
unfolding any
none_collides id h [] e = tt
none_collides id h (c ∷ cs) e = (
  (λ same. absurd (ground (arith, e, same, text_eq_refl c.code_id))),
  none_collides id h cs (ground (arith, e)),
)

pub record HasCode (r r' : Registry) : Type 0 where
  pub row : Code
  pub codes : r'.codes ≡ r.codes ++ row ∷ []
  pub installations : r'.installations ≡ r.installations
  pub new : All (λ c. row.code_id ≢ c.code_id) r.codes

create_code_for-HasCode :
    (hash : Text → Text) (r : Registry) (code_id code service_id host : Text) (n : ℕ) (actor : Text)
    (now e : ℕ) {r' : Registry}
    → create_code_for hash r code_id code service_id host n actor now ≡ ok (r', e)
    → HasCode r r'
unfolding create_code_for audited
create_code_for-HasCode hash r code_id code service_id host n actor now e done =
    elim (Option-cases (domain host)) [
      | inl m ↦ absurd (ground (arith, m, done))
      | inr (target, t) ↦ elim (Option-cases (service r service_id)) [
        | inl m ↦ absurd (ground (arith, t, m, done))
        | inr (s, f) ↦ record {
          row =
              new_code code_id (hash code) s.service_id target (now + n * 3600000) now
                (bounded actor 160);
          codes = ground (arith, t, f, done);
          installations = ground (arith, t, f, done);
          new = none_collides code_id (hash code) r.codes (ground (arith, t, f, done));
        }
      ]
    ]

pub create-HasCode :
    (hash : Text → Text) (r : Registry) (code_id code service_id host : Text) (hours : Raw)
    (actor : Text) (now e : ℕ) {r' : Registry}
    → create_enrollment_code hash r code_id code service_id host hours actor now ≡ ok (r', e)
    → HasCode r r'
unfolding create_enrollment_code
create-HasCode hash r code_id code service_id host hours actor now e done =
    let (n, _, made) =
      >>=-eq-ok (hours_of hours)
        (λ n. create_code_for hash r code_id code service_id host n actor now) done in
    create_code_for-HasCode hash r code_id code service_id host n actor now e made

-- What an exchange did: nothing to the two tables, or it used a row that was not used.
pub data Exchanged (r r' : Registry) : Type 0 where
  same : r'.codes ≡ r.codes → r'.installations ≡ r.installations → Exchanged r r'
  enrolled :
      (row : Code) (target installation_id credential_hash : Text) (now : ℕ)
      → Memᴰ row r.codes
      → is_set row.used_at ≡ false
      → active_installation r row.service_id target ≡ false
      → r'.codes ≡ update_codes (unused row.code_id) (used installation_id now) r.codes
      → r'.installations
        ≡ r.installations ++ new_installation installation_id credential_hash target row now ∷ []
      → Exchanged r r'

refuse-Exchanged : (r : Registry) (why : Failure) → Exchanged r (refuse r why).0
unfolding audited
refuse-Exchanged r why = same refl refl

redeem-Exchanged :
    (r : Registry) (row : Code) (claimed id h : Text) (now : ℕ)
    → Memᴰ row r.codes
    → is_set row.used_at ≡ false
    → Exchanged r (redeem r row claimed id h now).0
unfolding redeem
redeem-Exchanged r row claimed id h now here free = elim (Option-cases (domain claimed)) [
  | inl m ↦ rw (m, redeem) (same refl refl)
  | inr (target, t) ↦ elim (Bool-cases (text_eq target row.canonical_domain)) [
    | inr other ↦ rw (t, other, redeem) (refuse-Exchanged r bad_request)
    | inl right ↦ elim (Bool-cases (active_installation r row.service_id target)) [
      | inl busy ↦ rw (t, right, busy, redeem) (refuse-Exchanged r conflict)
      | inr open_ ↦
          rw (t, right, open_, redeem) (committed target open_ (consume r row target id h now) refl)
    ]
  ]
]
  where
    committed :
        (target : Text)
        → active_installation r row.service_id target ≡ false
        → (m : Result Registry) → consume r row target id h now ≡ m
        → Exchanged r (commit r m).0
    committed target o (err e) made = same refl refl
    committed target o (ok r') made =
        enrolled row target id h now here free o (ground (arith, made)) (ground (arith, made))

redeemable-free :
    (r : Registry) (row : Code) (now : ℕ) {u : Unit {0}}
    → redeemable r row now ≡ ok u
    → is_set row.used_at ≡ false
unfolding redeemable
redeemable-free r row now e = ground (arith, e)

find-Memᴰ : (p : Code → Bool) (cs : List Code) {c : Code} → find p cs ≡ some c → Memᴰ c cs
unfolding find
find-Memᴰ p [] e = absurd (cc)
find-Memᴰ p (x ∷ xs) {c} e = elim (Bool-cases (p x)) [
  | inl t ↦ Memᴰ.head (ground (arith, t, e))
  | inr f ↦ Memᴰ.tail (find-Memᴰ p xs (ground (arith, f, e)))
]

exchange_row-Exchanged :
    (r : Registry) (row : Code) (claimed id h : Text) (now : ℕ)
    → Memᴰ row r.codes
    → Exchanged r (exchange_row r row claimed id h now).0
unfolding exchange_row
exchange_row-Exchanged r row claimed id h now here = go (redeemable r row now) refl
  where
    go :
        (m : Result (Unit {0}))
        → redeemable r row now ≡ m
        → Exchanged r (exchange_row r row claimed id h now).0
    go (err e) bad = rw (bad, exchange_row) (refuse-Exchanged r e)
    go (ok u) good =
        rw (good, exchange_row)
          (redeem-Exchanged r row claimed id h now here (redeemable-free r row now good))

pub exchange-Exchanged :
    (hash : Text → Text) (r : Registry) (code claimed id credential : Text) (now : ℕ)
    → Exchanged r (exchange_enrollment_code hash r code claimed id credential now).0
unfolding exchange_enrollment_code
exchange-Exchanged hash r code claimed id credential now =
    elim (Option-cases (find (has_hash (hash code)) r.codes)) [
      | inl missing ↦ rw (missing, exchange_enrollment_code) (refuse-Exchanged r not_found)
      | inr (row, found) ↦
          rw (found, exchange_enrollment_code)
            (exchange_row-Exchanged r row claimed id (hash credential) now
              (find-Memᴰ (has_hash (hash code)) r.codes found))
    ]

-- A call that does nothing, or rewrites rows in one of the tables.
pub revoke_code-kept :
    (r : Registry) (id actor : Text) (now : ℕ) (already : Bool) {r' : Registry}
    → revoke_enrollment_code r id actor now ≡ ok (r', already)
    → CodesKept r.codes r'.codes × (r'.installations ≡ r.installations)
unfolding revoke_enrollment_code audited
revoke_code-kept r id actor now already {r'} e = elim (Option-cases (find (is_code id) r.codes)) [
  | inl m ↦ absurd (ground (arith, m, e))
  | inr (row, f) ↦ elim (Bool-cases (is_set row.revoked_at)) [
    | inl t ↦
        let unchanged : r'.codes ≡ r.codes = ground (arith, f, t, e) in
        (
          subst (CodesKept r.codes) (sym unchanged) (CodesKept-refl r.codes),
          ground (arith, f, t, e),
        )
    | inr t ↦
        let changed : r'.codes ≡ update_codes (unrevoked row.code_id) (revoke_code now) r.codes =
          ground (arith, f, t, e) in
        (
          subst (CodesKept r.codes) (sym changed) (
              CodesKept-update (unrevoked row.code_id) (revoke_code now) r.codes
                (λ c. record { code_id = refl; spent = λ u. u })),
          ground (arith, f, t, e),
        )
  ]
]

pub revoke_credential-kept :
    (r : Registry) (id actor : Text) (now : ℕ) (already : Bool) {r' : Registry}
    → revoke_installation_credential r id actor now ≡ ok (r', already)
    → AllKept r.installations r'.installations × (r'.codes ≡ r.codes)
unfolding revoke_installation_credential audited
revoke_credential-kept r id actor now already {r'} e =
    elim (Option-cases (find (is_installation id) r.installations)) [
      | inl m ↦ absurd (ground (arith, m, e))
      | inr (row, f) ↦ elim (Bool-cases (is_set row.credential_revoked_at)) [
        | inl t ↦
            let unchanged : r'.installations ≡ r.installations = ground (arith, f, t, e) in
            (
              subst (AllKept r.installations) (sym unchanged) (AllKept-refl r.installations),
              ground (arith, f, t, e),
            )
        | inr t ↦
            let test = unrevoked_installation row.installation_id in
            let changed : r'.installations
                ≡ update_installations test (revoke_credential now) r.installations =
              ground (arith, f, t, e) in
            (
              subst (AllKept r.installations) (sym changed) (
                  AllKept-update test (revoke_credential now) r.installations (λ i. record {
                    service_id = refl;
                    canonical_domain = refl;
                    enrollment_code_id = refl;
                    installation_id = refl;
                    revoked = λ u. refl;
                  })),
              ground (arith, f, t, e),
            )
      ]
    ]

pub heartbeat-kept :
    (r : Registry) (id : Text) (v : ℕ) (status : Text) (now : ℕ) {r' : Registry}
    → heartbeat_installation r id v status now ≡ some r'
    → AllKept r.installations r'.installations × (r'.codes ≡ r.codes)
unfolding heartbeat_installation
heartbeat-kept r id v status now {r'} e =
    elim (Option-cases (find (is_installation id) r.installations)) [
      | inl m ↦ absurd (ground (arith, m, e))
      | inr (row, f) ↦ elim (Bool-cases (heartbeat_due row.last_seen_at now)) [
        | inr t ↦
            let unchanged : r'.installations ≡ r.installations = ground (arith, f, t, e) in
            (
              subst (AllKept r.installations) (sym unchanged) (AllKept-refl r.installations),
              ground (arith, f, t, e),
            )
        | inl t ↦
            let changed : r'.installations
                ≡ update_installations (is_installation id) (seen now v status) r.installations =
              ground (arith, f, t, e) in
            (
              subst (AllKept r.installations) (sym changed) (
                  AllKept-update (is_installation id) (seen now v status) r.installations (λ i.
                    record {
                      service_id = refl;
                      canonical_domain = refl;
                      enrollment_code_id = refl;
                      installation_id = refl;
                      revoked = λ u. u;
                    })),
              ground (arith, f, t, e),
            )
      ]
    ]
