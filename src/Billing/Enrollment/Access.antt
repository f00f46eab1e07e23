-- ===== src/Billing/Enrollment/Access.antt =====
-- Who is taken for an installation (billing-service/app/lib/database.js).
use hosting_control_panel.Common.{
  ℕ, ◌≡◌, refl, sym, ap, subst, ◌∙◌, Bool, true, false, Option, none, some, List, [], ◌∷◌, find,
  Bool-cases, Option-cases, inl, inr, Text, text_eq, text_eq_sound, text_eq_refl, arith,
}
use hosting_control_panel.Billing.Payment.{Service, ok}
use hosting_control_panel.Billing.Enrollment.Tables.{
  Installation, Registry, is_set, is_installation, service, enrollment_active, audited,
  update_installations,
}
use hosting_control_panel.Billing.Enrollment.Credentials.{
  revoke_credential, unrevoked_installation, revoke_installation_credential, still_served,
  authenticate_installation,
}

find-update_installations :
    (id : Text) (test : Installation → Bool) (f : Installation → Installation)
    (is : List Installation) {row : Installation}
    → ((i : Installation) → (f i).installation_id ≡ i.installation_id)
    → find (is_installation id) is ≡ some row
    → test row ≡ true
    → find (is_installation id) (update_installations test f is) ≡ some (f row)
unfolding find update_installations
find-update_installations id test f [] k e t = absurd (cc)
find-update_installations id test f (i ∷ is) {row} k e t =
    elim (Bool-cases (is_installation id i)) [
      | inl here ↦
          let same : i ≡ row = ground (arith, here, e) in
          let hit : test i ≡ true = subst (λ (x : Installation). test x ≡ true) (sym same) t in
          let kept : is_installation id (f i) ≡ true = ap (λ x. text_eq x id) (k i) ∙ here in
          rw (hit, kept) (ap (λ (x : Installation). some (f x)) same)
      | inr away ↦
          let rest = find-update_installations id test f is k (ground (arith, away, e)) t in
          let kept : is_installation id (f i) ≡ false = ap (λ x. text_eq x id) (k i) ∙ away in
          elim (Bool-cases (test i)) [
            | inl hit ↦ rw (hit, kept) rest
            | inr miss ↦ rw (miss, away) rest
          ]
    ]

-- The first installation with an id, revoked.
Revoked : Registry → Text → Type 0
Revoked r id =
    (i : Installation) × (find (is_installation id) r.installations ≡ some i)
    × (is_set i.credential_revoked_at ≡ true)

revoke-Revoked :
    (r : Registry) (id actor : Text) (now : ℕ) (already : Bool) {r' : Registry}
    → revoke_installation_credential r id actor now ≡ ok (r', already)
    → Revoked r' id
unfolding revoke_installation_credential audited Revoked
revoke-Revoked r id actor now already {r'} e =
    elim (Option-cases (find (is_installation id) r.installations)) [
      | inl m ↦ absurd (ground (arith, m, e))
      | inr (row, f) ↦ elim (Bool-cases (is_set row.credential_revoked_at)) [
        | inl t ↦
            let unchanged : r'.installations ≡ r.installations = ground (arith, f, t, e) in
            (row, ap (find (is_installation id)) unchanged ∙ f, t)
        | inr t ↦
            let test = unrevoked_installation row.installation_id in
            let changed : r'.installations
                ≡ update_installations test (revoke_credential now) r.installations =
              ground (arith, f, t, e) in
            (
              revoke_credential now row,
              ap (find (is_installation id)) changed
                  ∙ find-update_installations id test (revoke_credential now) r.installations
                      (λ i. refl) f (rw (text_eq_refl row.installation_id, t) refl),
              refl,
            )
      ]
    ]

Revoked-none :
    (hash : Text → Text) (r : Registry) (id credential : Text)
    → Revoked r id
    → authenticate_installation hash r id credential ≡ none
unfolding authenticate_installation Revoked
Revoked-none hash r id credential (i, f, t) =
    elim (Bool-cases (text_eq i.credential_hash (hash credential))) [
      | inl m ↦ ground (arith, f, t, m)
      | inr m ↦ ground (arith, f, t, m)
    ]

-- Once the credential of an installation is revoked, nothing authenticates as that installation.
pub revoked_stays_out :
    (hash : Text → Text) (r : Registry) (id actor credential : Text) (now : ℕ) (already : Bool)
    {r' : Registry}
    → revoke_installation_credential r id actor now ≡ ok (r', already)
    → authenticate_installation hash r' id credential ≡ none
revoked_stays_out hash r id actor credential now already {r'} e =
    Revoked-none hash r' id credential (revoke-Revoked r id actor now already e)

-- What entitles a caller to be taken for an installation.
pub record Authentic (hash : Text → Text) (r : Registry) (id credential : Text) (i : Installation)
    : Type 0 where
  pub found : find (is_installation id) r.installations ≡ some i
  pub secret : i.credential_hash ≡ hash credential
  pub live : i.credential_revoked_at ≡ none
  pub owner : Service
  pub served : service r i.service_id ≡ some owner
  pub eligible : enrollment_active owner ≡ true
  pub current : owner.primary_domain ≡ i.canonical_domain

still_served-owner :
    (r : Registry) (i : Installation)
    → still_served r i ≡ true
    → (s : Service) × (service r i.service_id ≡ some s)
      × (enrollment_active s ≡ true)
      × (s.primary_domain ≡ i.canonical_domain)
unfolding still_served
still_served-owner r i e = elim (Option-cases (service r i.service_id)) [
  | inl m ↦ absurd (ground (arith, m, e))
  | inr (s, f) ↦ (
    s,
    f,
    ground (arith, f, e),
    text_eq_sound s.primary_domain i.canonical_domain (ground (arith, f, e)),
  )
]

is_set-none : (o : Option ℕ) → is_set o ≡ false → o ≡ none
is_set-none none e = refl
is_set-none (some n) e = absurd (cc)

-- Whoever authenticates as an installation knows its credential, which is not revoked, and the
-- installation's service is still eligible under the same domain.
pub authenticate-Authentic :
    (hash : Text → Text) (r : Registry) (id credential : Text) {i : Installation}
    → authenticate_installation hash r id credential ≡ some i
    → Authentic hash r id credential i
unfolding authenticate_installation
authenticate-Authentic hash r id credential {i} e =
    elim (Option-cases (find (is_installation id) r.installations)) [
      | inl m ↦ absurd (ground (arith, m, e))
      | inr (j, f) ↦
          let same : j ≡ i = ground (arith, f, e) in
          let (s, there, eligible, current) = still_served-owner r j (ground (arith, f, e)) in
          subst (Authentic hash r id credential) same (record {
            found = f;
            secret = text_eq_sound j.credential_hash (hash credential) (ground (arith, f, e));
            live = is_set-none j.credential_revoked_at (ground (arith, f, e));
            owner = s;
            served = there;
            eligible = eligible;
            current = current;
          })
    ]
