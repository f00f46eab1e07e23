-- ===== src/Billing/Enrollment/Single.antt =====
-- One code enrolls one website, and one website has one credential: an invariant of the registry of
-- billing-service/app/lib/database.js.
pub mod Rows
pub mod Changes
use hosting_control_panel.Common.{
  ◌+◌, ◌*◌, ℕ, ◌≡◌, ◌≢◌, ◌⊎◌, refl, sym, ap, subst, ◌∙◌, Bool, true, false, not, ◌&&◌, ◌||◌, Option,
  none, some, List, [], ◌∷◌, ◌++◌, find, any, select, length, All, All-append, All-of_mem, All-map,
  mem-All, Bool-cases, Option-cases, inl, inr, Memᴰ, Text, text_eq, text_eq_sound, text_eq_refl,
  ◌==◌, leb, arith,
}
use hosting_control_panel.Billing.Payment.{
  Service, AuditRow, Failure, Result, ok, err, ◌>>=◌, ◌>>◌, guard, or_fail, >>=-eq-ok, bad_request,
  conflict, not_found,
}
use hosting_control_panel.Billing.Validation.{domain, bounded}
use hosting_control_panel.Billing.Enrollment.Tables.{
  Code, Installation, Registry, is_set, is_code, is_installation, has_hash, service,
  enrollment_active, active_installation, holds, audited, update_codes, update_installations,
}
use hosting_control_panel.Billing.Enrollment.Codes.{
  new_code, hours_of, create_code_for, create_enrollment_code, redeemable, new_installation, unused,
  used, consume, refuse, commit, redeem, exchange_row, exchange_enrollment_code, revoke_code,
  unrevoked, revoke_enrollment_code,
}
use hosting_control_panel.Billing.Enrollment.Credentials.{
  revoke_credential, unrevoked_installation, revoke_installation_credential, seen,
  heartbeat_installation, heartbeat_due,
}
use hosting_control_panel.Billing.Enrollment.Step.{
  empty_registry, Step, created, exchanged, code_revoked, credential_revoked, beat,
  services_changed, others_audited, Reach, start, next,
}
use Rows.{
  Distinct, CodeKept, CodesKept, CodesKept-refl, CodesKept-update, Distinct-kept, IsSpent,
  IsSpent-kept, IsSpent-append, Kept, AllKept, Kept-refl, AllKept-refl, AllKept-update, Apart,
  Pairwise, Pairwise-kept, Pairwise-append, All-IsSpent_kept,
}
use Changes.{
  HasCode, create-HasCode, Exchanged, same, enrolled, exchange-Exchanged, revoke_code-kept,
  revoke_credential-kept, heartbeat-kept,
}

pub record IsSound (r : Registry) : Type 0 where
  pub ids : Distinct r.codes
  pub spent : All (λ i. IsSpent r.codes i.enrollment_code_id) r.installations
  pub apart : Pairwise r.installations

-- A call that only rewrites rows, keeping what counts of each.
IsSound-kept :
    (r r' : Registry)
    → CodesKept r.codes r'.codes
    → AllKept r.installations r'.installations
    → IsSound r
    → IsSound r'
IsSound-kept r r' k l s = record {
  ids = Distinct-kept r.codes r'.codes k s.ids;
  spent =
      All-IsSpent_kept r.codes r'.codes r.installations r'.installations
        (λ id. IsSpent-kept id r.codes r'.codes k) l s.spent;
  apart = Pairwise-kept r.installations r'.installations l s.apart;
}

Distinct-append :
    (cs : List Code) (n : Code)
    → Distinct cs
    → All (λ c. n.code_id ≢ c.code_id) cs
    → Distinct (cs ++ n ∷ [])
Distinct-append [] n d h = (tt, tt)
Distinct-append (c ∷ cs) n d h = (
  All-append (λ e. e.code_id ≢ c.code_id) cs (n ∷ []) d.0 (h.0, tt),
  Distinct-append cs n d.1 h.1,
)

HasCode-IsSound : (r r' : Registry) → HasCode r r' → IsSound r → IsSound r'
HasCode-IsSound r r' h s = record {
  ids = subst Distinct (sym h.codes) (Distinct-append r.codes h.row s.ids h.new);
  spent =
      subst (λ (is : List Installation). All (λ i. IsSpent r'.codes i.enrollment_code_id) is)
        (sym h.installations)
        (subst (λ (cs : List Code). All (λ i. IsSpent cs i.enrollment_code_id) r.installations)
          (sym h.codes)
          (All-map (λ i. IsSpent (r.codes ++ h.row ∷ []) i.enrollment_code_id) r.installations
            (λ i. IsSpent-append i.enrollment_code_id r.codes (h.row ∷ [])) s.spent));
  apart = subst Pairwise (sym h.installations) s.apart;
}

-- The row of an unused code is nobody's: whoever is enrolled came from another one.
unspent :
    (cs : List Code) (c d : Code)
    → Distinct cs
    → Memᴰ c cs
    → Memᴰ d cs
    → c.code_id ≡ d.code_id
    → c ≡ d
unspent [] c d k h l e = elim h [ ]
unspent (x ∷ xs) c d k (Memᴰ.head h) (Memᴰ.head l) e = h ∙ sym l
unspent (x ∷ xs) c d k (Memᴰ.head h) (Memᴰ.tail l) e =
    absurd (mem-All (λ y. y.code_id ≢ x.code_id) xs l k.0 (sym e ∙ ap (λ (y : Code). y.code_id) h))
unspent (x ∷ xs) c d k (Memᴰ.tail h) (Memᴰ.head l) e =
    absurd (mem-All (λ y. y.code_id ≢ x.code_id) xs h k.0 (e ∙ ap (λ (y : Code). y.code_id) l))
unspent (x ∷ xs) c d k (Memᴰ.tail h) (Memᴰ.tail l) e = unspent xs c d k.1 h l e

-- After the row is used, its id is spent.
IsSpent-used :
    (cs : List Code) (row : Code) (id : Text) (now : ℕ)
    → Memᴰ row cs
    → is_set row.used_at ≡ false
    → IsSpent (update_codes (unused row.code_id) (used id now) cs) row.code_id
unfolding update_codes
IsSpent-used [] row id now here free = elim here [ ]
IsSpent-used (c ∷ cs) row id now (Memᴰ.head e) free =
    let hit : unused row.code_id c ≡ true =
      subst (λ (x : Code). unused row.code_id x ≡ true) e (rw (text_eq_refl row.code_id, free)) in
    rw hit (used id now c, Memᴰ.head refl, ap (λ (x : Code). x.code_id) (sym e), refl)
IsSpent-used (c ∷ cs) row id now (Memᴰ.tail h) free =
    let (x, here, same_id, spent) = IsSpent-used cs row id now h free in
    (x, Memᴰ.tail here, same_id, spent)

-- An installation that is there stays apart from one of a row that was not used.
All-Apart_new :
    (r : Registry) (row : Code) (target id h : Text) (now : ℕ) (is : List Installation)
    → Distinct r.codes
    → Memᴰ row r.codes
    → is_set row.used_at ≡ false
    → any (holds row.service_id target) is ≡ false
    → All (λ i. IsSpent r.codes i.enrollment_code_id) is
    → All (λ i. Apart i (new_installation id h target row now)) is
unfolding any
All-Apart_new r row target id h now [] k here free nobody spent = tt
All-Apart_new r row target id h now (i ∷ is) k here free nobody spent = (
  record {
    codes = λ e.
        let (c, there, is_it, used_up) = spent.0 in
        let same_row : c ≡ row = unspent r.codes c row k there here (is_it ∙ sym e) in
        absurd (cc (subst (λ (x : Code). is_set x.used_at ≡ true) same_row used_up, free));
    claims = λ s d.
        let mine : holds row.service_id target i ≡ false = ground (arith, nobody) in
        inl
          (ground (arith, mine, s, d, text_eq_refl i.service_id, text_eq_refl i.canonical_domain));
  },
  All-Apart_new r row target id h now is k here free (ground (arith, nobody)) spent.1,
)

Exchanged-IsSound : (r r' : Registry) → Exchanged r r' → IsSound r → IsSound r'
unfolding any active_installation
Exchanged-IsSound r r' (same cs is) s =
    IsSound-kept r r' (subst (CodesKept r.codes) (sym cs) (CodesKept-refl r.codes))
      (subst (AllKept r.installations) (sym is) (AllKept-refl r.installations)) s
Exchanged-IsSound r r' (enrolled row target id h now here free nobody cs is) s =
    let kept : CodesKept r.codes (update_codes (unused row.code_id) (used id now) r.codes) =
      CodesKept-update (unused row.code_id) (used id now) r.codes
        (λ c. record { code_id = refl; spent = λ u. refl }) in
    let new = new_installation id h target row now in
    let old_spent =
      All-map (λ i. IsSpent r'.codes i.enrollment_code_id) r.installations
        (λ i sp.
          subst (λ (x : List Code). IsSpent x i.enrollment_code_id) (sym cs)
            (IsSpent-kept i.enrollment_code_id r.codes _ kept sp))
        s.spent in
    let new_spent =
      subst (λ (x : List Code). IsSpent x row.code_id) (sym cs)
        (IsSpent-used r.codes row id now here free) in
    record {
      ids = subst Distinct (sym cs) (Distinct-kept r.codes _ kept s.ids);
      spent =
          subst (λ (x : List Installation). All (λ i. IsSpent r'.codes i.enrollment_code_id) x)
            (sym is)
            (All-append (λ i. IsSpent r'.codes i.enrollment_code_id) r.installations (new ∷ [])
              old_spent (new_spent, tt));
      apart = subst Pairwise (sym is) (
          Pairwise-append r.installations new s.apart
            (All-Apart_new r row target id h now r.installations s.ids here free nobody s.spent));
    }

Step-IsSound : {hash : Text → Text} {r r' : Registry} → Step hash r r' → IsSound r → IsSound r'
Step-IsSound {hash} {r} {r'} (created code_id code service_id host hours actor now e done) s =
    HasCode-IsSound r r' (create-HasCode hash r code_id code service_id host hours actor now e done)
      s
Step-IsSound {hash} {r} {r'} (exchanged code claimed id credential now) s =
    Exchanged-IsSound r r' (exchange-Exchanged hash r code claimed id credential now) s
Step-IsSound {hash} {r} {r'} (code_revoked id actor now already done) s =
    let (cs, is) = revoke_code-kept r id actor now already done in
    IsSound-kept r r' cs (subst (AllKept r.installations) (sym is) (AllKept-refl r.installations)) s
Step-IsSound {hash} {r} {r'} (credential_revoked id actor now already done) s =
    let (is, cs) = revoke_credential-kept r id actor now already done in
    IsSound-kept r r' (subst (CodesKept r.codes) (sym cs) (CodesKept-refl r.codes)) is s
Step-IsSound {hash} {r} {r'} (beat id v status now done) s =
    let (is, cs) = heartbeat-kept r id v status now done in
    IsSound-kept r r' (subst (CodesKept r.codes) (sym cs) (CodesKept-refl r.codes)) is s
Step-IsSound {hash} {r} {r'} (services_changed ss) s =
    IsSound-kept r r' (CodesKept-refl r.codes) (AllKept-refl r.installations) s
Step-IsSound {hash} {r} {r'} (others_audited rows) s =
    IsSound-kept r r' (CodesKept-refl r.codes) (AllKept-refl r.installations) s

-- In every reachable registry no two installations come from one code, no two hold live credentials for
-- one service and domain, and the code of every installation is marked as used.
pub Reach-IsSound : {hash : Text → Text} {r : Registry} → Reach hash r → IsSound r
Reach-IsSound start = record { ids = tt; spent = tt; apart = tt }
Reach-IsSound (next reached step) = Step-IsSound step (Reach-IsSound reached)
