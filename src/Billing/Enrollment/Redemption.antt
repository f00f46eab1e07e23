-- ===== src/Billing/Enrollment/Redemption.antt =====
-- What redeeming a code leaves behind (billing-service/app/lib/database.js).
use hosting_control_panel.Common.{
  ℕ, ◌≡◌, refl, sym, ap, subst, ◌∙◌, Bool, true, false, some, List, [], ◌∷◌, find, Bool-cases,
  Option-cases, inl, inr, Text, text_eq, text_eq_refl, arith,
}
use hosting_control_panel.Billing.Payment.{Result, ok, err, conflict}
use hosting_control_panel.Billing.Validation.{domain}
use hosting_control_panel.Billing.Enrollment.Tables.{
  Code, Registry, is_set, has_hash, active_installation, audited, update_codes,
}
use hosting_control_panel.Billing.Enrollment.Codes.{
  unused, used, consume, commit, redeemable, redeem, exchange_row, exchange_enrollment_code,
}

-- The row of a code that was exchanged.
record Redeemed (hash : Text → Text) (r r' : Registry) (code installation_id : Text) (now : ℕ)
    : Type 0 where
  row : Code
  found : find (has_hash (hash code)) r.codes ≡ some row
  free : is_set row.used_at ≡ false
  codes : r'.codes ≡ update_codes (unused row.code_id) (used installation_id now) r.codes

consume-codes :
    (r : Registry) (row : Code) (target id h : Text) (now : ℕ) {r' : Registry}
    → consume r row target id h now ≡ ok r'
    → r'.codes ≡ update_codes (unused row.code_id) (used id now) r.codes
unfolding consume audited
consume-codes r row target id h now e = ground (arith, e)

redeem-codes :
    (r : Registry) (row : Code) (claimed id h : Text) (now : ℕ) {r' : Registry} {u : Unit {0}}
    → redeem r row claimed id h now ≡ (r', ok u)
    → r'.codes ≡ update_codes (unused row.code_id) (used id now) r.codes
unfolding redeem
redeem-codes r row claimed id h now {r'} {u} e = elim (Option-cases (domain claimed)) [
  | inl m ↦ absurd (ground (arith, m, e))
  | inr (target, t) ↦ elim (Bool-cases (text_eq target row.canonical_domain)) [
    | inr other ↦ absurd (ground (arith, t, other, e))
    | inl right ↦ elim (Bool-cases (active_installation r row.service_id target)) [
      | inl busy ↦ absurd (ground (arith, t, right, busy, e))
      | inr idle ↦
          committed target (consume r row target id h now) refl (ground (arith, t, right, idle, e))
    ]
  ]
]
  where
    committed :
        (target : Text) (m : Result Registry)
        → consume r row target id h now ≡ m
        → commit r m ≡ (r', ok u)
        → r'.codes ≡ update_codes (unused row.code_id) (used id now) r.codes
    committed target (err f) made c = absurd (cc)
    committed target (ok x) made c =
        ap (λ (p : Registry × Result (Unit {0})). p.0.codes) (sym c)
        ∙ consume-codes r row target id h now made

exchange-Redeemed :
    (hash : Text → Text) (r : Registry) (code claimed id credential : Text) (now : ℕ)
    {r' : Registry} {u : Unit {0}}
    → exchange_enrollment_code hash r code claimed id credential now ≡ (r', ok u)
    → Redeemed hash r r' code id now
unfolding exchange_enrollment_code exchange_row redeemable
exchange-Redeemed hash r code claimed id credential now {r'} {u} e =
    elim (Option-cases (find (has_hash (hash code)) r.codes)) [
      | inl m ↦ absurd (ground (arith, m, e))
      | inr (row, f) ↦ go row f (redeemable r row now) refl (ground (arith, f, e))
    ]
  where
    go :
        (row : Code)
        → find (has_hash (hash code)) r.codes ≡ some row
        → (m : Result (Unit {0})) → redeemable r row now ≡ m
        → exchange_row r row claimed id (hash credential) now ≡ (r', ok u)
        → Redeemed hash r r' code id now
    go row f (err w) bad x = absurd (cc (rw (exchange_row, bad) at x))
    go row f (ok v) good x = record {
      row = row;
      found = f;
      free = ground (arith, good);
      codes = redeem-codes r row claimed id (hash credential) now (rw (exchange_row, good) at x);
    }

-- The first row with a hash is still the first one after rows are rewritten that keep their hashes.
find-update_codes :
    (h : Text) (test : Code → Bool) (f : Code → Code) (cs : List Code) {row : Code}
    → ((c : Code) → (f c).code_hash ≡ c.code_hash)
    → find (has_hash h) cs ≡ some row
    → test row ≡ true
    → find (has_hash h) (update_codes test f cs) ≡ some (f row)
unfolding find update_codes
find-update_codes h test f [] k e t = absurd (cc)
find-update_codes h test f (c ∷ cs) {row} k e t = elim (Bool-cases (has_hash h c)) [
  | inl here ↦
      let same : c ≡ row = ground (arith, here, e) in
      let hit : test c ≡ true = subst (λ (x : Code). test x ≡ true) (sym same) t in
      let kept : has_hash h (f c) ≡ true = ap (λ x. text_eq x h) (k c) ∙ here in
      rw (hit, kept) (ap (λ (x : Code). some (f x)) same)
  | inr away ↦
      let rest = find-update_codes h test f cs k (ground (arith, away, e)) t in
      let kept : has_hash h (f c) ≡ false = ap (λ x. text_eq x h) (k c) ∙ away in
      elim (Bool-cases (test c)) [ inl hit ↦ rw (hit, kept) rest | inr miss ↦ rw (miss, away) rest ]
]

-- A code is good once: after an exchange that succeeded, every exchange of the same code is refused with
-- a conflict, whoever claims it, for whatever domain and whenever.
pub exchange_once :
    (hash : Text → Text) (r : Registry) (code claimed claimed' id id' credential credential' : Text)
    (now now' : ℕ) {r' : Registry} {u : Unit {0}}
    → exchange_enrollment_code hash r code claimed id credential now ≡ (r', ok u)
    → (exchange_enrollment_code hash r' code claimed' id' credential' now').1 ≡ err conflict
unfolding exchange_enrollment_code exchange_row redeemable
exchange_once hash r code claimed claimed' id id' credential credential' now now' {r'} e =
    let d = exchange-Redeemed hash r code claimed id credential now e in
    let test = unused d.row.code_id in
    let hit : test d.row ≡ true = rw (text_eq_refl d.row.code_id, d.free) refl in
    let again : find (has_hash (hash code)) r'.codes ≡ some (used id now d.row) =
      ap (find (has_hash (hash code))) d.codes
      ∙ find-update_codes (hash code) test (used id now) r.codes (λ c. refl) d.found hit in
    rw (exchange_enrollment_code, again) refl
