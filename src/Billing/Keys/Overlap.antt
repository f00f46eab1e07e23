-- ===== src/Billing/Keys/Overlap.antt =====
-- What a retirement does to the keys that still verify (billing-service/app/lib/database.js).
use hosting_control_panel.Common.{
  ℕ, ◌≡◌, ◌≤◌, refl, sym, ap, subst, ◌∙◌, Bool, true, false, not, ◌&&◌, List, [], ◌∷◌, select, All,
  All-map, Bool-cases, Option-cases, inl, inr, ◌⊎◌, if◌then◌else◌, Text, text_eq, text_eq_sound,
  find_holds, arith,
}
use hosting_control_panel.Billing.Payment.{ok}
use hosting_control_panel.Billing.Keys.Ring.{
  Key, is_key, is_retired, update_keys, overlap_over, retired, retire_signing_key, verifies,
  eligible_public_keys,
}
use hosting_control_panel.Billing.Keys.Phases.{find_only, id_once}
use hosting_control_panel.Billing.Keys.Secrets.{
  Retired, again, at_last, retire-Retired, Reach, Reach-IsRing,
}

over-silent :
    (k : Key) (now t : ℕ)
    → now ≤ t
    → k.is_active ≡ false
    → overlap_over k now ≡ true
    → verifies t k ≡ false
over-silent k now t later off e = elim (Option-cases k.rotated_at) [
  | inl m ↦ absurd (ground (arith, m, e))
  | inr (at, m) ↦ ground (arith, m, off, e)
]

-- Two rows that a test does not tell apart.
abbrev Same : (Key → Bool) → Key → Key → Type 0
Same p x y = (x ≡ y) ⊎ ((p x ≡ false) × (p y ≡ false))

select-Same :
    (p : Key → Bool) (x y : Key) (xs ys : List Key)
    → Same p x y
    → select p xs ≡ select p ys
    → select p (x ∷ xs) ≡ select p (y ∷ ys)
unfolding select
select-Same p x y xs ys (inl e) rest =
    ap (λ z. select p (z ∷ xs)) e ∙ ap (λ zs. if p y then y ∷ zs else zs) rest
select-Same p x y xs ys (inr (f, g)) rest = rw (f, g) rest

abbrev is_eligible : ℕ → Key → Bool
is_eligible t k = not (is_retired k) && verifies t k

select-retired :
    (id : Text) (now t : ℕ) (ks : List Key)
    → All (λ k. is_key id k ≡ true → verifies t k ≡ false) ks
    → select (is_eligible t) (update_keys (is_key id) (retired now) ks) ≡ select (is_eligible t) ks
unfolding update_keys
select-retired id now t [] a = refl
select-retired id now t (k ∷ ks) a =
    select-Same (is_eligible t) (if is_key id k then retired now k else k) k
      (update_keys (is_key id) (retired now) ks) ks
      (elim (Bool-cases (is_key id k)) [
        | inl h ↦ rw h (
            inr (
              refl,
              elim (Bool-cases (is_retired k)) [ inl r ↦ rw r refl | inr r ↦ rw (r, a.0 h) refl ],
            ))
        | inr h ↦ inl (rw h refl)
      ])
      (select-retired id now t ks a.1)

-- A key that is retired without emergency verifies nothing any more: from then on, the public keys that
-- clients accept are the same with the retirement as without it.
pub retire_withdraws_nothing :
    {ks ks' : List Key} (id : Text) (now t : ℕ) (already : Bool)
    → Reach ks
    → retire_signing_key ks id false now ≡ ok (ks', already)
    → now ≤ t
    → eligible_public_keys ks' t ≡ eligible_public_keys ks t
unfolding eligible_public_keys
retire_withdraws_nothing {ks} {ks'} id now t already reached e later =
    go (retire-Retired ks id false now already e)
  where
    go :
        {b : Bool}
        → Retired id false now ks ks' b
        → eligible_public_keys ks' t ≡ eligible_public_keys ks t
    go (again k f off r same) = ap (λ xs. eligible_public_keys xs t) same
    go (at_last k f off r over done) =
        let is_id = text_eq_sound k.key_id id (find_holds (is_key id) ks f) in
        let only = find_only (is_key id) ks (id_once id) (Reach-IsRing reached).apart f in
        let silent : All (λ x. is_key k.key_id x ≡ true → verifies t x ≡ false) ks =
          All-map (λ x. is_key k.key_id x ≡ true → verifies t x ≡ false) ks
            (λ x it h.
              subst (λ (y : Key). verifies t y ≡ false)
                (sym (it (subst (λ y. text_eq x.key_id y ≡ true) is_id h)))
                (over-silent k now t later off over))
            only in
        ap (λ xs. eligible_public_keys xs t) done ∙ select-retired k.key_id now t ks silent
