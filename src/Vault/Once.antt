-- ===== src/Vault/Once.antt =====
-- Who gets a secret out of the vault of ui-manager/app/lib/one-time-vault.js, and how often.
use hosting_control_panel.Common.{
  ℕ, ◌+◌, ◌≡◌, ◌<◌, refl, sym, ap, subst, ◌∙◌, Bool, true, false, not, none, some, List, [], ◌∷◌,
  select, find, Text, text_eq, text_eq_sound, text_eq_refl, Bool-cases, Option-cases, inl, inr,
  arith,
}
use hosting_control_panel.Vault.Store.{
  Cipher, IsCipher, Sealed, Vault, expired, prune, valid_id, assign, has_id, lookup, delete, put,
  nothing, value, take_secret, persist,
}

-- No record under an id.
abbrev Lacks : Text → List Sealed → Type 0
Lacks id rs = find (has_id id) rs ≡ none

Lacks-delete : (id : Text) (rs : List Sealed) → Lacks id (delete id rs)
unfolding delete select find
Lacks-delete id [] = refl
Lacks-delete id (r ∷ rs) = ground (arith, Lacks-delete id rs)

Lacks-select :
    (id : Text) (p : Sealed → Bool) (rs : List Sealed) → Lacks id rs → Lacks id (select p rs)
unfolding select find
Lacks-select id p [] h = refl
Lacks-select id p (r ∷ rs) h = ground (arith, h, Lacks-select id p rs)

Lacks-prune :
    (id : Text) (v : Vault) (now : ℕ) → Lacks id v.records → Lacks id (prune v now).records
unfolding prune
Lacks-prune id v now h = ground (arith, h, Lacks-select id (λ r. not (expired now r)) v.records)

take_secret-Lacks :
    (cipher : Cipher) (v : Vault) (id owner : Text) (now : ℕ)
    → Lacks id v.records
    → (take_secret cipher v id owner now).1 ≡ nothing
unfolding take_secret lookup
take_secret-Lacks cipher v id owner now h = rw (Lacks-prune id v now h, take_secret)

-- What a successful take was given: the record of the id, the owner's and not expired.
record Held (cipher : Cipher) (v : Vault) (id owner : Text) (now : ℕ) (v' : Vault) (plain : Text)
    : Type 0 where
  sealed_record : Sealed
  found : find (has_id id) (prune v now).records ≡ some sealed_record
  owned : sealed_record.owner ≡ owner
  opened : cipher.open_sealed (prune v now).key sealed_record.iv sealed_record.sealed ≡ some plain
  left : v'.records ≡ delete id (prune v now).records

take_secret-Held :
    (cipher : Cipher) (v : Vault) (id owner : Text) (now : ℕ) {v' : Vault} {plain : Text}
    → take_secret cipher v id owner now ≡ (v', value plain)
    → Held cipher v id owner now v' plain
unfolding take_secret lookup
take_secret-Held cipher v id owner now e =
    elim (Option-cases (find (has_id id) (prune v now).records)) [
      | inl missing ↦ absurd (ground (arith, missing, e))
      | inr (r, there) ↦ elim (Bool-cases (text_eq r.owner owner)) [
        | inr other ↦ absurd (ground (arith, there, other, e))
        | inl same ↦ elim (Option-cases (cipher.open_sealed (prune v now).key r.iv r.sealed)) [
          | inl shut ↦ absurd (ground (arith, there, same, shut, e))
          | inr (p, clear) ↦ record {
            sealed_record = r;
            found = there;
            owned = text_eq_sound r.owner owner same;
            opened = ground (arith, there, same, clear, e);
            left = ground (arith, there, same, clear, e);
          }
        ]
      ]
    ]

-- A secret is taken at most once: after a take that gave a value, a take of the same id gives nothing,
-- whoever asks and whenever.
pub take_once :
    (cipher : Cipher) (v : Vault) (id owner owner' : Text) (now now' : ℕ) {v' : Vault}
    {plain : Text}
    → take_secret cipher v id owner now ≡ (v', value plain)
    → (take_secret cipher v' id owner' now').1 ≡ nothing
take_once cipher v id owner owner' now now' {v'} e =
    let held = take_secret-Held cipher v id owner now e in
    take_secret-Lacks cipher v' id owner' now'
      (ap (find (has_id id)) held.left ∙ Lacks-delete id (prune v now).records)

find-assign : (r : Sealed) (rs : List Sealed) → find (has_id r.id) (assign r rs) ≡ some r
unfolding assign find
find-assign r [] = rw (text_eq_refl r.id)
find-assign r (s ∷ ss) = ground (arith, text_eq_refl r.id, find-assign r ss)

find-select :
    (p q : Sealed → Bool) (rs : List Sealed) {r : Sealed}
    → find p rs ≡ some r
    → q r ≡ true
    → find p (select q rs) ≡ some r
unfolding find select
find-select p q [] h k = h
find-select p q (s ∷ ss) {r} h k = elim (Bool-cases (p s)) [
  | inl t ↦
      let e : s ≡ r = ground (arith, t, h) in
      let kept : q s ≡ true = subst (λ x. q x ≡ true) (sym e) k in ground (arith, t, kept, e)
  | inr f ↦
      let rest : find p (select q ss) ≡ some r = find-select p q ss (ground (arith, f, h)) k in
      ground (arith, f, rest)
]

find-prune :
    (id : Text) (v : Vault) (now : ℕ) {r : Sealed}
    → find (has_id id) v.records ≡ some r
    → expired now r ≡ false
    → find (has_id id) (prune v now).records ≡ some r
unfolding prune
find-prune id v now h k =
    ground (arith, h, find-select (has_id id) (λ r. not (expired now r)) v.records h (rw k))

prune_key : (v : Vault) (now : ℕ) → (prune v now).key ≡ v.key
unfolding prune
prune_key v now = ground arith

take_secret-finds :
    (cipher : Cipher) (v : Vault) (id : Text) (now : ℕ) (r : Sealed) {plain : Text}
    → find (has_id id) v.records ≡ some r
    → expired now r ≡ false
    → cipher.open_sealed v.key r.iv r.sealed ≡ some plain
    → (take_secret cipher v id r.owner now).1 ≡ value plain
unfolding lookup take_secret
take_secret-finds cipher v id now r there fresh clear =
    rw (take_secret, find-prune id v now there fresh, text_eq_refl r.owner, prune_key v now, clear)

abbrev sealed_as : Cipher → Vault → Text → Text → Text → Text → ℕ → Sealed
sealed_as cipher v id owner plain iv now = record {
  id = id;
  owner = owner;
  created_at = now;
  expires_at = now + v.ttl_ms;
  iv = iv;
  sealed = cipher.seal v.key iv plain;
}

-- A secret that was put is there for its owner until it expires: the first take before that gives
-- exactly the value. The cipher opens what it sealed.
pub put_take :
    (cipher : Cipher)
    → IsCipher cipher
    → (v : Vault) (id owner plain iv : Text) (now now' : ℕ) → valid_id id ≡ true
    → now' < now + v.ttl_ms
    → (v' : Vault) × (put cipher v id owner plain iv now ≡ some (v', now + v.ttl_ms))
      × ((take_secret cipher v' id owner now').1 ≡ value plain)
unfolding put
put_take cipher law v id owner plain iv now now' good before =
    let r = sealed_as cipher v id owner plain iv now in
    let v' = persist (record v { records = assign r v.records }) in
    (
      v',
      rw (good) refl,
      take_secret-finds cipher v' id now' r (find-assign r v.records) (ground (arith, before))
          (law.opens v.key iv plain),
    )
