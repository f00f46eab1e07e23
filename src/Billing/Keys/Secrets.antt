-- ===== src/Billing/Keys/Secrets.antt =====
-- What holds of the table of signing keys after any calls (billing-service/app/lib/database.js).
use hosting_control_panel.Common.{
  ℕ, ◌≡◌, refl, sym, ap, subst, Bool, true, false, ◌||◌, none, some, List, [], ◌∷◌, ◌++◌, find,
  find_holds, any, All, All-append, All-of_mem, mem-All, Bool-cases, Option-cases, inl, inr, Text,
  text_eq, text_eq_sound, text_eq_refl, arith,
}
use hosting_control_panel.Billing.Payment.{ok}
use hosting_control_panel.Billing.Keys.Ring.{
  Key, NewKey, is_key, is_retired, active_key, update_keys, key_of, insert_key, init_signing_key,
  superseded, is_current, rotate_signing_key, overlap_over, retired, retire_signing_key, Step,
  initialized, rotated, was_retired,
}
use hosting_control_panel.Billing.Keys.Phases.{
  Apart, Pairwise, Pairwise-append, Tame, All-update_keys, Pairwise-update_keys, find_only, id_once,
  active_once, find-none, any-none,
}

-- A row that holds a private key is the active one, which is not retired.
pub record IsSecret (k : Key) : Type 0 where
  pub spent : k.is_active ≡ false → k.private_key_encrypted ≡ []
  pub live : k.is_active ≡ true → k.retired_at ≡ none

-- Ids are distinct, one row is active at most, and no other row has a private key.
pub record IsRing (ks : List Key) : Type 0 where
  pub apart : Pairwise ks
  pub secrets : All IsSecret ks

pub Tame-superseded : (now : ℕ) → Tame (superseded now)
Tame-superseded now = record { key_id = λ k. refl; inactive = λ k e. refl }

pub Tame-retired : (now : ℕ) → Tame (retired now)
Tame-retired now = record { key_id = λ k. refl; inactive = λ k e. e }

-- An accepted `INSERT`, among rows that are all inactive.
pub record Inserted (n : NewKey) (now : ℕ) (ks ks' : List Key) : Type 0 where
  pub fresh : All (λ k. is_key n.key_id k ≡ false) ks
  pub row : ks' ≡ ks ++ key_of n now ∷ []

pub insert-Inserted :
    (n : NewKey) (now : ℕ) (ks : List Key) {ks' : List Key}
    → insert_key n now ks ≡ ok ks'
    → Inserted n now ks ks'
unfolding insert_key
insert-Inserted n now ks {ks'} e = elim (Bool-cases (any (is_key n.key_id) ks)) [
  | inl t ↦ absurd (ground (arith, t, e))
  | inr t ↦ record { fresh = any-none (is_key n.key_id) ks t; row = ground (arith, t, e) }
]

Apart-new :
    (n : NewKey) (now : ℕ) (k : Key)
    → k.is_active ≡ false
    → is_key n.key_id k ≡ false
    → Apart k (key_of n now)
Apart-new n now k off other = record {
  ids = λ e.
      absurd (cc (other, subst (λ x. text_eq k.key_id x ≡ true) (sym e) (text_eq_refl k.key_id)));
  activity = rw off refl;
}

Inserted-IsRing :
    {n : NewKey} {now : ℕ} {ks ks' : List Key}
    → All (λ k. k.is_active ≡ false) ks
    → Inserted n now ks ks'
    → IsRing ks
    → IsRing ks'
Inserted-IsRing {n} {now} {ks} {ks'} off i r = subst IsRing (sym i.row) (record {
  apart = Pairwise-append ks (key_of n now) r.apart (
      All-of_mem (λ k. Apart k (key_of n now)) ks
        λ k m.
          Apart-new n now k (mem-All (λ k. k.is_active ≡ false) ks m off)
            (mem-All (λ k. is_key n.key_id k ≡ false) ks m i.fresh));
  secrets =
      All-append IsSecret ks (key_of n now ∷ []) r.secrets
        (record { spent = λ e. absurd (cc (e)); live = λ e. refl }, tt);
})

-- The rows of a rotation before the new key.
pub superseded_off :
    (now : ℕ) (ks : List Key) {row : Key}
    → IsRing ks
    → find active_key ks ≡ some row
    → All (λ k. k.is_active ≡ false) (update_keys (is_current row.key_id) (superseded now) ks)
superseded_off now ks {row} r e =
    All-update_keys (is_current row.key_id) (superseded now) (λ k. k.is_active ≡ true → k ≡ row)
      (λ k. k.is_active ≡ false) ks (λ k only t. refl)
      (λ k only t. elim (Bool-cases (k.is_active)) [
        | inl on ↦
            let mine : is_key row.key_id k ≡ true =
              subst (λ (x : Key). text_eq x.key_id row.key_id ≡ true) (sym (only on))
                (text_eq_refl row.key_id) in
            absurd (ground (arith, mine, on, t))
        | inr off ↦ off
      ])
      (find_only active_key ks active_once r.apart e)

superseded-IsRing :
    (now : ℕ) (id : Text) (ks : List Key)
    → IsRing ks
    → IsRing (update_keys (is_current id) (superseded now) ks)
superseded-IsRing now id ks r = record {
  apart = Pairwise-update_keys (is_current id) (superseded now) ks (Tame-superseded now) r.apart;
  secrets =
      All-update_keys (is_current id) (superseded now) IsSecret IsSecret ks
        (λ k s t. record { spent = λ e. refl; live = λ e. absurd (cc (e)) }) (λ k s t. s) r.secrets;
}

-- What an accepted rotation found and did.
pub record Rotated (n : NewKey) (now : ℕ) (ks ks' : List Key) : Type 0 where
  pub previous : Key
  pub found : find active_key ks ≡ some previous
  pub inserted : Inserted n now (update_keys (is_current previous.key_id) (superseded now) ks) ks'

pub rotate-Rotated :
    (ks : List Key) (n : NewKey) (expected : Text) (now : ℕ) {ks' : List Key}
    → rotate_signing_key ks n expected now ≡ ok ks'
    → Rotated n now ks ks'
unfolding rotate_signing_key
rotate-Rotated ks n expected now {ks'} e = elim (Option-cases (find active_key ks)) [
  | inl m ↦ absurd (ground (arith, m, e))
  | inr (row, f) ↦ elim (Bool-cases (text_eq row.key_id expected)) [
    | inl t ↦ record {
      previous = row;
      found = f;
      inserted =
          insert-Inserted n now (update_keys (is_current row.key_id) (superseded now) ks)
            (ground (arith, f, t, e));
    }
    | inr t ↦ absurd (ground (arith, f, t, e))
  ]
]

-- What an accepted retirement found and did.
pub data Retired (id : Text) (emergency : Bool) (now : ℕ) (ks ks' : List Key) : Bool → Type 0 where
  again :
      (k : Key)
      → find (is_key id) ks ≡ some k
      → k.is_active ≡ false
      → is_retired k ≡ true
      → ks' ≡ ks
      → Retired id emergency now ks ks' true
  at_last :
      (k : Key)
      → find (is_key id) ks ≡ some k
      → k.is_active ≡ false
      → is_retired k ≡ false
      → (emergency || overlap_over k now) ≡ true
      → ks' ≡ update_keys (is_key k.key_id) (retired now) ks
      → Retired id emergency now ks ks' false

pub retire-Retired :
    (ks : List Key) (id : Text) (emergency : Bool) (now : ℕ) (already : Bool) {ks' : List Key}
    → retire_signing_key ks id emergency now ≡ ok (ks', already)
    → Retired id emergency now ks ks' already
unfolding retire_signing_key
retire-Retired ks id emergency now already {ks'} e = elim (Option-cases (find (is_key id) ks)) [
  | inl m ↦ absurd (ground (arith, m, e))
  | inr (k, f) ↦ elim (Bool-cases (k.is_active)) [
    | inl on ↦ absurd (ground (arith, f, on, e))
    | inr off ↦ elim (Bool-cases (is_retired k)) [
      | inl t ↦
          let flag : true ≡ already = ground (arith, f, off, t, e) in
          subst (Retired id emergency now ks ks') flag
            (again k f off t (ground (arith, f, off, t, e)))
      | inr t ↦ elim (Bool-cases (emergency || overlap_over k now)) [
        | inl over ↦
            let flag : false ≡ already = ground (arith, f, off, t, over, e) in
            subst (Retired id emergency now ks ks') flag
              (at_last k f off t over (ground (arith, f, off, t, over, e)))
        | inr early ↦ absurd (ground (arith, f, off, t, early, e))
      ]
    ]
  ]
]

Retired-IsRing :
    {id : Text} {emergency : Bool} {now : ℕ} {ks ks' : List Key} {already : Bool}
    → Retired id emergency now ks ks' already
    → IsRing ks
    → IsRing ks'
Retired-IsRing (again k f off t same) r = subst IsRing (sym same) r
Retired-IsRing {id} {emergency} {now} {ks} (at_last k f off t over done) r =
    let same_id = text_eq_sound k.key_id id (find_holds (is_key id) ks f) in
    let only = find_only (is_key id) ks (id_once id) r.apart f in
    let both : All (λ x. (is_key id x ≡ true → x ≡ k) × IsSecret x) ks =
      All-of_mem (λ x. (is_key id x ≡ true → x ≡ k) × IsSecret x) ks
        λ x m.
          (mem-All (λ x. is_key id x ≡ true → x ≡ k) ks m only, mem-All IsSecret ks m r.secrets) in
    subst IsRing (sym done) (record {
      apart = Pairwise-update_keys (is_key k.key_id) (retired now) ks (Tame-retired now) r.apart;
      secrets =
          All-update_keys (is_key k.key_id) (retired now)
            (λ x. (is_key id x ≡ true → x ≡ k) × IsSecret x) IsSecret ks
            (λ x h t. record {
              spent = λ e. refl;
              live = λ on.
                  let it : x ≡ k = h.0 (subst (λ y. text_eq x.key_id y ≡ true) same_id t) in
                  absurd (cc (off, on, ap (λ (y : Key). y.is_active) it));
            })
            (λ x h t. h.1) both;
    })

pub Step-IsRing : {ks ks' : List Key} → Step ks ks' → IsRing ks → IsRing ks'
unfolding init_signing_key
Step-IsRing {ks} {ks'} (initialized n now e) r = elim (Option-cases (find active_key ks)) [
  | inl m ↦
      Inserted-IsRing (find-none active_key ks m) (insert-Inserted n now ks (ground (arith, m, e)))
        r
  | inr (k, f) ↦ absurd (ground (arith, f, e))
]
Step-IsRing {ks} {ks'} (rotated n expected now e) r =
    let h = rotate-Rotated ks n expected now e in
    Inserted-IsRing (superseded_off now ks r h.found) h.inserted
      (superseded-IsRing now h.previous.key_id ks r)
Step-IsRing {ks} {ks'} (was_retired id emergency now already e) r =
    Retired-IsRing (retire-Retired ks id emergency now already e) r

pub data Reach : List Key → Type 0 where
  start : Reach []
  next : {ks ks' : List Key} → Reach ks → Step ks ks' → Reach ks'

-- In every table that the calls reach, ids are distinct, at most one key is active, that key is not
-- retired, and no other row still holds a private key.
pub Reach-IsRing : {ks : List Key} → Reach ks → IsRing ks
Reach-IsRing start = record { apart = tt; secrets = tt }
Reach-IsRing (next reached step) = Step-IsRing step (Reach-IsRing reached)
