-- ===== src/Billing/Keys/Ring.antt =====
-- The table `signing_keys` of billing-service/app/lib/database.js and the calls on it.
use hosting_control_panel.Common.{
  ◌≡◌, ℕ, ◌+◌, ◌*◌, min, Bool, true, false, not, ◌&&◌, ◌||◌, Option, none, some, List, [], ◌∷◌,
  ◌++◌, find, any, select, leb, ltb, if◌then◌else◌, Text, text_eq,
}
use hosting_control_panel.Billing.Payment.{
  Result, ok, err, ◌>>=◌, ◌>>◌, guard, or_fail, bad_request, not_found, conflict, server_error,
}

-- A row; a time that is empty is `none`.
pub record Key : Type 0 where
  pub key_id : Text
  pub public_key : Text
  pub private_key_encrypted : Text
  pub is_active : Bool
  pub created_at : ℕ
  pub expires_at : ℕ
  pub rotated_at : Option ℕ
  pub retired_at : Option ℕ
  pub overlap_hours : ℕ

abbrev pub is_key : Text → Key → Bool
is_key id k = text_eq k.key_id id

abbrev pub is_retired : Key → Bool
is_retired k = elim k.retired_at [ none ↦ false | some _ ↦ true ]

abbrev pub active_key : Key → Bool
active_key k = k.is_active

-- `UPDATE signing_keys SET … WHERE …`
unfoldable pub update_keys : (Key → Bool) → (Key → Key) → List Key → List Key
update_keys test f [] = []
update_keys test f (k ∷ ks) = (if test k then f k else k) ∷ update_keys test f ks

-- What the caller gives for a new key.
pub record NewKey : Type 0 where
  pub key_id : Text
  pub public_key : Text
  pub private_key_encrypted : Text
  pub expires_at : ℕ
  pub overlap_hours : ℕ

abbrev pub key_of : NewKey → ℕ → Key
key_of n now = record {
  key_id = n.key_id;
  public_key = n.public_key;
  private_key_encrypted = n.private_key_encrypted;
  is_active = true;
  created_at = now;
  expires_at = n.expires_at;
  rotated_at = none;
  retired_at = none;
  overlap_hours = n.overlap_hours;
}

-- The `INSERT` fails on a key id that is there.
unfoldable pub insert_key : NewKey → ℕ → List Key → Result (List Key)
unfolding any
insert_key n now ks =
    if any (is_key n.key_id) ks then err server_error else ok (ks ++ key_of n now ∷ [])

-- `initSigningKey`
unfoldable pub init_signing_key : List Key → NewKey → ℕ → Result (List Key)
unfolding find insert_key
init_signing_key ks n now = elim (find active_key ks) [
  | some _ ↦ err conflict
  | none ↦ insert_key n now ks
]

abbrev pub superseded : ℕ → Key → Key
superseded now k = record k { is_active = false; rotated_at = some now; private_key_encrypted = [] }

abbrev pub is_current : Text → Key → Bool
is_current id k = is_key id k && k.is_active

-- `rotateSigningKey`
unfoldable pub rotate_signing_key : List Key → NewKey → Text → ℕ → Result (List Key)
unfolding find update_keys insert_key
rotate_signing_key ks n expected now = do
  active ← or_fail (find active_key ks) bad_request
  guard (text_eq active.key_id expected) conflict
  insert_key n now (update_keys (is_current active.key_id) (superseded now) ks)

-- The end of the overlap of a key that was rotated: `none` where `Date.parse` gives no number.
abbrev pub overlap_end : Key → Option ℕ
overlap_end k = elim k.rotated_at [
  | none ↦ none
  | some t ↦ some (min k.expires_at (t + k.overlap_hours * 3600000))
]

abbrev pub overlap_over : Key → ℕ → Bool
overlap_over k now = elim (overlap_end k) [ none ↦ false | some t ↦ leb t now ]

abbrev pub retired : ℕ → Key → Key
retired now k = record k { retired_at = some now; private_key_encrypted = [] }

-- `retireSigningKey(keyId, emergency, actor)`: the keys and `alreadyRetired`.
unfoldable pub retire_signing_key : List Key → Text → Bool → ℕ → Result (List Key × Bool)
unfolding find update_keys
retire_signing_key ks id emergency now = do
  k ← or_fail (find (is_key id) ks) not_found
  guard (not k.is_active) conflict
  elim (is_retired k) [
    | true ↦ ok (ks, true)
    | false ↦ do
      guard (emergency || overlap_over k now) conflict
      ok (update_keys (is_key k.key_id) (retired now) ks, false)
  ]

-- `activeSigningKeyRaw(now)`
unfoldable pub active_signing_key : List Key → ℕ → Option Key
unfolding find
active_signing_key ks now = find (λ k. k.is_active && not (is_retired k) && ltb now k.expires_at) ks

abbrev pub verifies : ℕ → Key → Bool
verifies now k =
    if k.is_active
    then ltb now k.expires_at
    else ltb now k.expires_at
      && elim k.rotated_at [ none ↦ false | some t ↦ ltb now (t + k.overlap_hours * 3600000) ]

-- `eligiblePublicKeys(now)`: the rows, in the order of the table.
unfoldable pub eligible_public_keys : List Key → ℕ → List Key
unfolding select
eligible_public_keys ks now = select (λ k. not (is_retired k) && verifies now k) ks

-- The calls that change the table.
pub data Step (ks : List Key) : List Key → Type 0 where
  initialized :
      (n : NewKey) (now : ℕ) {ks' : List Key} → init_signing_key ks n now ≡ ok ks' → Step ks ks'
  rotated :
      (n : NewKey) (expected : Text) (now : ℕ) {ks' : List Key}
      → rotate_signing_key ks n expected now ≡ ok ks'
      → Step ks ks'
  was_retired :
      (id : Text) (emergency : Bool) (now : ℕ) (already : Bool) {ks' : List Key}
      → retire_signing_key ks id emergency now ≡ ok (ks', already)
      → Step ks ks'
