-- ===== src/Vault/Store.antt =====
-- `OneTimeVault` of ui-manager/app/lib/one-time-vault.js. The cipher is a parameter, a value is the
-- text that `JSON.stringify` gives, and an object is a list of its properties.
use hosting_control_panel.Common.{
  ℕ, ◌+◌, ◌*◌, ◌≡◌, min, max, Bool, true, false, not, ◌&&◌, ◌||◌, Option, none, some, List, [], ◌∷◌,
  any, select, find, length, leb, ◌==◌, if◌then◌else◌, Text, text_eq,
}

-- AES-256-GCM with a key and an initialisation vector: the tag and the ciphertext. Opening fails on a
-- tag that does not fit.
pub record Cipher : Type 0 where
  pub seal : Text → Text → Text → Text × Text
  pub open_sealed : Text → Text → Text × Text → Option Text

pub record IsCipher (c : Cipher) : Type 0 where
  pub opens : (key iv value : Text) → c.open_sealed key iv (c.seal key iv value) ≡ some value

pub record Sealed : Type 0 where
  pub id : Text
  pub owner : Text
  pub created_at : ℕ
  pub expires_at : ℕ
  pub iv : Text
  pub sealed : Text × Text

-- `stored` is what the file of the vault holds.
pub record Vault : Type 0 where
  pub ttl_ms : ℕ
  pub key : Text
  pub records : List Sealed
  pub stored : List Sealed

-- `boundedTtl(value)`, of a number that may be missing.
unfoldable pub bounded_ttl : Option ℕ → ℕ
bounded_ttl none = 24 * 3600000
bounded_ttl (some hours) = min (max (if hours == 0 then 24 else hours) 1) 168 * 3600000

abbrev pub persist : Vault → Vault
persist v = record v { stored = v.records }

abbrev pub expired : ℕ → Sealed → Bool
expired now r = leb r.expires_at now

-- `prune()`
unfoldable pub prune : Vault → ℕ → Vault
unfolding any select
prune v now =
    if any (expired now) v.records
    then persist (record v { records = select (λ r. not (expired now r)) v.records })
    else v

abbrev is_id_unit : ℕ → Bool
is_id_unit c = (leb 48 c && leb c 57) || (leb 97 c && leb c 102) || (c == b'-')

-- `/^[0-9a-f-]{36}$/`
unfoldable pub valid_id : Text → Bool
unfolding any
valid_id s = (length s == 36) && not (any (λ c. not (is_id_unit c)) s)

-- `records[id] = record`: a property that is there keeps its place.
unfoldable pub assign : Sealed → List Sealed → List Sealed
assign r [] = r ∷ []
assign r (s ∷ ss) = let rest = assign r ss in if text_eq s.id r.id then r ∷ ss else s ∷ rest

abbrev pub has_id : Text → Sealed → Bool
has_id id r = text_eq r.id id

-- `records[id]`
unfoldable pub lookup : Vault → Text → Option Sealed
unfolding find
lookup v id = find (has_id id) v.records

-- `delete records[id]`
unfoldable pub delete : Text → List Sealed → List Sealed
unfolding select
delete id rs = select (λ r. not (has_id id r)) rs

-- `put(id, owner, value)`: the vault and the expiry, or `none` where it throws.
unfoldable pub put : Cipher → Vault → Text → Text → Text → Text → ℕ → Option (Vault × ℕ)
unfolding valid_id assign
put cipher v id owner value iv now =
    if valid_id id
    then some (
      persist (record v {
        records =
            assign
              (record {
                id = id;
                owner = owner;
                created_at = now;
                expires_at = now + v.ttl_ms;
                iv = iv;
                sealed = cipher.seal v.key iv value;
              })
              v.records;
      }),
      now + v.ttl_ms,
    )
    else none

-- `has(id, owner)`
unfoldable pub has : Vault → Text → Text → ℕ → Vault × Bool
unfolding prune lookup
has v id owner now =
    let v' = prune v now in
    (v', elim (lookup v' id) [ none ↦ false | some r ↦ text_eq r.owner owner ])

-- What `take` answers: `null`, the value, or an error of the cipher.
pub data Taken : Type 0 where
  nothing broken : Taken
  value : Text → Taken

-- `take(id, owner)`
unfoldable pub take_secret : Cipher → Vault → Text → Text → ℕ → Vault × Taken
unfolding prune lookup delete
take_secret cipher v id owner now =
    let v' = prune v now in
    elim (lookup v' id) [
      | none ↦ (v', nothing)
      | some r ↦
          if not (text_eq r.owner owner)
          then (v', nothing)
          else elim (cipher.open_sealed v'.key r.iv r.sealed) [
            | none ↦ (v', broken)
            | some plain ↦ (persist (record v' { records = delete id v'.records }), value plain)
          ]
    ]

-- `remove(id)`
unfoldable pub remove : Vault → Text → Vault × Bool
unfolding lookup delete
remove v id = elim (lookup v id) [
  | none ↦ (v, false)
  | some r ↦ (persist (record v { records = delete id v.records }), true)
]
