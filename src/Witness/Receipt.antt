-- ===== src/Witness/Receipt.antt =====
-- `verifyWitnessReceipt` of ui-manager/app/lib/fence-receipt.js.
use hosting_control_panel.Common.{
  ℕ, ◌+◌, Bool, not, ◌&&◌, ◌||◌, none, some, List, [], ◌∷◌, any, length, leb, ltb, ◌==◌,
  if◌then◌else◌, Text, text, text_eq, includes,
}
use hosting_control_panel.Witness.Platform.{Platform}
use hosting_control_panel.Witness.Worker.{
  Receipt, canonical_receipt, valid_server_id, valid_recovery_id, is_alnum,
}

-- `NONCE`, `/^[A-Za-z0-9._~-]{16,128}$/`
unfoldable pub valid_nonce : Text → Bool
unfolding any
valid_nonce s =
    leb 16 (length s)
    && leb (length s) 128
    && not
        (any (λ c. not (is_alnum c || (c == b'.') || (c == b'_') || (c == b'~') || (c == b'-'))) s)

pub record Verified : Type 0 where
  pub primary_server_id : Text
  pub recovery_id : Text
  pub method : Text
  pub fenced_at : ℕ
  pub expires_at : ℕ
  pub witness_nonce : Text

pub data Verdict : Type 0 where
  verified : Verified → Verdict
  bad_fields bad_timestamps bad_signature : Verdict

abbrev methods : List Text
methods = text "power" ∷ text "network" ∷ text "service" ∷ []

-- What the receipt says, against the server and the recovery point that are expected.
unfoldable pub fields_ok : Receipt → Text → Text → Bool
unfolding valid_nonce text text_eq includes
fields_ok r server recovery =
    (r.version == 1)
    && text_eq r.status (text "fenced")
    && text_eq r.primary_server_id server
    && text_eq r.recovery_id recovery
    && valid_server_id r.primary_server_id
    && valid_recovery_id r.recovery_id
    && includes r.method methods
    && valid_nonce r.nonce

-- `!(fencedAt > now + 30_000 || expiresAt <= now || expiresAt - fencedAt > 900_000)`
unfoldable pub times_ok : ℕ → ℕ → ℕ → Bool
times_ok fenced_at expires_at now =
    leb fenced_at (now + 30000) && ltb now expires_at && leb expires_at (fenced_at + 900000)

unfoldable pub signature_ok : Platform → Receipt → Text → Bool
unfolding canonical_receipt text_eq
signature_ok platform r key =
    text_eq (platform.hex_bytes r.signature) (platform.hmac_sha256 key (canonical_receipt r))

-- `verifyWitnessReceipt(value, key, expected, now)`
unfoldable pub verify_witness_receipt : Platform → Receipt → Text → Text → Text → ℕ → Verdict
unfolding fields_ok times_ok signature_ok
verify_witness_receipt platform r key server recovery now =
    if not (fields_ok r server recovery)
    then bad_fields
    else elim (platform.date_parse r.fenced_at) [
      | none ↦ bad_timestamps
      | some fenced_at ↦ elim (platform.date_parse r.expires_at) [
        | none ↦ bad_timestamps
        | some expires_at ↦
            if not (times_ok fenced_at expires_at now)
            then bad_timestamps
            else if not (signature_ok platform r key)
            then bad_signature
            else verified (record {
              primary_server_id = r.primary_server_id;
              recovery_id = r.recovery_id;
              method = r.method;
              fenced_at = fenced_at;
              expires_at = expires_at;
              witness_nonce = r.nonce;
            })
      ]
    ]
