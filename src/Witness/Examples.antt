-- ===== src/Witness/Examples.antt =====
-- A lease, a fence, a reset and a stale recovery point, on which the theorems about the fencing
-- witness are applied.
use hosting_control_panel.Common.{
  ℕ, ◌*◌, ◌/◌, ◌≡◌, ◌≢◌, refl, All, true, false, Option, none, some, [], ◌∷◌, Text, text, text_eq,
  any, arith, text_le,
}
use hosting_control_panel.Witness.Platform.{Platform, IsCalendar}
use hosting_control_panel.Witness.Worker.{
  Witness, Env, Input, lease, fence, reset, Response, leased, fenced_with, was_reset, take_lease,
  take_fence, take_reset, active_lease, respond, state_fetch, bounded_seconds, valid_server_id,
  valid_recovery_id, has_shape,
}
use hosting_control_panel.Witness.Receipt.{verify_witness_receipt, verified, valid_nonce}
use hosting_control_panel.Witness.Leases.{Run, idle, served, empty_witness}
use hosting_control_panel.Witness.Recovery.{
  HasExpired, made, fence_after_leases, fence_stays, fence_verified, stale_recovery_granted,
}

abbrev parse_seconds : Text → Option ℕ
parse_seconds [] = none
parse_seconds (s ∷ rest) = some (s * 1000)

-- A platform whose dates are one number and whose HMAC is no real one.
abbrev toy : Platform
toy = record {
  hmac_sha256 = λ key message. 7 ∷ [];
  hex_bytes = λ s. 7 ∷ [];
  iso = λ t. (t / 1000) ∷ [];
  date_parse = parse_seconds;
}

toy-IsCalendar : IsCalendar toy
toy-IsCalendar = record { date_parse-iso = λ t. refl; date_parse-empty = refl }

abbrev env : Env
env = record {
  lease_ttl = none;
  receipt_ttl = none;
  signing_key = text "key";
  primary_token = text "p";
  standby_token = text "s";
  admin_token = text "a";
}

abbrev ask : Input
ask = record {
  version = 1;
  primary_server_id = text "hp";
  recovery_id = text "2026-01-02T03-04-05Z";
  confirm = text "RESET-FENCING-WITNESS";
}

abbrev leased_record : Witness
leased_record = record {
  primary_server_id = text "hp";
  lease_expires_at = 91 ∷ [];
  fenced = false;
  fenced_at = [];
  last_recovery_id = [];
}

abbrev fenced_record : Witness
fenced_record = record {
  primary_server_id = text "hp";
  lease_expires_at = 91 ∷ [];
  fenced = true;
  fenced_at = 200 ∷ [];
  last_recovery_id = text "2026-01-02T03-04-05Z";
}

abbrev reset_record : Witness
reset_record = record {
  primary_server_id = text "hp";
  lease_expires_at = [];
  fenced = false;
  fenced_at = [];
  last_recovery_id = text "2026-01-02T03-04-05Z";
}

abbrev nonce : Text
nonce = text "0123456789abcdef"

leases :
    state_fetch toy env empty_witness lease (some ask) 1000 [] ≡ (leased_record, leased (91 ∷ []))
unfolding state_fetch respond take_lease valid_server_id any text bounded_seconds
leases = refl

fences :
    state_fetch toy env leased_record fence (some ask) 200000 nonce
    ≡ (fenced_record, fenced_with (made toy env ask 200000 nonce))
unfolding state_fetch respond take_fence active_lease valid_server_id valid_recovery_id has_shape
    any text text_eq bounded_seconds made
fences = refl

lease-Run : Run toy env 1000 leased_record ((91 ∷ []) ∷ [])
lease-Run = served 1000 lease (some ask) [] idle (omega arith) (λ e. cc) leases

fence_after_leases_example : All (HasExpired toy env 200000) ((91 ∷ []) ∷ [])
fence_after_leases_example =
    fence_after_leases toy env toy-IsCalendar ask 200000 nonce lease-Run fences

refuses :
    (r : Response) × (state_fetch toy env fenced_record lease (some ask) 300000 []
      ≡ (fenced_record, r))
unfolding state_fetch respond take_lease valid_server_id any text text_eq
refuses = (_, refl)

fence_stays_example : (fenced_record.fenced ≡ true) × ((until : Text) → refuses.0 ≢ leased until)
fence_stays_example =
    fence_stays toy env fenced_record lease (some ask) 300000 [] refl (λ e. cc) refuses.1

fence_verified_example :
    verify_witness_receipt toy
      (made toy env ask 200000 nonce)
      (text "key")
      (text "hp")
      (text "2026-01-02T03-04-05Z")
      250000
    ≡ verified (record {
      primary_server_id = text "hp";
      recovery_id = text "2026-01-02T03-04-05Z";
      method = text "service";
      fenced_at = 200000;
      expires_at = 800000;
      witness_nonce = text "0123456789abcdef";
    })
unfolding valid_nonce any text bounded_seconds
fence_verified_example =
    fence_verified toy env toy-IsCalendar (λ m. refl) leased_record ask 200000 nonce 250000 refl
      fences (omega arith) (omega arith)

abbrev again : Witness
again = record leased_record { lease_expires_at = 390 ∷ [] }

leases_again :
    state_fetch toy env reset_record lease (some ask) 300000 nonce ≡ (again, leased (390 ∷ []))
unfolding state_fetch respond take_lease valid_server_id any text text_eq bounded_seconds
leases_again = refl

resets : state_fetch toy env fenced_record reset (some ask) 300000 nonce ≡ (reset_record, was_reset)
unfolding state_fetch respond take_reset valid_server_id any text text_eq
resets = refl

stale_recovery_granted_example :
    (state_fetch toy env again fence (some ask) 390000 nonce).1
    ≡ fenced_with (made toy env ask 390000 nonce)
unfolding valid_recovery_id has_shape text text_le bounded_seconds
stale_recovery_granted_example =
    stale_recovery_granted toy env toy-IsCalendar fenced_record ask 300000 390000 nonce refl refl
      resets leases_again (omega arith)
