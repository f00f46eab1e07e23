-- ===== src/Witness/Recovery.antt =====
-- What the witness of witness-worker/src/worker.js guarantees when it fences a server.
use hosting_control_panel.Common.{
  ℕ, ◌+◌, ◌*◌, ◌/◌, ◌≡◌, ◌≢◌, ◌≤◌, ◌<◌, ap, ◌∙◌, true, false, not, ◌&&◌, ◌||◌, Option, none, some,
  List, [], ◌∷◌, All, Text, text, text_eq, text_eq_refl, is_empty, arith, Option-cases, Bool-cases,
  inl, inr, ltb, ◌==◌, includes, any,
}
use hosting_control_panel.Witness.Platform.{Platform, IsCalendar}
use hosting_control_panel.Witness.Worker.{
  Witness, Env, Input, Route, lease, fence, reset, Response, leased, fenced_with, was_reset,
  Receipt, lease_ttl, receipt_ttl, take_lease, take_fence, active_lease, respond, state_fetch,
  bounded_seconds, unsigned, signed, hex, canonical_receipt, is_stale, valid_recovery_id,
  valid_server_id,
}
use hosting_control_panel.Witness.Receipt.{
  verify_witness_receipt, fields_ok, times_ok, signature_ok, valid_nonce, verified,
}
use hosting_control_panel.Witness.Leases.{
  Run, Served, kept, granted, Run-IsTracked, served_lem, Covered,
}

module _ (platform : Platform) (env : Env) where
  -- A fence is only granted when no lease is active.
  take_fence-idle :
      (w : Witness) (input : Input) (now : ℕ) (nonce : Text) {w' : Witness} {r : Receipt}
      → take_fence platform env w input now nonce ≡ (w', fenced_with r)
      → active_lease platform w now ≡ none
  unfolding take_fence
  take_fence-idle w input now nonce e = elim (Option-cases (active_lease platform w now)) [
    | inl idle ↦ idle
    | inr (expires, active) ↦ absurd (ground (arith, active, e))
  ]

  state_fetch-fence :
      (w : Witness) (input : Input) (now : ℕ) (nonce : Text) {w' : Witness} {r : Receipt}
      → state_fetch platform env w fence (some input) now nonce ≡ (w', fenced_with r)
      → take_fence platform env w input now nonce ≡ (w', fenced_with r)
  unfolding state_fetch respond
  state_fetch-fence w input now nonce e =
      elim (Bool-cases
        (not (input.version == 1) || not (valid_server_id input.primary_server_id))) [
          | inl bad ↦ absurd (cc (rw bad at e))
          | inr good ↦ rw good at e
        ]

  abbrev pub HasExpired : ℕ → Text → Type 0
  HasExpired now g = (x : ℕ) × (platform.date_parse g ≡ some x) × (x ≤ now)

  expired_leases :
      (w : Witness) (now : ℕ) (gs : List Text)
      → active_lease platform w now ≡ none
      → All (Covered platform env w) gs
      → All (HasExpired now) gs
  unfolding active_lease
  expired_leases w now [] e h = tt
  expired_leases w now (g ∷ gs) e ((x, l, parsed, on_record, le), rest) =
      ((x, parsed, ground (arith, e, on_record, le)), expired_leases w now gs e rest)

  -- When the witness grants a fence, every lease that it granted before has run out, provided that no
  -- reset came between and that its clock does not go back: the fenced primary holds no lease.
  pub fence_after_leases :
      IsCalendar platform
      → {t : ℕ} {w w' : Witness} {gs : List Text} {r : Receipt} (input : Input) (now : ℕ)
        (nonce : Text)
      → Run platform env t w gs
      → state_fetch platform env w fence (some input) now nonce ≡ (w', fenced_with r)
      → All (HasExpired now) gs
  fence_after_leases c {t} {w} {w'} {gs} input now nonce run e =
      expired_leases w now gs
        (take_fence-idle w input now nonce (state_fetch-fence w input now nonce e))
        (Run-IsTracked platform env c run).covered

  -- While a server is fenced, no request but a reset lifts the fence, and none is answered with a
  -- lease.
  pub fence_stays :
      (w : Witness) (route : Route) (input : Option Input) (now : ℕ) (nonce : Text) {w' : Witness}
      {r : Response}
      → w.fenced ≡ true
      → route ≢ reset
      → state_fetch platform env w route input now nonce ≡ (w', r)
      → (w'.fenced ≡ true) × ((until : Text) → r ≢ leased until)
  fence_stays w route input now nonce {w'} {r} f other e =
      settle (served_lem platform env w route input now nonce other e)
    where
      settle :
          Served platform env w w' now r → (w'.fenced ≡ true) × ((until : Text) → r ≢ leased until)
      settle (kept same none_granted stays) =
          (stays f, λ until answer. absurd (cc (rw answer at (none_granted []))))
      settle (granted until answer unfenced) = absurd (cc (f, unfenced))

  state_fetch-receipt :
      (w : Witness) (input : Input) (now : ℕ) (nonce : Text) {w' : Witness} {r : Receipt}
      → state_fetch platform env w fence (some input) now nonce ≡ (w', fenced_with r)
      → (valid_server_id input.primary_server_id ≡ true)
        × (valid_recovery_id input.recovery_id ≡ true)
        × (r ≡ signed platform env (unsigned platform env input now nonce))
  unfolding state_fetch respond take_fence
  state_fetch-receipt w input now nonce e =
      let idle = take_fence-idle w input now nonce (state_fetch-fence w input now nonce e) in
      (ground (arith, e), ground (arith, e), ground (arith, idle, e))

  bounded_seconds-le : (o : Option ℕ) → bounded_seconds o 600 60 900 ≤ 900
  unfolding bounded_seconds
  bounded_seconds-le none = omega arith
  bounded_seconds-le (some n) = ground arith

  unfoldable pub made : Input → ℕ → Text → Receipt
  made input now nonce = signed platform env (unsigned platform env input now nonce)

  made-fields_ok :
      (input : Input) (now : ℕ) (nonce : Text)
      → valid_server_id input.primary_server_id ≡ true
      → valid_recovery_id input.recovery_id ≡ true
      → valid_nonce nonce ≡ true
      → fields_ok (made input now nonce) input.primary_server_id input.recovery_id ≡ true
  unfolding made fields_ok signed unsigned text includes any text_eq
  made-fields_ok input now nonce server recovery n =
      rw (text_eq_refl input.primary_server_id, text_eq_refl input.recovery_id, server, recovery, n)

  made-times_ok :
      (now then : ℕ)
      → now ≤ then
      → then < (now + receipt_ttl env * 1000) / 1000 * 1000
      → times_ok (now / 1000 * 1000) ((now + receipt_ttl env * 1000) / 1000 * 1000) then ≡ true
  unfolding times_ok
  made-times_ok now then after before = ground (arith, bounded_seconds-le env.receipt_ttl)

  made-signature_ok :
      ((m : Text)
        → platform.hex_bytes (hex (platform.hmac_sha256 env.signing_key m))
          ≡ platform.hmac_sha256 env.signing_key m)
      → (input : Input) (now : ℕ) (nonce : Text)
      → signature_ok platform (made input now nonce) env.signing_key ≡ true
  unfolding made signature_ok signed canonical_receipt
  made-signature_ok law input now nonce =
      rw (law (canonical_receipt (unsigned platform env input now nonce))) (
        text_eq_refl (
          platform.hmac_sha256 env.signing_key
            (canonical_receipt (unsigned platform env input now nonce))))

  made-verified :
      IsCalendar platform
      → ((m : Text)
          → platform.hex_bytes (hex (platform.hmac_sha256 env.signing_key m))
            ≡ platform.hmac_sha256 env.signing_key m)
      → (input : Input) (now : ℕ) (nonce : Text) (then : ℕ)
      → fields_ok (made input now nonce) input.primary_server_id input.recovery_id ≡ true
      → now ≤ then
      → then < (now + receipt_ttl env * 1000) / 1000 * 1000
      → verify_witness_receipt platform
          (made input now nonce)
          env.signing_key
          input.primary_server_id
          input.recovery_id
          then
        ≡ verified (record {
          primary_server_id = input.primary_server_id;
          recovery_id = input.recovery_id;
          method = text "service";
          fenced_at = now / 1000 * 1000;
          expires_at = (now + receipt_ttl env * 1000) / 1000 * 1000;
          witness_nonce = nonce;
        })
  unfolding verify_witness_receipt made signed unsigned
  made-verified c law input now nonce then fields after before = rw (
    fields,
    c.date_parse-iso now,
    c.date_parse-iso (now + receipt_ttl env * 1000),
    made-times_ok now then after before,
    made-signature_ok law input now nonce,
  )

  -- A receipt that the witness grants passes the panel's check under the same key, for the server and
  -- the recovery point that were asked for, until it expires. The nonce is one that the check allows,
  -- and reading a signature back from hexadecimal gives its bytes.
  pub fence_verified :
      IsCalendar platform
      → ((m : Text)
          → platform.hex_bytes (hex (platform.hmac_sha256 env.signing_key m))
            ≡ platform.hmac_sha256 env.signing_key m)
      → (w : Witness) (input : Input) (now : ℕ) (nonce : Text) (then : ℕ) {w' : Witness}
        {r : Receipt}
      → valid_nonce nonce ≡ true
      → state_fetch platform env w fence (some input) now nonce ≡ (w', fenced_with r)
      → now ≤ then
      → then < (now + receipt_ttl env * 1000) / 1000 * 1000
      → verify_witness_receipt platform r env.signing_key input.primary_server_id input.recovery_id
          then
        ≡ verified (record {
          primary_server_id = input.primary_server_id;
          recovery_id = input.recovery_id;
          method = text "service";
          fenced_at = now / 1000 * 1000;
          expires_at = (now + receipt_ttl env * 1000) / 1000 * 1000;
          witness_nonce = nonce;
        })
  unfolding signed made
  fence_verified c law w input now nonce then n e after before =
      let (server, recovery, built) = state_fetch-receipt w input now nonce e in
      ap
        (λ (x : Receipt).
          verify_witness_receipt platform x env.signing_key input.primary_server_id
            input.recovery_id then)
        built
      ∙ made-verified c law input now nonce then (made-fields_ok input now nonce server recovery n)
          after before

  abbrev renewed : Input → ℕ → Witness
  renewed input now = record {
    primary_server_id = input.primary_server_id;
    lease_expires_at = platform.iso (now + lease_ttl env * 1000);
    fenced = false;
    fenced_at = [];
    last_recovery_id = [];
  }

  state_fetch-leased :
      (w : Witness) (input : Input) (now : ℕ) (nonce : Text) {w' : Witness} {until : Text}
      → state_fetch platform env w lease (some input) now nonce ≡ (w', leased until)
      → (not (input.version == 1) || not (valid_server_id input.primary_server_id) ≡ false)
        × (w' ≡ renewed input now)
  unfolding state_fetch respond take_lease
  state_fetch-leased w input now nonce e = (ground (arith, e), ground (arith, e))

  -- A server whose lease was renewed is fenced for whatever recovery point is asked for after that.
  renewed-fence :
      IsCalendar platform
      → (input : Input) (first second : ℕ) (nonce : Text)
      → valid_recovery_id input.recovery_id ≡ true
      → not (input.version == 1) || not (valid_server_id input.primary_server_id) ≡ false
      → first + lease_ttl env * 1000 ≤ second
      → (state_fetch platform env (renewed input first) fence (some input) second nonce).1
        ≡ fenced_with (made input second nonce)
  unfolding state_fetch respond take_fence active_lease made
  renewed-fence c input first second nonce recovery good later =
      let ends = c.date_parse-iso (first + lease_ttl env * 1000) in
      let over : ltb second ((first + lease_ttl env * 1000) / 1000 * 1000) ≡ false =
        ground (arith, later) in
      let same : not (is_empty input.primary_server_id)
            && not (text_eq input.primary_server_id input.primary_server_id)
          ≡ false =
        ground (arith, text_eq_refl input.primary_server_id) in
      rw (good, recovery, same, ends, over)

  -- The defect: a lease erases the last recovery point. After a reset that keeps it and a lease, the
  -- witness grants a fence for any well-formed recovery point once that lease has run out, also for
  -- one that is no later than the recovery point on record before.
  pub stale_recovery_granted :
      IsCalendar platform
      → (w : Witness) (input : Input) (first second : ℕ) (nonce : Text) {unlocked running : Witness}
        {until : Text}
      → valid_recovery_id input.recovery_id ≡ true
      → is_stale w input ≡ true
      → state_fetch platform env w reset (some input) first nonce ≡ (unlocked, was_reset)
      → state_fetch platform env unlocked lease (some input) first nonce ≡ (running, leased until)
      → first + lease_ttl env * 1000 ≤ second
      → (state_fetch platform env running fence (some input) second nonce).1
        ≡ fenced_with (made input second nonce)
  stale_recovery_granted c w input first second nonce {unlocked} {running} recovery stale unlock
        renew later =
      let (good, record_is) = state_fetch-leased unlocked input first nonce renew in
      ap (λ (x : Witness). (state_fetch platform env x fence (some input) second nonce).1) record_is
      ∙ renewed-fence c input first second nonce recovery good later
