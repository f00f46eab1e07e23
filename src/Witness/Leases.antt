-- ===== src/Witness/Leases.antt =====
-- Leases and fences of witness-worker/src/worker.js over a run of requests.
use hosting_control_panel.Common.{
  ℕ, ◌+◌, ◌*◌, ◌/◌, ◌≡◌, ◌≢◌, ◌≤◌, refl, true, false, Option, none, some, List, [], ◌∷◌, All, Text,
  arith, Option-cases, Bool-cases, inl, inr, sym, ap, subst, ◌∙◌, not, ◌||◌, ◌==◌,
}
use hosting_control_panel.Witness.Platform.{Platform, IsCalendar}
use hosting_control_panel.Witness.Worker.{
  Witness, Env, Input, Route, lease, fence, reset, unknown, Response, leased, refused, Refusal,
  lease_ttl, mismatch, is_stale, valid_recovery_id, valid_server_id, invalid_request,
  identity_mismatch, primary_fenced, stale_recovery, not_found, take_lease, take_fence,
  active_lease, respond, state_fetch,
}

abbrev pub empty_witness : Witness
empty_witness = record {
  primary_server_id = [];
  lease_expires_at = [];
  fenced = false;
  fenced_at = [];
  last_recovery_id = [];
}

-- The leases that were granted, the newest first.
abbrev pub grants : Response → List Text → List Text
grants (leased until) gs = until ∷ gs
grants _ gs = gs

module _ (platform : Platform) (env : Env) where
  -- Requests other than a reset, at times that do not go back, from an empty witness: the time of the
  -- last one, the record after it, and the leases that were granted.
  pub data Run : ℕ → Witness → List Text → Type 0 where
    idle : Run 0 empty_witness []
    served :
        {t : ℕ} {w : Witness} {gs : List Text} (now : ℕ) (route : Route) (input : Option Input)
        (nonce : Text) {w' : Witness} {r : Response}
        → Run t w gs
        → t ≤ now
        → route ≢ reset
        → state_fetch platform env w route input now nonce ≡ (w', r)
        → Run now w' (grants r gs)

  -- A granted lease ends no later than the lease on record.
  abbrev pub Covered : Witness → Text → Type 0
  Covered w g =
      (x : ℕ) × (l : ℕ) × (platform.date_parse g ≡ some x)
      × (platform.date_parse w.lease_expires_at ≡ some l)
      × (x ≤ l)

  pub record IsTracked (t : ℕ) (w : Witness) (gs : List Text) : Type 0 where
    pub bound :
        (l : ℕ)
        → platform.date_parse w.lease_expires_at ≡ some l
        → l ≤ (t + lease_ttl env * 1000) / 1000 * 1000
    pub covered : All (Covered w) gs

  floor_mono : (a b : ℕ) → a ≤ b → a / 1000 * 1000 ≤ b / 1000 * 1000
  floor_mono a b h = omega arith

  IsTracked-idle : IsCalendar platform → IsTracked 0 empty_witness []
  IsTracked-idle c = record { bound = λ l e. cc (c.date_parse-empty, e); covered = tt }

  -- What a request other than a reset does to the lease: it keeps it and grants none, or it grants
  -- the lease that it puts on record, and then the server was not fenced.
  pub data Served (w w' : Witness) (now : ℕ) (r : Response) : Type 0 where
    kept :
        w'.lease_expires_at ≡ w.lease_expires_at
        → ((gs : List Text) → grants r gs ≡ gs)
        → (w.fenced ≡ true → w'.fenced ≡ true)
        → Served w w' now r
    granted :
        w'.lease_expires_at ≡ platform.iso (now + lease_ttl env * 1000)
        → r ≡ leased (platform.iso (now + lease_ttl env * 1000))
        → w.fenced ≡ false
        → Served w w' now r

  unchanged : (w : Witness) (now : ℕ) (why : Refusal) → Served w w now (refused why)
  unchanged w now why = kept refl (λ gs. refl) (λ h. h)

  take_lease-Served :
      (w : Witness) (input : Input) (now : ℕ)
      → Served w (take_lease platform env w input now).0 now (take_lease platform env w input now).1
  unfolding take_lease
  take_lease-Served w input now = elim (Bool-cases (mismatch w input)) [
    | inl other ↦ rw other (unchanged w now identity_mismatch)
    | inr same ↦ elim (Bool-cases w.fenced) [
      | inl f ↦ simp (same, f) (unchanged w now primary_fenced)
      | inr f ↦ simp (same, f) (granted refl refl f)
    ]
  ]

  take_fence-Served :
      (w : Witness) (input : Input) (now : ℕ) (nonce : Text)
      → Served w
          (take_fence platform env w input now nonce).0
          now
          (take_fence platform env w input now nonce).1
  unfolding take_fence
  take_fence-Served w input now nonce = elim (Bool-cases (valid_recovery_id input.recovery_id)) [
    | inr bad ↦ rw bad (unchanged w now invalid_request)
    | inl good ↦ elim (Bool-cases (mismatch w input)) [
      | inl other ↦ rw (good, other) (unchanged w now identity_mismatch)
      | inr same ↦ elim (Option-cases (active_lease platform w now)) [
        | inr (expires, active) ↦ rw (good, same, active) (unchanged w now _)
        | inl none_active ↦ elim (Bool-cases (is_stale w input)) [
          | inl stale ↦ rw (good, same, none_active, stale) (unchanged w now stale_recovery)
          | inr newer ↦ rw (good, same, none_active, newer) (kept refl (λ gs. refl) (λ h. refl))
        ]
      ]
    ]
  ]

  respond-Served :
      (w : Witness) (route : Route) (input : Input) (now : ℕ) (nonce : Text)
      → route ≢ reset
      → Served w
          (respond platform env w route input now nonce).0
          now
          (respond platform env w route input now nonce).1
  unfolding respond
  respond-Served w lease input now nonce h = take_lease-Served w input now
  respond-Served w fence input now nonce h = take_fence-Served w input now nonce
  respond-Served w reset input now nonce h = absurd (h refl)
  respond-Served w unknown input now nonce h = unchanged w now not_found

  pub state_fetch-Served :
      (w : Witness) (route : Route) (input : Option Input) (now : ℕ) (nonce : Text)
      → route ≢ reset
      → Served w
          (state_fetch platform env w route input now nonce).0
          now
          (state_fetch platform env w route input now nonce).1
  unfolding state_fetch
  state_fetch-Served w route none now nonce h = unchanged w now invalid_request
  state_fetch-Served w route (some input) now nonce h =
      elim (Bool-cases
        (not (input.version == 1) || not (valid_server_id input.primary_server_id))) [
          | inl bad ↦ rw bad (unchanged w now invalid_request)
          | inr good ↦ rw good (respond-Served w route input now nonce h)
        ]

  pub served_lem :
      (w : Witness) (route : Route) (input : Option Input) (now : ℕ) (nonce : Text) {w' : Witness}
      {r : Response}
      → route ≢ reset
      → state_fetch platform env w route input now nonce ≡ (w', r)
      → Served w w' now r
  served_lem w route input now nonce h e =
      subst (λ (p : Witness × Response). Served w p.0 now p.1) e
        (state_fetch-Served w route input now nonce h)

  covers_later :
      (w w' : Witness) (until : ℕ) (gs : List Text)
      → platform.date_parse w'.lease_expires_at ≡ some until
      → ((l : ℕ) → platform.date_parse w.lease_expires_at ≡ some l → l ≤ until)
      → All (Covered w) gs
      → All (Covered w') gs
  covers_later w w' until [] e h a = tt
  covers_later w w' until (g ∷ gs) e h ((x, l, parsed, on_record, le), rest) =
      ((x, until, parsed, e, omega (arith, le, h l on_record)), covers_later w w' until gs e h rest)

  Served-IsTracked :
      IsCalendar platform
      → {t : ℕ} {w w' : Witness} {gs : List Text} {now : ℕ} {r : Response} → IsTracked t w gs
      → t ≤ now
      → Served w w' now r
      → IsTracked now w' (grants r gs)
  Served-IsTracked c {t} {w} {w'} {gs} {now} {r} k h (kept same none_granted f) =
      rw (none_granted gs) (record {
        bound = λ l e. omega (
          arith,
          k.bound l (sym (ap platform.date_parse same) ∙ e),
          floor_mono (t + lease_ttl env * 1000) (now + lease_ttl env * 1000) (omega (arith, h)),
        );
        covered =
            subst
              (λ (x : Text).
                All
                  (λ g.
                    (y : ℕ) × (l : ℕ) × (platform.date_parse g ≡ some y)
                    × (platform.date_parse x ≡ some l)
                    × (y ≤ l))
                  gs)
              (sym same) k.covered;
      })
  Served-IsTracked c {t} {w} {w'} {gs} {now} {r} k h (granted until answer f) =
      let ends : platform.date_parse w'.lease_expires_at
          ≡ some ((now + lease_ttl env * 1000) / 1000 * 1000) =
        ap platform.date_parse until ∙ c.date_parse-iso (now + lease_ttl env * 1000) in
      let later =
        floor_mono (t + lease_ttl env * 1000) (now + lease_ttl env * 1000) (omega (arith, h)) in
      rw answer (record {
        bound = λ l e. ground (arith, ends, e);
        covered = (
          (_, _, c.date_parse-iso (now + lease_ttl env * 1000), ends, omega arith),
          covers_later w w' _ gs ends (λ l e. omega (arith, k.bound l e, later)) k.covered,
        );
      })

  pub Run-IsTracked :
      IsCalendar platform → {t : ℕ} {w : Witness} {gs : List Text} → Run t w gs → IsTracked t w gs
  Run-IsTracked c idle = IsTracked-idle c
  Run-IsTracked c (served {w = w} now route input nonce run h other e) =
      Served-IsTracked c (Run-IsTracked c run) h (served_lem w route input now nonce other e)
