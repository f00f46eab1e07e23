-- ===== src/Enforcement/Apply.antt =====
-- The application of a plan in ui-manager/app/lib/billing-enforcement.js, split where the reload of nginx
-- is awaited.
use hosting_control_panel.Common.{
  ℕ, Bool, true, false, not, Option, none, some, List, [], ◌∷◌, ◌++◌, map, select, take, is_empty,
  if◌then◌else◌, sort, text_le, length, ltb, any, includes, valid_host, ◌||◌, Text, text, text_eq,
}
use hosting_control_panel.Billing.Validation.{trim}
use hosting_control_panel.Enforcement.Plan.{
  to_lower_case, Url, Settings, Snapshot, Site, Plan, build_plan,
}
use hosting_control_panel.Enforcement.Render.{render_map, empty_map, sorted_hosts}
use hosting_control_panel.Enforcement.Transitions.{
  BlockedService, Outcome, proposed, applied, failed, not_applied, Status, Transition, brief,
  blocks, transition_records,
}

-- The files of `BillingEnforcementManager`, of which the map is `none` where it does not exist and the
-- settings are `none` where they do not exist or are no JSON, and the flag `running`.
pub record Enforcer : Type 0 where
  pub nginx_map : Option Text
  pub settings : Option Settings
  pub status : Option Status
  pub history : List Transition
  pub running : Bool

-- `[...new Set(values)]`
unfoldable pub unique : List Text → List Text
unfolding includes
unique [] = []
unique (d ∷ ds) = d ∷ select (λ x. not (text_eq x d)) (unique ds)

-- `normalizeSettings(input)`, of a list of pilot domains: `none` where it throws. `toLowerCase` is the one
-- of ASCII.
unfoldable pub normalize_settings : Settings → Option Settings
unfolding unique trim to_lower_case select any valid_host sort text_le
normalize_settings s =
    let named =
      select (λ d. not (is_empty d)) (map (λ d. to_lower_case (trim d)) s.pilot_domains) in
    let domains = unique named in
    if ltb 100 (length domains) || any (λ d. not (valid_host d)) domains
    then none
    else some (record { enabled = s.enabled; pilot_domains = sort text_le domains })

-- `readSettings()`: `none` where the stored settings are refused.
unfoldable pub read_settings : Enforcer → Option Settings
unfolding normalize_settings
read_settings e = elim e.settings [
  | none ↦ some (record { enabled = false; pilot_domains = [] })
  | some stored ↦ normalize_settings stored
]

-- `readStatus()`
abbrev pub read_status : Enforcer → Status
read_status e = elim e.status [
  | some s ↦ s
  | none ↦ record {
    result = not_applied;
    action = [];
    actor = [];
    blocked_hosts = [];
    blocked_services = [];
    error = [];
  }
]

-- The map that the file stands for in `applyPlan`.
abbrev pub shown_map : Enforcer → Text
shown_map e = elim e.nginx_map [ none ↦ empty_map | some content ↦ content ]

-- `recordHistory(entries)`
unfoldable pub record_history : ℕ → List Transition → Enforcer → Enforcer
record_history max_history entries e =
    if is_empty entries
    then e
    else record e { history = take max_history (entries ++ take max_history e.history) }

abbrev pub marked : Outcome → Text → ℕ → Transition → Transition
marked result error now t = record t { at = now; result = result; error = error }

abbrev pub marked_applied : ℕ → Transition → Transition
marked_applied now t = record t { at = now; result = applied }

-- What `applyPlan` holds while it waits for nginx.
pub record Pending : Type 0 where
  pub plan : Plan
  pub actor : Text
  pub action : Text
  pub previous : Text
  pub changed : Bool
  pub previous_status : Status
  pub records : List Transition

abbrev system_or : Text → Text
system_or [] = text "system"
system_or (c ∷ cs) = c ∷ cs

-- `applyPlan(plan, actor, action)` up to the wait; `none` where `renderMap` throws.
unfoldable pub begin_apply :
    (Text → Option Url) → ℕ → Enforcer → Plan → Text → Text → ℕ → Option (Enforcer × Pending)
unfolding render_map transition_records record_history text_eq
begin_apply parse max_history e plan actor action now = elim (render_map parse plan.entries) [
  | none ↦ none
  | some candidate ↦
      let records = transition_records plan (read_status e) actor action proposed [] now in
      let changed = not (text_eq candidate (shown_map e)) in
      let e' = record_history max_history records e in
      some (
        (if changed then record e' { nginx_map = some candidate } else e'),
        record {
          plan = plan;
          actor = actor;
          action = action;
          previous = shown_map e;
          changed = changed;
          previous_status = read_status e;
          records = records;
        },
      )
]

abbrev pub cut : BlockedService → BlockedService
cut s = record {
  service_id = take 80 s.service_id;
  local_domain = take 253 s.local_domain;
  state = take 40 s.state;
  reason = take 240 s.reason;
}

abbrev pub success : Pending → Status
success p = record {
  result = applied;
  action = p.action;
  actor = take 160 (system_or p.actor);
  blocked_hosts = sorted_hosts p.plan.entries;
  blocked_services = map (λ r. cut (brief r)) (select blocks p.plan.rows);
  error = [];
}

-- The error of the reload, and of the reload after the rollback if it fails too.
abbrev pub failure_text : Text → Option Text → Text
failure_text why none = take 300 why
failure_text why (some too) = take 300 (why ++ text ". Rollback validation failed: " ++ too)

abbrev pub failure : Pending → Text → Status
failure p error = record {
  result = failed;
  action = p.action;
  actor = take 160 (system_or p.actor);
  blocked_hosts = p.previous_status.blocked_hosts;
  blocked_services = p.previous_status.blocked_services;
  error = error;
}

unfoldable pub succeed : ℕ → Enforcer → Pending → ℕ → Enforcer
unfolding record_history
succeed max_history e p now =
    record_history max_history (map (marked_applied now) p.records)
      (record e { status = some (success p) })

unfoldable pub roll_back : ℕ → Enforcer → Pending → Text → ℕ → Enforcer
unfolding record_history
roll_back max_history e p error now =
    record_history max_history (map (marked failed error now) p.records)
      (record e { nginx_map = some p.previous; status = some (failure p error) })

-- What nginx answers to `validateReload`: nothing, or an error.
abbrev pub Reload : Type 0
Reload = Option Text

-- `applyPlan` after the wait, with the answers to the reload and to the one after a rollback: the files,
-- and whether it returns.
unfoldable pub complete_apply : ℕ → Enforcer → Pending → Reload → Reload → ℕ → Enforcer × Bool
unfolding succeed roll_back text
complete_apply max_history e p reload again now =
    if not p.changed then (succeed max_history e p now, true) else elim reload [
      | none ↦ (succeed max_history e p now, true)
      | some why ↦ (roll_back max_history e p (failure_text why again) now, false)
    ]

-- `applyPlan` when nothing else happens while it waits.
unfoldable pub apply_plan :
    (Text → Option Url)
    → ℕ
    → Enforcer
    → Plan
    → Text
    → Text
    → Reload
    → Reload
    → ℕ
    → Option (Enforcer × Bool)
unfolding begin_apply complete_apply
apply_plan parse max_history e plan actor action reload again now =
    elim (begin_apply parse max_history e plan actor action now) [
      | none ↦ none
      | some (e', p) ↦ some (complete_apply max_history e' p reload again now)
    ]

-- `reconcile` up to the wait for the preview: `none` where one is running.
unfoldable pub start_reconcile : Enforcer → Option Enforcer
start_reconcile e = if e.running then none else some (record e { running = true })

-- What a preview that fails is replaced by.
abbrev pub open_plan : Text → Plan
open_plan why = record {
  entries = [];
  rows = [];
  snapshot_generated_at = [];
  safe_to_apply = true;
  reason = text "Observer unavailable; fail open: " ++ take 200 why;
}

-- What the preview gives: the snapshot and the sites, or an error.
pub data Preview : Type 0 where
  seen : Option Snapshot → List Site → Preview
  unseen : Text → Preview

-- The plan of `reconcile`, on what `readSettings` gives.
unfoldable pub plan_of : (Text → Option Url) → Option Settings → Preview → Plan
unfolding build_plan text
plan_of parse (some settings) (seen snapshot sites) = build_plan parse snapshot sites settings
plan_of parse none (seen snapshot sites) =
    open_plan (text "Pilot domains must contain at most 100 valid website hostnames")
plan_of parse settings (unseen why) = open_plan why

-- `reconcile` from the preview to the wait for nginx. The promise of `applyPlan` is returned and not
-- awaited, so `finally` clears the flag at once.
unfoldable pub continue_reconcile :
    (Text → Option Url) → ℕ → Enforcer → Preview → Text → ℕ → Enforcer × Option Pending
unfolding plan_of read_settings begin_apply text
continue_reconcile parse max_history e preview actor now =
    elim (begin_apply parse max_history e (plan_of parse (read_settings e) preview) actor
      (text "reconcile") now) [
        | none ↦ (record e { running = false }, none)
        | some (e', p) ↦ (record e' { running = false }, some p)
      ]

-- `disableAll(actor)`: `none` where the stored settings are refused.
unfoldable pub disable_all :
    (Text → Option Url) → ℕ → Enforcer → Text → Reload → Reload → ℕ → Option (Enforcer × Bool)
unfolding read_settings normalize_settings apply_plan build_plan text
disable_all parse max_history e actor reload again now = elim (read_settings e) [
  | none ↦ none
  | some stored ↦ elim (normalize_settings (record stored { enabled = false })) [
    | none ↦ none
    | some settings ↦
        apply_plan parse max_history (record e { settings = some settings })
          (build_plan parse none [] settings) actor (text "disable-all") reload again now
  ]
]
