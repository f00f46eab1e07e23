-- ===== src/Enforcement/Transitions.antt =====
-- What an application of a plan changes: `transitionRecords` of ui-manager/app/lib/billing-enforcement.js.
use hosting_control_panel.Common.{
  ℕ, Bool, true, false, not, ◌||◌, ◌&&◌, Option, none, some, List, [], ◌∷◌, ◌++◌, map, select, take,
  is_empty, if◌then◌else◌, Text, text, text_eq, includes,
}
use hosting_control_panel.Enforcement.Plan.{block, unblocked, Row, Plan}

pub record BlockedService : Type 0 where
  pub service_id : Text
  pub local_domain : Text
  pub state : Text
  pub reason : Text

pub data Outcome : Type 0 where
  proposed applied failed not_applied : Outcome

-- The file of the last application.
pub record Status : Type 0 where
  pub result : Outcome
  pub action : Text
  pub actor : Text
  pub blocked_hosts : List Text
  pub blocked_services : List BlockedService
  pub error : Text

pub data Change : Type 0 where
  blocking restoring : Change

pub record Transition : Type 0 where
  pub at : ℕ
  pub service_id : Text
  pub domain : Text
  pub state : Text
  pub snapshot_generated_at : Text
  pub transition : Change
  pub reason : Text
  pub action : Text
  pub actor : Text
  pub result : Outcome
  pub error : Text

abbrev pub brief : Row → BlockedService
brief r = record {
  service_id = r.service_id;
  local_domain = r.local_domain;
  state = r.state;
  reason = r.reason;
}

abbrev pub blocks : Row → Bool
blocks r = elim r.action [ block ↦ true | unblocked ↦ false ]

-- `new Map(rows.map((row) => [row.localDomain, row])).get(domain)`: the last row counts.
unfoldable pub row_for : Text → List BlockedService → Option BlockedService
unfolding text_eq
row_for domain [] = none
row_for domain (r ∷ rs) = elim (row_for domain rs) [
  | some found ↦ some found
  | none ↦ if text_eq r.local_domain domain then some r else none
]

abbrev pub has_row : Text → List BlockedService → Bool
has_row domain rows = elim (row_for domain rows) [ none ↦ false | some _ ↦ true ]

abbrev pub or_else : Option BlockedService → Option BlockedService → Option BlockedService
or_else (some r) o = some r
or_else none o = o

abbrev with_defaults : Text → Option BlockedService → BlockedService
with_defaults domain found = record {
  service_id = elim found [ none ↦ [] | some r ↦ r.service_id ];
  local_domain = domain;
  state = elim found [ none ↦ [] | some r ↦ r.state ];
  reason = text "Previously applied billing enforcement";
}

-- `previousRows`
unfoldable pub previous_rows : List BlockedService → Status → List BlockedService
unfolding row_for text
previous_rows current status =
    if is_empty status.blocked_services
    then map (λ domain. with_defaults domain (row_for domain current)) status.blocked_hosts
    else status.blocked_services

-- `[...new Set(keys)]`, past the keys that were seen.
unfoldable pub fresh_keys : List Text → List Text → List Text
unfolding includes
fresh_keys seen [] = []
fresh_keys seen (k ∷ ks) =
    let rest = fresh_keys (if includes k seen then seen else k ∷ seen) ks in
    if includes k seen then rest else k ∷ rest

abbrev or_text : Text → Text → Text
or_text [] b = b
or_text (c ∷ cs) b = c ∷ cs

-- The record of one host, if the plan changes it.
unfoldable pub transition_of :
    Plan
    → List BlockedService
    → List BlockedService
    → List BlockedService
    → Text
    → Text
    → Outcome
    → Text
    → ℕ
    → Text
    → List Transition
unfolding row_for text
transition_of plan current previous desired actor action result error now domain =
    let was = has_row domain previous in
    let should = has_row domain desired in
    if (was && should) || (not was && not should)
    then []
    else elim (or_else (row_for domain desired)
        (or_else (row_for domain current) (row_for domain previous))) [
          | none ↦ []
          | some row ↦
              record {
                at = now;
                service_id = take 80 row.service_id;
                domain = take 253 domain;
                state = take 40 row.state;
                snapshot_generated_at = take 40 plan.snapshot_generated_at;
                transition = if should then blocking else restoring;
                reason = take 240 (if should then row.reason else or_text plan.reason row.reason);
                action = take 40 (or_text action (text "reconcile"));
                actor = take 160 (or_text actor (text "system"));
                result = result;
                error = take 300 error;
              }
              ∷ []
        ]

unfoldable pub transitions_of : (Text → List Transition) → List Text → List Transition
transitions_of f [] = []
transitions_of f (d ∷ ds) = f d ++ transitions_of f ds

-- `transitionRecords(plan, status, actor, action, result, error)`
unfoldable pub transition_records :
    Plan → Status → Text → Text → Outcome → Text → ℕ → List Transition
unfolding previous_rows select fresh_keys transition_of transitions_of
transition_records plan status actor action result error now =
    let current = map brief plan.rows in
    let previous = previous_rows current status in
    let desired = map brief (select blocks plan.rows) in
    let keys = map (λ r. r.local_domain) (previous ++ desired) in
    transitions_of (transition_of plan current previous desired actor action result error now)
      (fresh_keys [] keys)
