-- ===== src/Enforcement/Examples.antt =====
-- A suspended service, on which the theorems about the plan of blocked hosts are applied.
use hosting_control_panel.Common.{
  Bool, none, sort, insert, text_le, valid_host, false, after_prefix, ◌≡◌, refl, All, any, true,
  false, Option, some, [], ◌∷◌, Text, text, text_eq, includes, select,
}
use hosting_control_panel.Enforcement.Plan.{
  Url, Settings, Match, Snapshot, Site, decide, build_plan, valid_renewal_url, renewal_path,
  to_lower_case, local_site, approved_hosts, assign_all, assign, plan_matches, Plan,
}
use hosting_control_panel.Enforcement.Render.{
  render_map, host_lines, sorted_hosts, url_of, json_units, empty_map,
}
use hosting_control_panel.Enforcement.Transitions.{
  transition_records, transition_of, transitions_of, previous_rows, row_for, fresh_keys,
}
use hosting_control_panel.Billing.Validation.{trim}
use hosting_control_panel.Enforcement.Apply.{
  unique, normalize_settings, read_settings, Enforcer, Pending, Preview, seen, unseen, shown_map,
  read_status, record_history, begin_apply, complete_apply, succeed, roll_back, apply_plan, plan_of,
  start_reconcile, continue_reconcile, disable_all,
}
use hosting_control_panel.Enforcement.Atomic.{Applied, apply_atomic, disable_all_opens}
use hosting_control_panel.Enforcement.Overlap.{overlap_keeps_refused}
use hosting_control_panel.Enforcement.Grounds.{IsWarranted, build_plan-IsWarranted}

abbrev parse : Text → Option Url
parse s = some (record {
  protocol = text "https:";
  username = [];
  password = [];
  href = text "https://pay.example/renew/abc";
  pathname = text "/renew/abc";
})

abbrev owed : Match
owed = record {
  service_id = text "s";
  local_domain = text "site.example";
  renewal_url = text "https://pay.example/renew/abc";
  enforcement_mode = text "payment_page";
  state = text "suspended";
  primary_domain = text "site.example";
  aliases = [];
}

abbrev snapshot : Option Snapshot
snapshot = some (record { fresh = true; generated_at = text "now"; matches = owed ∷ [] })

abbrev website : Site
website = record {
  host = text "Site.example";
  is_alias = false;
  aliases = text "other.example" ∷ [];
}

abbrev settings : Settings
settings = record { enabled = true; pilot_domains = text "site.example" ∷ [] }

build_plan-IsWarranted_example :
    All
      (IsWarranted parse snapshot settings)
      (build_plan parse snapshot (website ∷ []) settings).entries
build_plan-IsWarranted_example = build_plan-IsWarranted parse snapshot (website ∷ []) settings

abbrev idle : Enforcer
idle = record {
  nginx_map = none;
  settings = some settings;
  status = none;
  history = [];
  running = false;
}

abbrev suspended : Plan
suspended = build_plan parse snapshot (website ∷ []) settings

application :
    (r : Enforcer × Bool) × (apply_plan parse 250 idle suspended
        (text "admin")
        (text "reconcile")
        (some (text "bad"))
        none
        9
      ≡ some r)
unfolding apply_plan begin_apply complete_apply succeed roll_back record_history render_map
    host_lines sorted_hosts url_of json_units sort insert text_le valid_host transition_records
    transition_of transitions_of previous_rows row_for fresh_keys select decide text text_eq
    includes any to_lower_case valid_renewal_url renewal_path after_prefix local_site approved_hosts
    assign_all assign build_plan plan_matches
application = (_, refl)

apply_atomic_example : Applied parse suspended idle application.0.0 application.0.1
apply_atomic_example =
    apply_atomic parse 250 idle suspended (text "admin") (text "reconcile") (some (text "bad")) none
      9 application.1

settings-read : read_settings idle ≡ some settings
unfolding read_settings normalize_settings unique trim to_lower_case select any valid_host sort
    insert text_le text text_eq
settings-read = refl

settings-off :
    normalize_settings (record settings { enabled = false })
    ≡ some (record settings { enabled = false })
unfolding normalize_settings unique trim to_lower_case select any valid_host sort insert text_le
    text text_eq
settings-off = refl

disable_all_opens_example :
    (e' : Enforcer) × ((returned : Bool) × (disable_all parse 250 idle (text "admin") none none 9
        ≡ some (e', returned))
      × (returned ≡ true → (shown_map e' ≡ empty_map) × ((read_status e').blocked_hosts ≡ [])))
disable_all_opens_example =
    disable_all_opens parse 250 idle (text "admin") none none 9 settings-read settings-off

abbrev seen_first : Preview
seen_first = seen snapshot (website ∷ [])

first_wait :
    (e : Enforcer) × ((p : Pending) × ((continue_reconcile parse 250 idle seen_first (text "a") 9
          ≡ (e, some p))
        × (p.changed ≡ true)))
unfolding continue_reconcile read_settings normalize_settings unique trim plan_of begin_apply
    record_history render_map host_lines sorted_hosts url_of json_units sort insert text_le
    valid_host transition_records transition_of transitions_of previous_rows row_for fresh_keys
    select decide text text_eq includes any to_lower_case valid_renewal_url renewal_path
    after_prefix local_site approved_hosts assign_all assign build_plan plan_matches
first_wait = (_, (_, (refl, refl)))

second_wait :
    (e : Enforcer) × ((p : Pending) × ((continue_reconcile parse 250
            (record first_wait.0 { running = true })
            (unseen (text "x"))
            (text "a")
            9
          ≡ (e, some p))
        × (p.changed ≡ true)))
unfolding first_wait continue_reconcile read_settings normalize_settings unique trim plan_of
    begin_apply record_history render_map host_lines sorted_hosts url_of json_units sort insert
    text_le valid_host transition_records transition_of transitions_of previous_rows row_for
    fresh_keys select decide text text_eq includes any to_lower_case valid_renewal_url renewal_path
    after_prefix local_site approved_hosts assign_all assign build_plan plan_matches
second_wait = (_, (_, (refl, refl)))

abbrev after_first : Enforcer
after_first = (complete_apply 250 second_wait.0 first_wait.1.0 (some (text "bad")) none 9).0

overlap_keeps_refused_example :
    (start_reconcile first_wait.0 ≡ some (record first_wait.0 { running = true }))
    × ((complete_apply 250 second_wait.0 first_wait.1.0 (some (text "bad")) none 9).1 ≡ false)
    × ((complete_apply 250 after_first second_wait.1.0 (some (text "bad")) none 9).1 ≡ false)
    × (render_map parse (plan_of parse (read_settings idle) seen_first).entries
        ≡ some (
            shown_map
              (complete_apply 250 after_first second_wait.1.0 (some (text "bad")) none 9).0))
overlap_keeps_refused_example =
    overlap_keeps_refused parse 250 idle seen_first (unseen (text "x")) (text "a") (text "bad")
      (text "bad") none none 9 first_wait.1.1.0 second_wait.1.1.0 first_wait.1.1.1 second_wait.1.1.1
