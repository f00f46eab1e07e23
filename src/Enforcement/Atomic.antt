-- ===== src/Enforcement/Atomic.antt =====
-- What an application of a plan leaves behind, alone and beside another one
-- (ui-manager/app/lib/billing-enforcement.js).
use hosting_control_panel.Common.{
  ℕ, ◌≡◌, refl, sym, ap, subst, ◌∙◌, Bool, true, false, not, Option, none, some, List, [], ◌∷◌, map,
  select, Bool-cases, Option-cases, inl, inr, Text, text, text_eq, text_eq_sound, arith,
}
use hosting_control_panel.Enforcement.Plan.{Url, Settings, Plan, build_plan, plan_matches}
use hosting_control_panel.Enforcement.Render.{render_map, empty_map, sorted_hosts, host_lines}
use hosting_control_panel.Enforcement.Transitions.{
  Status, Transition, proposed, applied, failed, brief, blocks, transition_records,
}
use hosting_control_panel.Enforcement.Apply.{
  Enforcer, normalize_settings, read_settings, read_status, shown_map, record_history, marked,
  marked_applied, Pending, begin_apply, cut, success, failure, failure_text, succeed, roll_back,
  complete_apply, apply_plan, Reload, disable_all,
}

-- The files after an application that returned, and after one that threw.
pub data Applied (parse : Text → Option Url) (plan : Plan) (e e' : Enforcer) : Bool → Type 0 where
  installed :
      render_map parse plan.entries ≡ some (shown_map e')
      → (read_status e').blocked_hosts ≡ sorted_hosts plan.entries
      → (read_status e').blocked_services ≡ map (λ r. cut (brief r)) (select blocks plan.rows)
      → (read_status e').result ≡ applied
      → (read_status e').error ≡ []
      → Applied parse plan e e' true
  restored :
      shown_map e' ≡ shown_map e
      → (read_status e').blocked_hosts ≡ (read_status e).blocked_hosts
      → (read_status e').blocked_services ≡ (read_status e).blocked_services
      → (read_status e').result ≡ failed
      → Applied parse plan e e' false

record_history-files :
    (max_history : ℕ) (records : List Transition) (e : Enforcer)
    → ((record_history max_history records e).nginx_map ≡ e.nginx_map)
      × ((record_history max_history records e).status ≡ e.status)
unfolding record_history
record_history-files max_history [] e = (refl, refl)
record_history-files max_history (r ∷ rs) e = (refl, refl)

-- What `begin_apply` did.
pub record Begun (parse : Text → Option Url) (e : Enforcer) (plan : Plan) (e' : Enforcer)
    (p : Pending) : Type 0 where
  pub candidate : Text
  pub rendered : render_map parse plan.entries ≡ some candidate
  pub of_plan : p.plan ≡ plan
  pub previous : p.previous ≡ shown_map e
  pub previous_status : p.previous_status ≡ read_status e
  pub changed : p.changed ≡ not (text_eq candidate (shown_map e))
  pub written : shown_map e' ≡ candidate

pub begin-Begun :
    (parse : Text → Option Url) (max_history : ℕ) (e : Enforcer) (plan : Plan) (actor action : Text)
    (now : ℕ) {e' : Enforcer} {p : Pending}
    → begin_apply parse max_history e plan actor action now ≡ some (e', p)
    → Begun parse e plan e' p
unfolding begin_apply
begin-Begun parse max_history e plan actor action now {e'} {p} h =
    elim (Option-cases (render_map parse plan.entries)) [
      | inl m ↦ absurd (ground (arith, m, h))
      | inr (candidate, m) ↦
          let records = transition_records plan (read_status e) actor action proposed [] now in
          let kept = record_history-files max_history records e in
          elim (Bool-cases (text_eq candidate (shown_map e))) [
            | inl same ↦ record {
              candidate = candidate;
              rendered = m;
              of_plan = ground (arith, m, same, h);
              previous = ground (arith, m, same, h);
              previous_status = ground (arith, m, same, h);
              changed = ground (arith, m, same, h);
              written =
                  let there : e'.nginx_map ≡ e.nginx_map = ground (arith, m, same, h, kept.0) in
                  ap (λ (o : Option Text). elim o [ none ↦ empty_map | some c ↦ c ]) there
                  ∙ sym (text_eq_sound candidate (shown_map e) same);
            }
            | inr new ↦ record {
              candidate = candidate;
              rendered = m;
              of_plan = ground (arith, m, new, h);
              previous = ground (arith, m, new, h);
              previous_status = ground (arith, m, new, h);
              changed = ground (arith, m, new, h);
              written =
                  let there : e'.nginx_map ≡ some candidate = ground (arith, m, new, h) in
                  ap (λ (o : Option Text). elim o [ none ↦ empty_map | some c ↦ c ]) there;
            }
          ]
    ]

abbrev map_text : Option Text → Text
map_text o = elim o [ none ↦ empty_map | some c ↦ c ]

succeed-files :
    (max_history : ℕ) (e : Enforcer) (p : Pending) (now : ℕ)
    → ((succeed max_history e p now).nginx_map ≡ e.nginx_map)
      × ((succeed max_history e p now).status ≡ some (success p))
unfolding succeed
succeed-files max_history e p now =
    record_history-files max_history (map (marked_applied now) p.records)
      (record e { status = some (success p) })

pub roll_back-files :
    (max_history : ℕ) (e : Enforcer) (p : Pending) (error : Text) (now : ℕ)
    → ((roll_back max_history e p error now).nginx_map ≡ some p.previous)
      × ((roll_back max_history e p error now).status ≡ some (failure p error))
unfolding roll_back
roll_back-files max_history e p error now =
    record_history-files max_history (map (marked failed error now) p.records)
      (record e { nginx_map = some p.previous; status = some (failure p error) })

-- The status file as `readStatus` reads it back.
read_status-some : (e : Enforcer) {s : Status} → e.status ≡ some s → read_status e ≡ s
read_status-some e h = rw h refl

succeed-Applied :
    {parse : Text → Option Url} {e e' : Enforcer} {plan : Plan} {p : Pending} (max_history now : ℕ)
    → Begun parse e plan e' p
    → Applied parse plan e (succeed max_history e' p now) true
succeed-Applied {parse} {e} {e'} {plan} {p} max_history now b =
    let files = succeed-files max_history e' p now in
    let read = read_status-some (succeed max_history e' p now) files.1 in
    installed (b.rendered ∙ ap (λ c. some c) (sym (ap map_text files.0 ∙ b.written)))
      (ap (λ s. s.blocked_hosts) read ∙ ap (λ (q : Plan). sorted_hosts q.entries) b.of_plan)
      (ap (λ s. s.blocked_services) read
        ∙ ap (λ (q : Plan). map (λ r. cut (brief r)) (select blocks q.rows)) b.of_plan)
      (ap (λ s. s.result) read) (ap (λ s. s.error) read)

roll_back-Applied :
    {parse : Text → Option Url} {e e' : Enforcer} {plan : Plan} {p : Pending} (max_history now : ℕ)
    (error : Text)
    → Begun parse e plan e' p
    → Applied parse plan e (roll_back max_history e' p error now) false
roll_back-Applied {parse} {e} {e'} {plan} {p} max_history now error b =
    let files = roll_back-files max_history e' p error now in
    let read = read_status-some (roll_back max_history e' p error now) files.1 in
    restored (ap map_text files.0 ∙ b.previous)
      (ap (λ s. s.blocked_hosts) read ∙ ap (λ (s : Status). s.blocked_hosts) b.previous_status)
      (ap (λ s. s.blocked_services) read
        ∙ ap (λ (s : Status). s.blocked_services) b.previous_status)
      (ap (λ s. s.result) read)

complete-Applied :
    {parse : Text → Option Url} {e e' : Enforcer} {plan : Plan} {p : Pending} (max_history : ℕ)
    (reload again : Reload) (now : ℕ)
    → Begun parse e plan e' p
    → Applied parse plan e
        (complete_apply max_history e' p reload again now).0
        (complete_apply max_history e' p reload again now).1
unfolding complete_apply
complete-Applied {parse} {e} {e'} {plan} {p} max_history reload again now b =
    elim (Bool-cases (p.changed)) [
      | inr f ↦ rw f (succeed-Applied max_history now b)
      | inl t ↦ elim (Option-cases reload) [
        | inl n ↦ rw (t, n) (succeed-Applied max_history now b)
        | inr (why, s) ↦ rw (t, s) (roll_back-Applied max_history now (failure_text why again) b)
      ]
    ]

-- An application on its own that gets past rendering either returns, with the map rendered from the plan
-- in place and a status marked as applied, without error, that names the hosts of the map and the
-- services that the plan blocks; or throws, with the map as it was and a status marked as failed that
-- names the hosts and services that were blocked before.
pub apply_atomic :
    (parse : Text → Option Url) (max_history : ℕ) (e : Enforcer) (plan : Plan) (actor action : Text)
    (reload again : Reload) (now : ℕ) {e' : Enforcer} {returned : Bool}
    → apply_plan parse max_history e plan actor action reload again now ≡ some (e', returned)
    → Applied parse plan e e' returned
unfolding apply_plan
apply_atomic parse max_history e plan actor action reload again now {e'} {returned} h =
    elim (Option-cases (begin_apply parse max_history e plan actor action now)) [
      | inl m ↦ absurd (ground (arith, m, h))
      | inr ((e1, p), m) ↦
          let b = begin-Begun parse max_history e plan actor action now m in
          let same : complete_apply max_history e1 p reload again now ≡ (e', returned) =
            ground (arith, m, h) in
          subst (λ (r : Enforcer × Bool). Applied parse plan e r.0 r.1) same
            (complete-Applied max_history reload again now b)
    ]

apply-run :
    (parse : Text → Option Url) (max_history : ℕ) (e : Enforcer) (plan : Plan) (actor action : Text)
    (reload again : Reload) (now : ℕ) {e' : Enforcer} {p : Pending}
    → begin_apply parse max_history e plan actor action now ≡ some (e', p)
    → apply_plan parse max_history e plan actor action reload again now
      ≡ some (complete_apply max_history e' p reload again now)
unfolding apply_plan
apply-run parse max_history e plan actor action reload again now m = rw (apply_plan, m) refl

disable_all-runs :
    (parse : Text → Option Url) (max_history : ℕ) (e : Enforcer) (actor : Text)
    (reload again : Reload) (now : ℕ) {stored settings : Settings}
    → read_settings e ≡ some stored
    → normalize_settings (record stored { enabled = false }) ≡ some settings
    → disable_all parse max_history e actor reload again now
      ≡ apply_plan parse max_history
          (record e { settings = some settings })
          (build_plan parse none [] settings)
          actor
          (text "disable-all")
          reload
          again
          now
unfolding disable_all
disable_all-runs parse max_history e actor reload again now read kept =
    rw (disable_all, read, kept) refl

-- When the stored settings are accepted, and are accepted again with enforcement turned off, disabling all
-- enforcement does not fail before nginx is asked; and when it returns, no host is blocked and the map is
-- the one without entries.
pub disable_all_opens :
    (parse : Text → Option Url) (max_history : ℕ) (e : Enforcer) (actor : Text)
    (reload again : Reload) (now : ℕ) {stored settings : Settings}
    → read_settings e ≡ some stored
    → normalize_settings (record stored { enabled = false }) ≡ some settings
    → (e' : Enforcer) × ((returned : Bool) × (disable_all parse max_history e actor reload again now
          ≡ some (e', returned))
        × (returned ≡ true → (shown_map e' ≡ empty_map) × ((read_status e').blocked_hosts ≡ [])))
unfolding begin_apply build_plan plan_matches render_map host_lines sorted_hosts text
disable_all_opens parse max_history e actor reload again now {stored} {settings} read kept =
    let off = record e { settings = some settings } in
    let plan = build_plan parse none [] settings in
    let found =
      Option-cases (begin_apply parse max_history off plan actor (text "disable-all") now) in
    elim found [
      | inl m ↦ absurd (cc (m))
      | inr ((e1, p), m) ↦
          let done = complete_apply max_history e1 p reload again now in
          let b = begin-Begun parse max_history off plan actor (text "disable-all") now m in
          (
            done.0,
            (
              done.1,
              disable_all-runs parse max_history e actor reload again now read kept
                  ∙ apply-run parse max_history off plan actor (text "disable-all") reload again now
                      m,
              opened refl (complete-Applied max_history reload again now b),
            ),
          )
    ]
  where
    opened :
        {plan : Plan} {o e2 : Enforcer} {r : Bool}
        → plan.entries ≡ []
        → Applied parse plan o e2 r
        → r ≡ true
        → (shown_map e2 ≡ empty_map) × ((read_status e2).blocked_hosts ≡ [])
    opened {plan} nothing (installed m hosts services result error) t =
        (ground (arith, sym m ∙ ap (render_map parse) nothing), hosts ∙ ap sorted_hosts nothing)
    opened nothing (restored a b c d) t = absurd (cc (t))
