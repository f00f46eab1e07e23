-- ===== src/Enforcement/Overlap.antt =====
-- Two reconciliations that overlap (ui-manager/app/lib/billing-enforcement.js).
use hosting_control_panel.Common.{
  ℕ, ◌≡◌, refl, sym, ap, subst, ◌∙◌, true, false, Option, none, some, Option-cases, inl, inr, Text,
  text, arith,
}
use hosting_control_panel.Enforcement.Plan.{Url}
use hosting_control_panel.Enforcement.Render.{render_map, empty_map}
use hosting_control_panel.Enforcement.Apply.{
  Enforcer, shown_map, Pending, begin_apply, failure_text, complete_apply, Reload, Preview, plan_of,
  read_settings, start_reconcile, continue_reconcile,
}
use hosting_control_panel.Enforcement.Atomic.{Begun, begin-Begun, roll_back-files}

-- What a reconciliation did before it waits for nginx.
pub record Continued (parse : Text → Option Url) (e : Enforcer) (preview : Preview) (e' : Enforcer)
    (p : Pending) : Type 0 where
  pub begun : Begun parse e (plan_of parse (read_settings e) preview) e' p
  pub free : e'.running ≡ false

continue-Continued :
    (parse : Text → Option Url) (max_history : ℕ) (e : Enforcer) (preview : Preview) (actor : Text)
    (now : ℕ) {e' : Enforcer} {p : Pending}
    → continue_reconcile parse max_history e preview actor now ≡ (e', some p)
    → Continued parse e preview e' p
unfolding continue_reconcile text
continue-Continued parse max_history e preview actor now {e'} {p} h =
    elim (Option-cases (
      begin_apply parse max_history e (plan_of parse (read_settings e) preview) actor
        (text "reconcile") now)) [
          | inl m ↦ absurd (ground (arith, m, h))
          | inr ((e1, q), m) ↦
              let b =
                begin-Begun parse max_history e (plan_of parse (read_settings e) preview) actor
                  (text "reconcile") now m in
              let same : record e1 { running = false } ≡ e' = ground (arith, m, h) in
              let same_wait : q ≡ p = ground (arith, m, h) in
              subst (λ (x : Enforcer). Continued parse e preview x p) same
                (subst (Continued parse e preview (record e1 { running = false })) same_wait
                  (record {
                    begun = record {
                      candidate = b.candidate;
                      rendered = b.rendered;
                      of_plan = b.of_plan;
                      previous = b.previous;
                      previous_status = b.previous_status;
                      changed = b.changed;
                      written = b.written;
                    };
                    free = refl;
                  }))
        ]

refused :
    (max_history : ℕ) (e : Enforcer) (p : Pending) (why : Text) (again : Reload) (now : ℕ)
    → p.changed ≡ true
    → ((complete_apply max_history e p (some why) again now).1 ≡ false)
      × (shown_map (complete_apply max_history e p (some why) again now).0 ≡ p.previous)
unfolding complete_apply
refused max_history e p why again now t = (
  rw t refl,
  rw t (
      ap (λ (o : Option Text). elim o [ none ↦ empty_map | some c ↦ c ])
        (roll_back-files max_history e p (failure_text why again) now).0),
)

-- The flag against a second reconciliation is down again while the first one waits for nginx. If the
-- second one begins then and nginx refuses both maps, both report that the previous map was restored, and
-- the map left in place is the first one that was refused.
pub overlap_keeps_refused :
    (parse : Text → Option Url) (max_history : ℕ) (e : Enforcer) (first second : Preview)
    (actor why why' : Text) (again again' : Reload) (now : ℕ) {e1 e2 : Enforcer} {p q : Pending}
    → continue_reconcile parse max_history e first actor now ≡ (e1, some p)
    → continue_reconcile parse max_history (record e1 { running = true }) second actor now
      ≡ (e2, some q)
    → p.changed ≡ true
    → q.changed ≡ true
    → (start_reconcile e1 ≡ some (record e1 { running = true }))
      × ((complete_apply max_history e2 p (some why) again now).1 ≡ false)
      × ((complete_apply max_history
            (complete_apply max_history e2 p (some why) again now).0
            q
            (some why')
            again'
            now).1
          ≡ false)
      × (render_map parse (plan_of parse (read_settings e) first).entries
          ≡ some (
              shown_map
                (complete_apply max_history
                  (complete_apply max_history e2 p (some why) again now).0
                  q
                  (some why')
                  again'
                  now).0))
unfolding start_reconcile
overlap_keeps_refused parse max_history e first second actor why why' again again' now {e1} {e2} {p}
      {q} h k t u =
    let one = continue-Continued parse max_history e first actor now h in
    let two =
      continue-Continued parse max_history (record e1 { running = true }) second actor now k in
    let e3 = (complete_apply max_history e2 p (some why) again now).0 in
    let last = refused max_history e3 q why' again' now u in
    (
      rw (one.free) refl,
      (refused max_history e2 p why again now t).0,
      last.0,
      one.begun.rendered ∙ ap (λ c. some c) (sym (last.1 ∙ two.begun.previous ∙ one.begun.written)),
    )
