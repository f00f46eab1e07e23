-- ===== src/Jobs/Life.antt =====
-- The microtask, and then every step: ids stay distinct, and jobs move along the diagram.
use hosting_control_panel.Common.{
  ℕ, ◌≡◌, ◌≢◌, ◌⊎◌, refl, sym, true, List, [], ◌∷◌, select, All, All-of_mem, All-map, Bool-cases,
  inl, inr, Memᴰ, Text, text_eq, text_eq_sound, text_eq_ne,
}
use hosting_control_panel.Jobs.Job.{
  Status, queued, running, is_queued, Job, Active, Manager, Distinct, Absent,
}
use hosting_control_panel.Jobs.Store.{persist, save, change, change_job, emit}
use hosting_control_panel.Jobs.Queue.{
  launch, launchable, pass, run_queue, job_queued, mark_running, set_running, active_of,
}
use hosting_control_panel.Jobs.Prune.{All-prune}
use hosting_control_panel.Jobs.Exclusion.{All-set_running}
use hosting_control_panel.Jobs.Progress.{IsKeyed, one_pass, passes-one}
use hosting_control_panel.Jobs.Keyed.{Distinct-prune, From, From-select}
use hosting_control_panel.Jobs.Kept.{Kept}
use hosting_control_panel.Jobs.Lifecycle.{
  follows, follows_refl, CameFrom, IsNew, Distinct-change_job,
}

-- A job as it was when the pass began, or launched since.
abbrev Launched : List Job → Job → Type 0
Launched jobs k =
    (j : Job) × Memᴰ j jobs
    × (k.id ≡ j.id)
    × ((k.status ≡ j.status) ⊎ ((j.status ≡ queued) × (k.status ≡ running)))

module _ (jobs : List Job) (d : Distinct jobs) (now : ℕ) (j : Job) (here : Memᴰ j jobs)
    (waits : j.status ≡ queued) where
  Launched-mark :
      (xs : List Job)
      → All (Launched jobs) xs
      → All (Launched jobs) (change_job j.id (mark_running now) xs)
  unfolding change_job
  Launched-mark [] h = tt
  Launched-mark (x ∷ xs) h = elim (Bool-cases (text_eq x.id j.id)) [
    | inl same ↦
        rw same ((j, here, text_eq_sound x.id j.id same, inr (waits, refl)), Launched-mark xs h.1)
    | inr other ↦ rw other (h.0, Launched-mark xs h.1)
  ]

-- No queued job is among the running ones after a launch.
idle-launch :
    (active : List Active) (now : ℕ) (j : Job) (xs : List Job)
    → All (λ x. job_queued x ≡ true → Absent active x) xs
    → All
        (λ x. job_queued x ≡ true → Absent (set_running (active_of j) active) x)
        (change_job j.id (mark_running now) xs)
unfolding change_job
idle-launch active now j [] h = tt
idle-launch active now j (x ∷ xs) h = elim (Bool-cases (text_eq x.id j.id)) [
  | inl same ↦ rw same ((λ q. cc), idle-launch active now j xs h.1)
  | inr other ↦ rw other (
    (λ q.
        All-set_running (λ a. a.id ≢ x.id) (active_of j) active
          (λ e. text_eq_ne x.id j.id other (sym e)) (h.0 q)),
    idle-launch active now j xs h.1,
  )
]

launch-IsKeyed : (m : Manager) (now : ℕ) (j : Job) → IsKeyed m → IsKeyed (launch m now j)
unfolding launch save change persist emit
launch-IsKeyed m now j v = record {
  distinct =
      Distinct-prune m.history_limit _
        (Distinct-change_job j.id (mark_running now) m.jobs (λ x. refl) v.distinct);
  idle =
      All-prune (λ x. job_queued x ≡ true → Absent (set_running (active_of j) m.running) x)
        m.history_limit _ (idle-launch m.running now j m.jobs v.idle);
}

launch-Launched :
    (jobs : List Job) (m : Manager) (now : ℕ) (j : Job)
    → Distinct jobs
    → Memᴰ j jobs
    → j.status ≡ queued
    → All (Launched jobs) m.jobs
    → All (Launched jobs) (launch m now j).jobs
unfolding launch save change persist emit
launch-Launched jobs m now j d here waits h =
    All-prune (Launched jobs) m.history_limit _ (Launched-mark jobs d now j here waits m.jobs h)

is_queued_sound : (s : Status) → is_queued s ≡ true → s ≡ queued
is_queued_sound queued q = refl
is_queued_sound _ q = cc

pass-Launched :
    (clock : Text → ℕ) (jobs : List Job) (m : Manager) (js : List Job)
    → Distinct jobs
    → IsKeyed m
    → All (From jobs job_queued) js
    → All (Launched jobs) m.jobs
    → IsKeyed (pass clock m js).0 × All (Launched jobs) (pass clock m js).0.jobs
unfolding pass
pass-Launched clock jobs m [] d v from h = (v, h)
pass-Launched clock jobs m (j ∷ js) d v from h = elim (Bool-cases (launchable m j)) [
  | inl runs ↦
      let now = clock j.id in
      rw runs (
        pass-Launched clock jobs (launch m now j) js d (launch-IsKeyed m now j v) from.1
          (launch-Launched jobs m now j d from.0.0 (is_queued_sound j.status from.0.1) h))
  | inr waits ↦ rw waits (pass-Launched clock jobs m js d v from.1 h)
]

Launched-follows : (s t : Status) → (t ≡ s) ⊎ ((s ≡ queued) × (t ≡ running)) → follows s t ≡ true
Launched-follows s t (inl same) = rw same (follows_refl s)
Launched-follows s t (inr (q, r)) = rw (q, r)

pub run_queue-Kept : (clock : Text → ℕ) (m : Manager) → IsKeyed m → Kept m (run_queue clock m)
unfolding run_queue one_pass
run_queue-Kept clock m v =
    let js = select job_queued m.jobs in
    let start = All-of_mem (Launched m.jobs) m.jobs (λ j here. (j, here, refl, inl refl)) in
    let after =
      pass-Launched clock m.jobs m js v.distinct v (From-select job_queued m.jobs) start in
    record {
      keyed = record {
        distinct = rw (passes-one clock 0 m v) (after.0.distinct);
        idle = rw (passes-one clock 0 m v) (after.0.idle);
      };
      lives = rw (passes-one clock 0 m v) (
          All-map (λ k. IsNew m.jobs k ⊎ CameFrom m.jobs k) _
            (λ k (j, here, same, went).
              inr (j, here, same, Launched-follows j.status k.status went))
            after.1);
    }
