-- ===== src/Jobs/Queue.antt =====
-- `blockers`, `schedule` and `launch` of ui-manager/app/lib/job-manager.js: which queued jobs run.
use hosting_control_panel.Common.{
  ℕ, zero, suc, Bool, true, false, not, ◌&&◌, ◌||◌, Option, none, some, List, [], ◌∷◌, map, select,
  any, is_empty, if◌then◌else◌, Text, text, text_eq, includes,
}
use hosting_control_panel.Jobs.Job.{Job, Active, Manager, PublicJob, running, is_queued}
use hosting_control_panel.Jobs.Store.{save}

-- `active.conflicts.some((key) => job.conflicts.includes(key))`
unfoldable pub shares : List Text → List Text → Bool
unfolding any
shares active wanted = any (λ key. includes key wanted) active

-- `blockers(job)`
unfoldable pub blockers : List Active → Job → List Active
unfolding select
blockers active job =
    if is_empty job.conflicts
    then []
    else select (λ a. not (text_eq a.id job.id) && shares a.conflicts job.conflicts) active

-- `publicJob(job)`
unfoldable pub public_job : Manager → Job → PublicJob
public_job m job = record {
  visible = job.visible;
  waiting_for =
      if is_queued job.status then map (λ a. (a.id, a.label)) (blockers m.running job) else [];
}

abbrev allowed : Option (List Text) → Text → Bool
allowed none job_type = true
allowed (some types) job_type = includes job_type types

-- What the loop of `schedule` asks of a queued job before it launches it.
unfoldable pub launchable : Manager → Job → Bool
launchable m job =
    includes job.job_type m.handlers
    && is_empty (blockers m.running job)
    && allowed m.allowlist job.job_type

-- `this.running.set(job.id, job)`: a key that is there keeps its place.
unfoldable pub set_running : Active → List Active → List Active
set_running a [] = a ∷ []
set_running a (b ∷ bs) =
    let rest = set_running a bs in if text_eq b.id a.id then a ∷ bs else b ∷ rest

abbrev pub active_of : Job → Active
active_of job = record { id = job.id; label = job.label; conflicts = job.conflicts }

abbrev pub mark_running : ℕ → Job → Job
mark_running now job = record job {
  visible = record job.visible {
    status = running;
    started_at = some now;
    current_step = text "Starting";
    message = text "Running";
  };
}

-- `launch(job)` up to the first `await`: the handler itself runs later.
unfoldable pub launch : Manager → ℕ → Job → Manager
unfolding set_running save
launch m now job =
    save job.id (mark_running now) (record m { running = set_running (active_of job) m.running })

abbrev pub job_queued : Job → Bool
job_queued j = is_queued j.status

-- The inner loop, over the jobs that were queued when the pass began: the manager after it, and
-- `launched`. The clock gives the time at which each job is launched.
unfoldable pub pass : (Text → ℕ) → Manager → List Job → Manager × Bool
unfolding launch launchable
pass clock m [] = (m, false)
pass clock m (j ∷ js) =
    let runs = launchable m j in
    let m' = if runs then launch m (clock j.id) j else m in
    let (last, launched) = pass clock m' js in (last, runs || launched)

-- The loop `do … while (launched)`, on fuel.
unfoldable pub passes : (Text → ℕ) → ℕ → Manager → Manager
unfolding pass select
passes clock zero m = m
passes clock (suc fuel) m =
    let (m', launched) = pass clock m (select job_queued m.jobs) in
    elim launched [ true ↦ passes clock fuel m' | false ↦ m' ]

-- Whether that loop ends by its own test before the fuel is used up.
unfoldable pub ends_within : (Text → ℕ) → ℕ → Manager → Bool
unfolding pass select
ends_within clock zero m = false
ends_within clock (suc fuel) m =
    let (m', launched) = pass clock m (select job_queued m.jobs) in
    elim launched [ true ↦ ends_within clock fuel m' | false ↦ true ]

-- `schedule()` asks for a microtask unless one is asked for already.
unfoldable pub schedule : Manager → Manager
schedule m = if m.started && not m.processing then record m { processing = true } else m

-- The microtask, on fuel for two passes of the loop.
unfoldable pub run_queue : (Text → ℕ) → Manager → Manager
unfolding passes
run_queue clock m = record (passes clock 2 m) { processing = false }
