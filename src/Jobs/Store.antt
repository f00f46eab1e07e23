-- ===== src/Jobs/Store.antt =====
-- `persist` and `prune` of ui-manager/app/lib/job-manager.js: the list of jobs, kept within the
-- history limit and written to jobs.json.
use hosting_control_panel.Common.{
  sort, ℕ, ◌-◌, Bool, List, [], ◌∷◌, ◌++◌, length, take, select, find, leb, if◌then◌else◌, Text,
  text_eq, Option,
}
use hosting_control_panel.Jobs.Job.{Job, Manager, is_active, is_terminal}

abbrev pub older_first : Job → Job → Bool
older_first a b = leb a.created_at b.created_at

abbrev pub newer_first : Job → Job → Bool
newer_first a b = leb b.created_at a.created_at

abbrev pub job_active : Job → Bool
job_active j = is_active j.status

abbrev pub job_terminal : Job → Bool
job_terminal j = is_terminal j.status

-- `prune()`, on the history limit and the list.
unfoldable pub prune : ℕ → List Job → List Job
unfolding sort select
prune limit jobs =
    let active = select job_active jobs in
    let terminal = take (limit - length active) (sort newer_first (select job_terminal jobs)) in
    if leb (length jobs) limit then jobs else sort older_first (active ++ terminal)

-- `persist()`
unfoldable pub persist : Manager → Manager
persist m = let kept = prune m.history_limit m.jobs in record m { jobs = kept; stored = kept }

-- `this.events.emit("changed", id)`
unfoldable pub emit : Text → Manager → Manager
emit id m = record m { emitted = id ∷ m.emitted }

-- `get(id)`
unfoldable pub get : Manager → Text → Option Job
get m id = find (λ j. text_eq j.id id) m.jobs

-- An assignment to fields of the job object behind an id.
unfoldable pub change_job : Text → (Job → Job) → List Job → List Job
change_job id f [] = []
change_job id f (j ∷ js) = (if text_eq j.id id then f j else j) ∷ change_job id f js

unfoldable pub change : Text → (Job → Job) → Manager → Manager
unfolding change_job
change id f m = record m { jobs = change_job id f m.jobs }

-- The assignments of an operation, then `persist()`, then the event.
unfoldable pub save : Text → (Job → Job) → Manager → Manager
unfolding change persist emit
save id f m = emit id (persist (change id f m))
