-- ===== src/Jobs/Examples.antt =====
-- A small panel with three jobs, on which the theorems about ui-manager/app/lib/job-manager.js are
-- applied.
use hosting_control_panel.Common.{
  ℕ, ◌≡◌, ◌≢◌, ◌⊎◌, refl, All, Memᴰ, true, false, none, List, [], ◌∷◌, ◌++◌, Text, text, arith,
  includes, any, text_eq,
}
use hosting_control_panel.Jobs.Redact.{bounded_text}
use hosting_control_panel.Jobs.Value.{
  Value, obj, field, end, str, arr, nil, cons, contains_sensitive_key, safe_result,
}
use hosting_control_panel.Jobs.Job.{
  Status, queued, succeeded, Job, Manager, PublicJob, Distinct, ok,
}
use hosting_control_panel.Jobs.Store.{prune, job_active, persist, emit}
use hosting_control_panel.Jobs.Queue.{
  run_queue, launchable, passes, ends_within, job_queued, schedule, public_job,
}
use hosting_control_panel.Jobs.Create.{
  CreateInput, boot, register, valid_type, start, create, existing, new_job,
}
use hosting_control_panel.Jobs.Step.{Step, Reach, registered, was_started, microtask, booted, next}
use hosting_control_panel.Jobs.Exclusion.{Exclusive, Reach-Exclusive}
use hosting_control_panel.Jobs.Lifecycle.{IsNew, CameFrom}
use hosting_control_panel.Jobs.Progress.{passes_two}
use hosting_control_panel.Jobs.History.{Reach-IsKeyed, Step-lifecycle, Reach-run_queue_complete}
use hosting_control_panel.Jobs.Durable.{Reach-stored}
use hosting_control_panel.Jobs.Secrets.{safe_result_public}
use hosting_control_panel.Jobs.Requests.{create_twice, changed_key_forgotten}

abbrev site_job : ℕ → Status → Job
site_job n s = record {
  visible = record {
    id = n ∷ [];
    job_type = text "site.backup";
    label = text "Backup";
    status = s;
    operator = text "admin";
    trigger = text "manual";
    targets = [];
    conflicts = text "site" ∷ [];
    cancellable = true;
    retryable = true;
    retry_of = [];
    attempt = 1;
    created_at = n;
    started_at = none;
    finished_at = none;
    total = 2;
    completed = 0;
    current_step = [];
    message = [];
    error = [];
    results = arr nil;
    notifications = [];
  };
  idempotency_key = [];
  payload = obj end;
}

abbrev loaded_jobs : List Job
loaded_jobs = site_job 1 queued ∷ site_job 2 queued ∷ site_job 3 succeeded ∷ []

loaded_jobs-Distinct : Distinct loaded_jobs
loaded_jobs-Distinct = ((ground arith, (ground arith, tt)), ((ground arith, tt), (tt, tt)))

abbrev fresh : Manager
fresh = boot 5 0 loaded_jobs

abbrev with_handler : Manager
with_handler = schedule (record fresh { handlers = text "site.backup" ∷ [] })

abbrev waiting : Manager
waiting = start with_handler none false 6

abbrev clock : Text → ℕ
clock id = 7

abbrev served : Manager
served = run_queue clock waiting

waiting-Reach : Reach waiting
unfolding register valid_type boot includes any text persist prune
waiting-Reach =
    next (next (booted 5 0 loaded_jobs loaded_jobs-Distinct) (registered (text "site.backup") refl))
      (was_started none false 6)

served-Step : Step waiting served
unfolding start schedule boot persist prune
served-Step = microtask clock refl

served-Reach : Reach served
served-Reach = next waiting-Reach served-Step

Reach-Exclusive_example : Exclusive served.running
Reach-Exclusive_example = Reach-Exclusive served-Reach

Reach-stored_example :
    (served.stored ≡ served.jobs)
    × ((now limit : ℕ) (j : Job)
        → Memᴰ j served.jobs
        → job_queued j ≡ true
        → Memᴰ j (boot now limit served.stored).jobs)
Reach-stored_example = Reach-stored served-Reach

Step-lifecycle_example : All (λ k. IsNew waiting.jobs k ⊎ CameFrom waiting.jobs k) served.jobs
Step-lifecycle_example = Step-lifecycle waiting-Reach served-Step

Reach-run_queue_complete_example :
    All
      (λ j. job_queued j ≡ true → launchable (run_queue clock waiting) j ≡ false)
      (run_queue clock waiting).jobs
Reach-run_queue_complete_example = Reach-run_queue_complete clock waiting-Reach

passes_two_example :
    (ends_within clock 2 waiting ≡ true) × (passes clock 5 waiting ≡ passes clock 2 waiting)
passes_two_example = passes_two clock 3 waiting (Reach-IsKeyed waiting-Reach)

abbrev answer : Value
answer = arr (cons (obj (field (text "password") (str (text "hunter2")) end)) nil)

safe_result_public_example : contains_sensitive_key (safe_result answer) ≡ false
safe_result_public_example = safe_result_public answer

abbrev request : Text → CreateInput
request key = record {
  job_type = text "site.backup";
  label = [];
  operator = [];
  trigger = [];
  targets = [];
  conflicts = [];
  idempotency_key = key;
  cancellable = true;
  retryable = true;
  retry_of = [];
  attempt = 0;
  total = 0;
  payload = obj end;
}

abbrev empty_panel : Manager
empty_panel = record {
  history_limit = 250;
  handlers = text "site.backup" ∷ [];
  allowlist = none;
  started = false;
  processing = false;
  jobs = [];
  running = [];
  stored = [];
  emitted = [];
}

abbrev first_job : Job
first_job = new_job (text "a") 1 (request (text "key"))

abbrev one_job : Manager
one_job = schedule (emit (text "a") (persist (record empty_panel { jobs = first_job ∷ [] })))

create_twice_example :
    (j : Job) × (Memᴰ j one_job.jobs
      × (job_active j ≡ true)
      × (j.idempotency_key ≡ text "key")
      × (create one_job (text "b") 9 (request (text "key")) ≡ ok (one_job, public_job one_job j)))
unfolding create text existing bounded_text includes any contains_sensitive_key new_job text_eq
create_twice_example =
    create_twice empty_panel (text "a") (text "b") 1 9 (request (text "key")) refl refl refl refl

abbrev broken_key : Text
broken_key = 97 ∷ 9 ∷ 98 ∷ []

broken_key-changed : bounded_text broken_key 200 ≢ broken_key
unfolding bounded_text
broken_key-changed e = absurd (ground (arith, e))

-- The manager after a request under the key that the cleaning changes, and after the same request again.
abbrev once_asked : Manager
once_asked = schedule (
    emit (text "a")
      (persist (record empty_panel { jobs = new_job (text "a") 1 (request broken_key) ∷ [] })))

abbrev twice_asked : Manager
twice_asked = schedule (
    emit (text "b") (
      persist (record once_asked {
        jobs = once_asked.jobs ++ new_job (text "b") 2 (request broken_key) ∷ [];
      })))

changed_key_forgotten_example :
    (m2 : Manager) × ((p2 : PublicJob) × ((create once_asked (text "b") 2 (request broken_key)
          ≡ ok (m2, p2))
        × Memᴰ (new_job (text "a") 1 (request broken_key)) m2.jobs
        × Memᴰ (new_job (text "b") 2 (request broken_key)) m2.jobs))
unfolding create text existing bounded_text includes any contains_sensitive_key new_job text_eq
changed_key_forgotten_example =
    changed_key_forgotten empty_panel (text "a") (text "b") 1 2 (request broken_key) refl
      broken_key-changed refl refl
