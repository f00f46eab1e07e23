-- ===== src/Jobs/Create.antt =====
-- `register`, `start`, `create` and `retry` of ui-manager/app/lib/job-manager.js, and the state that
-- the constructor builds.
use hosting_control_panel.Common.{
  sort, ◌≡◌, Option-cases, inl, inr, arith, ℕ, ◌+◌, Bool, true, false, not, ◌&&◌, ◌||◌, Option,
  none, some, List, [], ◌∷◌, ◌++◌, map, length, take, any, find, is_empty, leb, ◌==◌, if◌then◌else◌,
  Text, text, text_eq, text_le, includes,
}
use hosting_control_panel.Jobs.Redact.{bounded_text}
use hosting_control_panel.Jobs.Value.{Value, arr, nil, contains_sensitive_key}
use hosting_control_panel.Jobs.Job.{
  queued, running, cancelling, failed, cancelled, is_terminal, Job, Manager, PublicJob, Result, ok,
  ◌>>=◌, ◌>>◌, or_fail, guard, invalid_type, already_registered, no_handler, sensitive_payload,
  not_found, not_finished, not_retryable,
}
use hosting_control_panel.Jobs.Store.{job_active, persist, emit, get}
use hosting_control_panel.Jobs.Queue.{job_queued, public_job, schedule}

-- `recoverInterrupted()`, on one job.
unfoldable pub recover_job : ℕ → Job → Job
recover_job now job = elim job.status [
  | running ↦ record job {
    visible = record job.visible {
      status = failed;
      finished_at = some now;
      current_step = [];
      message = text "Job was interrupted by a panel restart";
      error = text "Job was interrupted by a panel restart";
    };
  }
  | cancelling ↦ record job {
    visible = record job.visible {
      status = cancelled;
      finished_at = some now;
      current_step = [];
      message = text "Cancellation completed when the panel restarted";
      error = [];
    };
  }
  | _ ↦ job
]

-- `new JobManager(options)`: what `load` read from jobs.json, recovered and written back.
unfoldable pub boot : ℕ → ℕ → List Job → Manager
unfolding recover_job persist
boot now history_limit loaded = persist (record {
  history_limit = if history_limit == 0 then 250 else history_limit;
  handlers = [];
  allowlist = none;
  started = false;
  processing = false;
  jobs = map (recover_job now) loaded;
  running = [];
  stored = loaded;
  emitted = [];
})

abbrev is_type_first : ℕ → Bool
is_type_first c = (leb 97 c && leb c 122) || (leb 48 c && leb c 57)

abbrev is_type_unit : ℕ → Bool
is_type_unit c = is_type_first c || (c == b'.') || (c == b'-')

-- `/^[a-z0-9][a-z0-9.-]{1,80}$/`
unfoldable pub valid_type : Text → Bool
unfolding any
valid_type [] = false
valid_type (c ∷ cs) =
    is_type_first c
    && not (any (λ d. not (is_type_unit d)) cs)
    && leb 1 (length cs)
    && leb (length cs) 80

-- `register(type, handler)`
unfoldable pub register : Manager → Text → Result Manager
unfolding schedule
register m job_type = do
  guard (valid_type job_type) invalid_type
  guard (not (includes job_type m.handlers)) already_registered
  ok (schedule (record m { handlers = m.handlers ++ job_type ∷ [] }))

-- The loop of `start` over a job that the standby role suppresses.
abbrev pub suppress : List Text → ℕ → Job → Job
suppress types now job =
    if job_queued job && not (includes job.job_type types)
    then record job {
      visible = record job.visible {
        status = cancelled;
        finished_at = some now;
        current_step = [];
        message = text "Suppressed by standby role; retained as history only";
      };
    }
    else job

abbrev pub suppressed : List Text → Job → Bool
suppressed types job = job_queued job && not (includes job.job_type types)

abbrev pub suppress_all : Option (List Text) → Bool → ℕ → Manager → Manager
suppress_all none standby now m = m
suppress_all (some types) false now m = m
suppress_all (some types) true now m =
    if any (suppressed types) m.jobs
    then persist (record m { jobs = map (suppress types now) m.jobs })
    else m

-- `start({ allowlist, suppressDisallowed })`
unfoldable pub start : Manager → Option (List Text) → Bool → ℕ → Manager
unfolding any persist schedule
start m types standby now =
    let m' = suppress_all types standby now (record m { allowlist = types }) in
    schedule (record m' { started = true })

-- What `create` is given. An absent text is empty, an absent number zero, and the two flags are
-- `input.cancellable !== false` and `input.retryable !== false`.
pub record CreateInput : Type 0 where
  pub job_type : Text
  pub label : Text
  pub operator : Text
  pub trigger : Text
  pub targets : List Text
  pub conflicts : List Text
  pub idempotency_key : Text
  pub cancellable : Bool
  pub retryable : Bool
  pub retry_of : Text
  pub attempt : ℕ
  pub total : ℕ
  pub payload : Value

-- `[...new Set(keys.map(String).filter(Boolean))]`
unfoldable pub distinct : List Text → List Text → List Text
distinct seen [] = []
distinct seen (k ∷ ks) =
    let skipped = is_empty k || includes k seen in
    let rest = distinct (if skipped then seen else k ∷ seen) ks in
    if skipped then rest else k ∷ rest

abbrev pub or_else : Text → Text → Text
or_else [] fallback = fallback
or_else (c ∷ cs) fallback = c ∷ cs

abbrev pub or_number : ℕ → ℕ → ℕ
or_number n fallback = if n == 0 then fallback else n

-- The record that `create` builds.
unfoldable pub new_job : Text → ℕ → CreateInput → Job
unfolding distinct sort
new_job id now input =
    let targets = take 250 (distinct [] input.targets) in
    record {
      visible = record {
        id = id;
        job_type = input.job_type;
        label = bounded_text (or_else input.label input.job_type) 160;
        status = queued;
        operator = bounded_text (or_else input.operator (text "system")) 160;
        trigger = bounded_text (or_else input.trigger (text "manual")) 30;
        targets = targets;
        conflicts = sort text_le (distinct [] input.conflicts);
        cancellable = input.cancellable;
        retryable = input.retryable;
        retry_of = input.retry_of;
        attempt = or_number input.attempt 1;
        created_at = now;
        started_at = none;
        finished_at = none;
        total = or_number input.total (length targets);
        completed = 0;
        current_step = text "Waiting for an available worker";
        message = text "Queued";
        error = [];
        results = arr nil;
        notifications = [];
      };
      idempotency_key =
          if is_empty input.idempotency_key then [] else bounded_text input.idempotency_key 200;
      payload = input.payload;
    }

-- The active job that `create` finds under an idempotency key.
unfoldable pub existing : Manager → Text → Option Job
unfolding find
existing m key =
    if is_empty key then none else find (λ j. job_active j && text_eq j.idempotency_key key) m.jobs

-- `create(input)`, where `crypto.randomUUID()` gives the id.
unfoldable pub create : Manager → Text → ℕ → CreateInput → Result (Manager × PublicJob)
unfolding existing persist emit schedule public_job
create m id now input = do
  guard (includes input.job_type m.handlers) no_handler
  guard (not (contains_sensitive_key input.payload)) sensitive_payload
  elim (existing m input.idempotency_key) [
    | some job ↦ ok (m, public_job m job)
    | none ↦
        let job = new_job id now input in
        let m' = schedule (emit id (persist (record m { jobs = m.jobs ++ job ∷ [] }))) in
        ok (m', public_job m' job)
  ]

abbrev pub retry_input : Job → Text → CreateInput
retry_input job operator = record {
  job_type = job.job_type;
  label = job.label;
  operator = operator;
  trigger = text "retry";
  targets = job.targets;
  conflicts = job.conflicts;
  idempotency_key = [];
  cancellable = job.cancellable;
  retryable = job.retryable;
  retry_of = job.id;
  attempt = or_number job.attempt 1 + 1;
  total = job.total;
  payload = job.payload;
}

-- `retry(id, operator)`
unfoldable pub retry : Manager → Text → Text → Text → ℕ → Result (Manager × PublicJob)
unfolding create
retry m id operator new_id now = do
  job ← or_fail (get m id) not_found
  guard (is_terminal job.status) not_finished
  guard job.retryable not_retryable
  create m new_id now (retry_input job operator)

-- A retry that succeeds is the creation of a job from a finished one.
pub retry_inverts :
    (m : Manager) (id operator new_id : Text) (now : ℕ) {r : Manager × PublicJob}
    → retry m id operator new_id now ≡ ok r
    → (job : Job) × (get m id ≡ some job)
      × (is_terminal job.status ≡ true)
      × (job.retryable ≡ true)
      × (create m new_id now (retry_input job operator) ≡ ok r)
unfolding retry
retry_inverts m id operator new_id now e = elim (Option-cases (get m id)) [
  | inl missing ↦ absurd (cc (rw (missing, ◌>>=◌) at e))
  | inr (job, found) ↦ (job, found, ground arith, ground arith, ground arith)
]
