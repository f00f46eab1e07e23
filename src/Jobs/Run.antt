-- ===== src/Jobs/Run.antt =====
-- `context.update`, `finish`, `fail` and `cancel` of ui-manager/app/lib/job-manager.js: what happens
-- to a job after it was created.
use hosting_control_panel.Common.{
  ℕ, ◌+◌, Bool, true, false, not, ◌&&◌, ◌||◌, Option, none, some, List, [], ◌++◌, select, ltb, ◌==◌,
  if◌then◌else◌, Text, text, text_eq,
}
use hosting_control_panel.Jobs.Redact.{bounded_text}
use hosting_control_panel.Jobs.Value.{
  Value, Items, Fields, bool, arr, obj, nil, cons, end, field, safe_value, safe_result, take_items,
  map_items,
}
use hosting_control_panel.Jobs.Job.{
  Status, queued, running, cancelling, succeeded, failed, partially_succeeded, cancelled, is_active,
  is_queued, is_cancelling, is_failed, is_cancelled, Job, Manager, PublicJob, Active, Result, ok,
  ◌>>=◌, ◌>>◌, or_fail, guard, not_found, not_queued_or_running, not_cancellable,
}
use hosting_control_panel.Jobs.Store.{save, change, persist, emit, get}
use hosting_control_panel.Jobs.Queue.{public_job, schedule}
use hosting_control_panel.Jobs.Create.{or_else, or_number}

-- What `context.update` is given; `none` is an absent field.
pub record Patch : Type 0 where
  pub total : Option ℕ
  pub completed : Option ℕ
  pub current_step : Option Text
  pub message : Option Text
  pub results : Option Value

abbrev pub given {ℓ} : {A : Type ℓ} → Option A → A → A
given none old = old
given (some new) old = new

abbrev pub patched : Patch → Job → Job
patched p job = record job {
  visible = record job.visible {
    total = given p.total job.total;
    completed = given p.completed job.completed;
    current_step = elim p.current_step [ none ↦ job.current_step | some t ↦ bounded_text t 240 ];
    message = elim p.message [ none ↦ job.message | some t ↦ bounded_text t 500 ];
    results = elim p.results [ none ↦ job.results | some v ↦ safe_result v ];
  };
}

-- `context(job).update(patch)`
unfoldable pub update : Manager → Job → Patch → Manager
unfolding save
update m job p = if is_active job.status then save job.id (patched p) m else m

-- What a handler's promise resolves to, `none` for an absent field.
pub record HandlerResult : Type 0 where
  pub status : Text
  pub ok_flag : Option Bool
  pub results : Value
  pub completed : Option ℕ
  pub total : Option ℕ
  pub message : Text
  pub error : Text

-- `safe.status && TERMINAL_STATUSES.has(safe.status)`
unfoldable pub terminal_status : Text → Option Status
unfolding text text_eq
terminal_status s =
    if text_eq s (text "succeeded")
    then some succeeded
    else if text_eq s (text "failed")
    then some failed
    else if text_eq s (text "partially_succeeded")
    then some partially_succeeded
    else if text_eq s (text "cancelled")
    then some cancelled
    else none

-- `item.ok`
field_ok : Fields → Option Bool
unfolding text text_eq
field_ok end = none
field_ok (field k v fs) =
    let later = field_ok fs in
    if text_eq k (text "ok") then elim later [ none ↦ flag v | some b ↦ some b ] else later
  where
    flag : Value → Option Bool
    flag (bool b) = some b
    flag _ = none

-- `item && item.ok === false`
abbrev is_false : Option Bool → Bool
is_false (some false) = true
is_false _ = false

unfoldable pub item_failed : Value → Bool
unfolding field_ok
item_failed (obj fs) = is_false (field_ok fs)
item_failed _ = false

unfoldable pub count_failed : Items → ℕ
unfolding item_failed
count_failed nil = 0
count_failed (cons v vs) = (if item_failed v then 1 else 0) + count_failed vs

unfoldable pub count_succeeded : Items → ℕ
unfolding item_failed
count_succeeded nil = 0
count_succeeded (cons v vs) = (if item_failed v then 0 else 1) + count_succeeded vs

-- `safeResult(result)` field by field: `results` stands one level down.
unfoldable pub safe_items : Value → Items
unfolding safe_value map_items take_items
safe_items (arr xs) = map_items (safe_value 4) (take_items 250 xs)
safe_items _ = nil

-- The status that `finish` gives a job: the job's own, its counts, and the handler's result.
unfoldable pub final_status : Job → HandlerResult → Status
unfolding terminal_status count_failed count_succeeded safe_items
final_status job r =
    let items = safe_items r.results in
    let bad = count_failed items in
    let good = count_succeeded items in
    if is_cancelling job.status && ltb (given r.completed job.completed) (given r.total job.total)
    then cancelled
    else elim (terminal_status (bounded_text r.status 2000)) [
      | some s ↦ s
      | none ↦
          if is_false r.ok_flag && ltb 0 good && ltb 0 bad
          then partially_succeeded
          else if is_false r.ok_flag || (ltb 0 bad && (good == 0))
          then failed
          else if ltb 0 bad
          then partially_succeeded
          else succeeded
    ]

-- `defaultMessage(status)`
unfoldable pub default_message : Status → Text
default_message succeeded = text "Job completed"
default_message failed = text "Job failed"
default_message partially_succeeded = text "Job completed with failures"
default_message cancelled = text "Job cancelled"
default_message queued = text "queued"
default_message running = text "running"
default_message cancelling = text "cancelling"

-- The message of a job that `finish` closes with a status.
final_message : Job → HandlerResult → Status → Text
unfolding default_message
final_message job r status =
    bounded_text
      (if is_cancelling job.status && not (is_cancelled status)
        then own ++ text "; cancellation arrived after the final safe boundary"
        else own)
      500
  where
    own : Text
    own = or_else (bounded_text r.message 2000) (default_message status)

unfoldable pub finished : HandlerResult → ℕ → Job → Job
unfolding final_message final_status safe_items
finished r now job =
    let status' = final_status job r in
    record job {
      visible = record job.visible {
        status = status';
        completed = given r.completed (or_number job.total job.completed);
        total = given r.total job.total;
        results = arr (safe_items r.results);
        current_step = [];
        message = final_message job r status';
        error =
            if is_failed status'
            then bounded_text (or_else (bounded_text r.error 2000) (bounded_text r.message 2000))
                1000
            else [];
        finished_at = some now;
      };
    }

-- `finish(job, result)`
unfoldable pub finish : Manager → Job → HandlerResult → ℕ → Manager
unfolding change persist
finish m job r now = persist (change job.id (finished r now) m)

-- How a handler's promise is rejected: by the checkpoint's `JobCancelledError`, or otherwise.
pub data Rejection : Type 0 where
  job_cancelled : Text → Rejection
  thrown : Text → Rejection

abbrev pub rejected : Rejection → ℕ → Job → Job
rejected (job_cancelled message) now job = record job {
  visible = record job.visible {
    status = cancelled;
    current_step = [];
    message = bounded_text message 500;
    error = [];
    finished_at = some now;
  };
}
rejected (thrown message) now job = record job {
  visible = record job.visible {
    status = failed;
    current_step = [];
    message = text "Job failed";
    error = bounded_text message 1000;
    finished_at = some now;
  };
}

-- `fail(job, error)`
unfoldable pub fail : Manager → Job → Rejection → ℕ → Manager
unfolding change persist
fail m job e now = persist (change job.id (rejected e now) m)

-- `this.running.delete(id)`
unfoldable pub delete_running : Text → List Active → List Active
unfolding select
delete_running id active = select (λ a. not (text_eq a.id id)) active

-- The `finally` of `launch`.
unfoldable pub settle : Manager → Text → Manager
unfolding delete_running emit schedule
settle m id = schedule (emit id (record m { running = delete_running id m.running }))

abbrev pub cancelled_early : ℕ → Job → Job
cancelled_early now job = record job {
  visible = record job.visible {
    status = cancelled;
    finished_at = some now;
    current_step = [];
    message = text "Cancelled before execution";
  };
}

abbrev pub cancel_requested : Job → Job
cancel_requested job = record job {
  visible = record job.visible {
    status = cancelling;
    message = text "Cancellation requested; waiting for a safe boundary";
  };
}

abbrev pub is_started : Status → Bool
is_started running = true
is_started cancelling = true
is_started _ = false

-- `cancel(id)`: the manager, and the job as the caller is shown it.
unfoldable pub cancel : Manager → Text → ℕ → Result (Manager × PublicJob)
unfolding save public_job
cancel m id now = do
  job ← or_fail (get m id) not_found
  elim (is_queued job.status) [
    | true ↦
        let m' = save job.id (cancelled_early now) m in
        ok (m', public_job m' (cancelled_early now job))
    | false ↦ do
      guard (is_started job.status) not_queued_or_running
      guard job.cancellable not_cancellable
      let m' = save job.id cancel_requested m
      ok (m', public_job m' (cancel_requested job))
  ]
