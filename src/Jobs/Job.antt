-- ===== src/Jobs/Job.antt =====
-- The jobs of ui-manager/app/lib/job-manager.js and the state that its `JobManager` keeps.
use hosting_control_panel.Common.{
  ◌≢◌, All, [], ◌∷◌, ℕ, Bool, true, false, Option, List, Text, some, none,
}
use hosting_control_panel.Jobs.Value.{Value}

pub data Status : Type 0 where
  queued running cancelling succeeded failed partially_succeeded cancelled : Status

-- `ACTIVE_STATUSES.has(status)`
abbrev pub is_active : Status → Bool
is_active queued = true
is_active running = true
is_active cancelling = true
is_active _ = false

-- `TERMINAL_STATUSES.has(status)`
abbrev pub is_terminal : Status → Bool
is_terminal succeeded = true
is_terminal failed = true
is_terminal partially_succeeded = true
is_terminal cancelled = true
is_terminal _ = false

abbrev pub is_queued : Status → Bool
is_queued queued = true
is_queued _ = false

abbrev pub is_cancelling : Status → Bool
is_cancelling cancelling = true
is_cancelling _ = false

abbrev pub is_failed : Status → Bool
is_failed failed = true
is_failed _ = false

abbrev pub is_cancelled : Status → Bool
is_cancelled cancelled = true
is_cancelled _ = false

pub record Notification : Type 0 where
  pub id : Text
  pub content : Value

-- What `publicJob` lets out of a job. A time is in milliseconds, `none` is the empty string.
pub record Visible : Type 0 where
  pub id : Text
  pub job_type : Text
  pub label : Text
  pub status : Status
  pub operator : Text
  pub trigger : Text
  pub targets : List Text
  pub conflicts : List Text
  pub cancellable : Bool
  pub retryable : Bool
  pub retry_of : Text
  pub attempt : ℕ
  pub created_at : ℕ
  pub started_at : Option ℕ
  pub finished_at : Option ℕ
  pub total : ℕ
  pub completed : ℕ
  pub current_step : Text
  pub message : Text
  pub error : Text
  pub results : Value
  pub notifications : List Notification

pub record Job : Type 0 where
  pub visible : Visible
  pub open visible use *
  pub idempotency_key : Text
  pub payload : Value

-- An entry of the map `running`: its key, and what the code reads of the job behind it.
pub record Active : Type 0 where
  pub id : Text
  pub label : Text
  pub conflicts : List Text

-- `stored` is what jobs.json holds, `emitted` the "changed" events, the newest first.
pub record Manager : Type 0 where
  pub history_limit : ℕ
  pub handlers : List Text
  pub allowlist : Option (List Text)
  pub started : Bool
  pub processing : Bool
  pub jobs : List Job
  pub running : List Active
  pub stored : List Job
  pub emitted : List Text

pub record PublicJob : Type 0 where
  pub visible : Visible
  pub waiting_for : List (Text × Text)

pub data Failure : Type 0 where
  invalid_type already_registered no_handler sensitive_payload not_found : Failure
  not_queued_or_running not_cancellable not_finished not_retryable : Failure

-- The `statusCode` that goes with the error, 500 where the code sets none.
unfoldable pub status_code : Failure → ℕ
status_code invalid_type = 500
status_code already_registered = 500
status_code no_handler = 400
status_code sensitive_payload = 400
status_code not_found = 404
status_code not_queued_or_running = 409
status_code not_cancellable = 409
status_code not_finished = 409
status_code not_retryable = 409

pub data Result {ℓ} (A : Type ℓ) : Type ℓ where
  ok : A → Result A
  err : Failure → Result A

infixl 5 ◌>>=◌
abbrev pub ◌>>=◌ {ℓ κ} : {A : Type ℓ} {B : Type κ} → Result A → (A → Result B) → Result B
ok a >>= f = f a
err e >>= f = err e

abbrev pub or_fail {ℓ} : {A : Type ℓ} → Option A → Failure → Result A
or_fail none e = err e
or_fail (some a) e = ok a

infixl 5 ◌>>◌
abbrev pub ◌>>◌ {ℓ} : {B : Type ℓ} → Result (Unit {0}) → Result B → Result B
m >> k = m >>= λ _. k

abbrev pub guard : Bool → Failure → Result (Unit {0})
guard true e = ok tt
guard false e = err e

-- No two jobs have one id.
abbrev pub Distinct : List Job → Type 0
Distinct [] = Unit
Distinct (j ∷ js) = All (λ k. k.id ≢ j.id) js × Distinct js

abbrev pub Absent : List Active → Job → Type 0
Absent active j = All (λ a. a.id ≢ j.id) active
