-- ===== src/Jobs/Step.antt =====
-- The steps of the job manager (ui-manager/app/lib/job-manager.js): the calls that the panel makes,
-- and what the event loop runs between them.
use hosting_control_panel.Common.{ℕ, ◌≡◌, ◌≢◌, All, Bool, true, Option, some, List, Text}
use hosting_control_panel.Jobs.Job.{Distinct, Job, Manager, PublicJob, ok}
use hosting_control_panel.Jobs.Store.{get}
use hosting_control_panel.Jobs.Queue.{run_queue}
use hosting_control_panel.Jobs.Create.{CreateInput, boot, register, start, create, retry}
use hosting_control_panel.Jobs.Run.{
  Patch, HandlerResult, Rejection, is_started, update, finish, fail, settle, cancel,
}

-- `crypto.randomUUID()` gives an id that is not in use.
abbrev pub Fresh : Text → Manager → Type 0
Fresh id m = All (λ j. j.id ≢ id) m.jobs × All (λ a. a.id ≢ id) m.running

-- A handler's promise settles while its job is running or cancelling; `settled` is the `finally`
-- that follows.
pub data Step (m : Manager) : Manager → Type 0 where
  registered : (t : Text) {m' : Manager} → register m t ≡ ok m' → Step m m'
  was_started :
      (types : Option (List Text)) (standby : Bool) (now : ℕ) → Step m (start m types standby now)
  created :
      (id : Text) (now : ℕ) (input : CreateInput) (p : PublicJob) {m' : Manager}
      → Fresh id m
      → create m id now input ≡ ok (m', p)
      → Step m m'
  retried :
      (id operator new_id : Text) (now : ℕ) (p : PublicJob) {m' : Manager}
      → Fresh new_id m
      → retry m id operator new_id now ≡ ok (m', p)
      → Step m m'
  was_cancelled :
      (id : Text) (now : ℕ) (p : PublicJob) {m' : Manager}
      → cancel m id now ≡ ok (m', p)
      → Step m m'
  microtask : (clock : Text → ℕ) → m.processing ≡ true → Step m (run_queue clock m)
  updated : (id : Text) (job : Job) (p : Patch) → get m id ≡ some job → Step m (update m job p)
  finished :
      (id : Text) (job : Job) (r : HandlerResult) (now : ℕ)
      → get m id ≡ some job
      → is_started job.status ≡ true
      → Step m (finish m job r now)
  failed :
      (id : Text) (job : Job) (e : Rejection) (now : ℕ)
      → get m id ≡ some job
      → is_started job.status ≡ true
      → Step m (fail m job e now)
  settled : (id : Text) → Step m (settle m id)

-- The managers that a panel reaches from its start.
pub data Reach : Manager → Type 0 where
  booted : (now limit : ℕ) (loaded : List Job) → Distinct loaded → Reach (boot now limit loaded)
  next : {m m' : Manager} → Reach m → Step m m' → Reach m'
