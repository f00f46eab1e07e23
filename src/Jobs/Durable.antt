-- ===== src/Jobs/Durable.antt =====
-- jobs.json holds the list of jobs after every step.
use hosting_control_panel.Common.{
  ℕ, zero, suc, ◌≡◌, ◌∙◌, refl, sym, ap, subst, map, true, Memᴰ, ◌==◌, if◌then◌else◌, Bool, Option,
  List, [], ◌∷◌, select, Bool-cases, inl, inr, Text, arith,
}
use hosting_control_panel.Jobs.Job.{Job, Manager, PublicJob, ok}
use hosting_control_panel.Jobs.Store.{job_active, persist, save, change, emit}
use hosting_control_panel.Jobs.Prune.{prune_keeps_active}
use hosting_control_panel.Jobs.Queue.{
  launch, launchable, pass, passes, run_queue, job_queued, schedule,
}
use hosting_control_panel.Jobs.Create.{
  CreateInput, recover_job, boot, register, start, create, retry_input, retry_inverts,
}
use hosting_control_panel.Jobs.Run.{update, finish, fail, settle, cancel}
use hosting_control_panel.Jobs.Step.{
  Step, registered, was_started, created, retried, was_cancelled, microtask, updated, finished,
  failed as handler_failed, settled, Reach, booted, next,
}

abbrev IsStored : Manager → Type 0
IsStored m = m.stored ≡ m.jobs

pass-IsStored :
    (clock : Text → ℕ) (m : Manager) (js : List Job) → IsStored m → IsStored (pass clock m js).0
unfolding pass launch save persist emit
pass-IsStored clock m [] h = h
pass-IsStored clock m (j ∷ js) h = elim (Bool-cases (launchable m j)) [
  | inl runs ↦ rw runs (pass-IsStored clock (launch m (clock j.id) j) js refl)
  | inr waits ↦ rw waits (pass-IsStored clock m js h)
]

passes-IsStored :
    (clock : Text → ℕ) (fuel : ℕ) (m : Manager) → IsStored m → IsStored (passes clock fuel m)
unfolding passes
passes-IsStored clock zero m h = h
passes-IsStored clock (suc fuel) m h =
    let js = select job_queued m.jobs in
    let after = pass-IsStored clock m js h in
    elim (Bool-cases (pass clock m js).1) [
      | inl more ↦ rw (more, passes) (passes-IsStored clock fuel (pass clock m js).0 after)
      | inr done ↦ rw (done, passes) after
    ]

start-IsStored :
    (m : Manager) (types : Option (List Text)) (standby : Bool) (now : ℕ)
    → IsStored m
    → IsStored (start m types standby now)
unfolding start persist schedule
start-IsStored m types standby now h = ground arith

create-IsStored :
    (m : Manager) (id : Text) (now : ℕ) (input : CreateInput) {m' : Manager} {p : PublicJob}
    → IsStored m
    → create m id now input ≡ ok (m', p)
    → IsStored m'
unfolding create persist emit schedule
create-IsStored m id now input h e = ground arith

Step-IsStored : {m m' : Manager} → Step m m' → IsStored m → IsStored m'
unfolding register cancel update finish fail settle schedule save change persist emit run_queue
Step-IsStored (registered t e) h = ground arith
Step-IsStored {m} (was_started types standby now) h = start-IsStored m types standby now h
Step-IsStored {m} (created id now input p f e) h = create-IsStored m id now input h e
Step-IsStored {m} (retried id operator new_id now p f e) h =
    let (job, found, ended, again, made) = retry_inverts m id operator new_id now e in
    create-IsStored m new_id now (retry_input job operator) h made
Step-IsStored (was_cancelled id now p e) h = ground arith
Step-IsStored {m} (microtask clock e) h = passes-IsStored clock 2 m h
Step-IsStored (updated id job p e) h = ground arith
Step-IsStored (finished id job r now e s) h = refl
Step-IsStored (handler_failed id job x now e s) h = refl
Step-IsStored (settled id) h = ground arith

Reach-IsStored : {m : Manager} → Reach m → IsStored m
unfolding boot persist
Reach-IsStored (booted now limit loaded d) = refl
Reach-IsStored (next r s) = Step-IsStored s (Reach-IsStored r)

recover_job-queued : (now : ℕ) (j : Job) → job_queued j ≡ true → recover_job now j ≡ j
unfolding recover_job
recover_job-queued now j q = ground (arith, q)

queued_active : (j : Job) → job_queued j ≡ true → job_active j ≡ true
queued_active j q = ground (arith, q)

mem-recovered :
    (now : ℕ) (jobs : List Job) (j : Job)
    → Memᴰ j jobs
    → job_queued j ≡ true
    → Memᴰ j (map (recover_job now) jobs)
mem-recovered now [] j h q = elim h [ ]
mem-recovered now (x ∷ xs) j (Memᴰ.head e) q =
    Memᴰ.head (sym (recover_job-queued now j q) ∙ ap (recover_job now) e)
mem-recovered now (x ∷ xs) j (Memᴰ.tail h) q = Memᴰ.tail (mem-recovered now xs j h q)

-- A job that waits in jobs.json is still there after a restart.
boot-keeps_queued :
    (now limit : ℕ) (jobs : List Job) (j : Job)
    → Memᴰ j jobs
    → job_queued j ≡ true
    → Memᴰ j (boot now limit jobs).jobs
unfolding boot persist
boot-keeps_queued now limit jobs j h q =
    prune_keeps_active (if limit == 0 then 250 else limit) (map (recover_job now) jobs) j
      (mem-recovered now jobs j h q) (queued_active j q)

-- In every reachable state, jobs.json holds exactly the list of jobs in memory, and a panel that is
-- restarted from this file, at whatever time and with whatever limit on the history, has every queued job
-- in its list, unchanged.
pub Reach-stored :
    {m : Manager}
    → Reach m
    → (m.stored ≡ m.jobs)
      × ((now limit : ℕ) (j : Job)
          → Memᴰ j m.jobs
          → job_queued j ≡ true
          → Memᴰ j (boot now limit m.stored).jobs)
Reach-stored {m} r = (
  Reach-IsStored r,
  λ now limit j h q.
      boot-keeps_queued now limit m.stored j (subst (Memᴰ j) (sym (Reach-IsStored r)) h) q,
)
